-- ===== src/Nodes/Map/View.antt =====
-- `NodeMap` of pkg/routing/nodes.go seen as a map from names to `NodeInfo`s, without pointers.
use networking.Prelude.{
  ℕ, Bool, true, false, Option, none, some, String, if◌then◌else◌, ◌==◌, nat_eq, string_eq, ◌≡◌,
  arith, refl, Option-cases, inl, inr,
}
use networking.Prelude.Dict.{lookup, lookup-insert, lookup-delete}
use networking.Nodes.{Node, Parsers}
use networking.Nodes.Info.{NodeInfo, blank, update}
use networking.Nodes.Map.{NodeMap, bump, write, remove_node, find_or_add, claim_me, update_node}
use networking.Nodes.Map.Invariant.{IsValid, find_or_add-IsValid, lookup-find_or_add}

unfoldable pub view : NodeMap → String → Option NodeInfo
view m k = elim (lookup k m.nodes) [ none ↦ none | some p ↦ some (m.cells p) ]

-- The record that `updateNode` starts from.
abbrev pub known : Option NodeInfo → String → NodeInfo
known none name = blank name
known (some n) name = n

-- A removed name has no record, and the others keep theirs.
pub view-remove_node :
    (m : NodeMap) (name k : String)
    → view (remove_node m name) k ≡ (if name == k then none else view m k)
unfolding view remove_node bump
view-remove_node m name k = ground (arith, lookup-delete name k m.nodes)

view-find_or_add :
    (m : NodeMap) (name k : String)
    → IsValid m
    → view (find_or_add m name).0 k ≡ (if name == k then some (known (view m k) name) else view m k)
unfolding view find_or_add write
view-find_or_add m name k v = elim (Option-cases (lookup name m.nodes)) [
  | inr (p, e) ↦ rw (e, find_or_add) (ground (arith, string_eq.same_iff name k))
  | inl e ↦
      rw (e, find_or_add)
        (elim (Option-cases (lookup k m.nodes)) [
          | inl f ↦ ground (arith, lookup-insert name k m.next m.nodes, string_eq.same_iff name k)
          | inr (q, f) ↦ ground (
            arith,
            lookup-insert name k m.next m.nodes,
            string_eq.same_iff name k,
            v.allocated k q,
          )
        ])
]

cell-find_or_add :
    (m : NodeMap) (name : String)
    → (find_or_add m name).0.cells (find_or_add m name).1 ≡ known (view m name) name
unfolding view find_or_add write
cell-find_or_add m name = ground arith

-- A write to the cell of `name` changes the record of `name` alone.
view-write :
    (m : NodeMap) (name k : String) (p : ℕ) (n : NodeInfo)
    → IsValid m
    → lookup name m.nodes ≡ some p
    → view (record m { cells = write m.cells p n }) k ≡ (if name == k then some n else view m k)
unfolding view write
view-write m name k p n v e = elim (Option-cases (lookup k m.nodes)) [
  | inl f ↦ ground (arith, string_eq.same_iff name k)
  | inr (q, f) ↦ ground (arith, string_eq.same_iff name k, v.named k q, v.named name p)
]

view-claim_me :
    (m : NodeMap) (p : ℕ) (src : Node) (k : String) → view (claim_me m p src).0 k ≡ view m k
unfolding view claim_me
view-claim_me m p src k = ground arith

view-bump : (c : Bool) (m : NodeMap) (k : String) → view (if c then bump m else m) k ≡ view m k
unfolding view bump
view-bump true m k = refl
view-bump false m k = refl

-- `updateNode` brings the record of its node up to date, from a blank one if there was none, and
-- leaves the others.
pub view-update_node :
    (net : Parsers) (m : NodeMap) (src : Node) (k : String)
    → IsValid m
    → view (update_node net m src).0 k
      ≡ (if src.name == k then some (update net (known (view m k) k) src).0 else view m k)
unfolding update_node
view-update_node net m src k v =
    let v1 = find_or_add-IsValid m src.name v in
    rw view-bump (
      rw view-claim_me (
        rw (view-write _ src.name k _ _ v1 (lookup-find_or_add m src.name)) (
          rw (cell-find_or_add m src.name)
            (ground (arith, view-find_or_add m src.name k v, string_eq.same_iff src.name k)))))
