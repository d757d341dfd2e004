-- ===== src/Nodes/Map/Invariant.antt =====
-- What holds of every `NodeMap` that the methods of pkg/routing/nodes.go make.
use networking.Prelude.{
  ℕ, ◌<◌, Bool, true, false, some, List, [], ◌∷◌, String, if◌then◌else◌, is_some, nat_eq, string_eq,
  ◌≡◌, arith, Option-cases, Bool-cases, inl, inr,
}
use networking.Prelude.Dict.{
  Dict, lookup, lookup-insert, lookup-delete, Distinct, insert-Distinct, delete-Distinct,
  RangeOrder,
}
use networking.Nodes.{Node, Parsers}
use networking.Nodes.Info.{NodeInfo}
use networking.Nodes.Info.Update.{name-update}
use networking.Nodes.Map.{
  NodeMap, new_node_map, mark_ready, bump, write, remove_node, find_or_add, claim_me, update_node,
  update_all, is_named, remove_stale, replace_all_nodes,
}

-- Each name has one entry, each entry a cell of its own that has been allocated and that carries
-- the name, and `me` points at an allocated cell.
pub record IsValid (m : NodeMap) : Type 0 where
  pub distinct : Distinct m.nodes
  pub allocated : (k : String) (p : ℕ) → lookup k m.nodes ≡ some p → p < m.next
  pub named : (k : String) (p : ℕ) → lookup k m.nodes ≡ some p → (m.cells p).name ≡ k
  pub me_allocated : (p : ℕ) → m.me ≡ some p → p < m.next

pub new_node_map-IsValid : (pred : Node → Bool) → IsValid (new_node_map pred)
unfolding new_node_map lookup
new_node_map-IsValid pred = record {
  distinct = tt;
  allocated = λ k p h. cc;
  named = λ k p h. cc;
  me_allocated = λ p h. cc;
}

pub remove_node-IsValid : (m : NodeMap) (name : String) → IsValid m → IsValid (remove_node m name)
unfolding remove_node bump
remove_node-IsValid m name v = record {
  distinct = delete-Distinct name m.nodes v.distinct;
  allocated = λ k p h. ground (arith, lookup-delete name k m.nodes, v.allocated k p);
  named = λ k p h. ground (arith, lookup-delete name k m.nodes, v.named k p);
  me_allocated = v.me_allocated;
}

pub find_or_add-IsValid : (m : NodeMap) (name : String) → IsValid m → IsValid (find_or_add m name).0
unfolding find_or_add write
find_or_add-IsValid m name v = elim (Option-cases (lookup name m.nodes)) [
  | inr (p, e) ↦ rw (e, find_or_add) v
  | inl e ↦
      rw (e, find_or_add)
        (record {
          distinct = insert-Distinct name m.next m.nodes v.distinct;
          allocated = λ k p h. ground (arith, lookup-insert name k m.next m.nodes, v.allocated k p);
          named = λ k p h. ground (
            arith,
            lookup-insert name k m.next m.nodes,
            v.named k p,
            v.allocated k p,
            string_eq.same_iff name k,
          );
          me_allocated = λ p h. ground (arith, v.me_allocated p);
        })
]

pub lookup-find_or_add :
    (m : NodeMap) (name : String)
    → lookup name (find_or_add m name).0.nodes ≡ some (find_or_add m name).1
unfolding find_or_add
lookup-find_or_add m name =
    ground (arith, lookup-insert name name m.next m.nodes, string_eq.same_iff name name)

-- A cell may be written if its name stays.
write-IsValid :
    (m : NodeMap) (p : ℕ) (n : NodeInfo)
    → n.name ≡ (m.cells p).name
    → IsValid m
    → IsValid (record m { cells = write m.cells p n })
unfolding write
write-IsValid m p n e v = record {
  distinct = v.distinct;
  allocated = v.allocated;
  named = λ k q h. ground (arith, v.named k q);
  me_allocated = v.me_allocated;
}

claim_me-IsValid :
    (m : NodeMap) (p : ℕ) (src : Node) → p < m.next → IsValid m → IsValid (claim_me m p src).0
unfolding claim_me
claim_me-IsValid m p src b v = elim (Bool-cases (is_some m.me)) [
  | inl e ↦ rw e v
  | inr e ↦ rw e (elim (Bool-cases (m.me_predicate src)) [
    | inl f ↦ rw f (record {
      distinct = v.distinct;
      allocated = v.allocated;
      named = v.named;
      me_allocated = λ q h. ground arith;
    })
    | inr f ↦ rw f v
  ])
]

bump-IsValid : (m : NodeMap) → IsValid m → IsValid (bump m)
unfolding bump
bump-IsValid m v = record {
  distinct = v.distinct;
  allocated = v.allocated;
  named = v.named;
  me_allocated = v.me_allocated;
}

if_bump-IsValid : (c : Bool) (m : NodeMap) → IsValid m → IsValid (if c then bump m else m)
if_bump-IsValid true m v = bump-IsValid m v
if_bump-IsValid false m v = v

module _ (net : Parsers) where
  pub update_node-IsValid :
      (m : NodeMap) (src : Node) → IsValid m → IsValid (update_node net m src).0
  unfolding update_node
  update_node-IsValid m src v =
      let v1 = find_or_add-IsValid m src.name v in
      let p = (find_or_add m src.name).1 in
      let b = v1.allocated src.name p (lookup-find_or_add m src.name) in
      if_bump-IsValid _ _
        (claim_me-IsValid _ p src b (write-IsValid _ p _ (name-update net src _) v1))

  pub update_all-IsValid :
      (m : NodeMap) (names : Dict String Bool) (changed : Bool) (srcs : List Node)
      → IsValid m
      → IsValid (update_all net m names changed srcs).0
  unfolding update_all
  update_all-IsValid m names changed [] v = v
  update_all-IsValid m names changed (src ∷ rest) v =
      update_all-IsValid (update_node net m src).0 _ _ rest (update_node-IsValid m src v)

pub remove_stale-IsValid :
    (m : NodeMap) (names : Dict String Bool) (changed : Bool) (entries : Dict String ℕ)
    → IsValid m
    → IsValid (remove_stale m names changed entries).0
unfolding remove_stale
remove_stale-IsValid m names changed [] v = v
remove_stale-IsValid m names changed ((k, p) ∷ rest) v =
    remove_stale-IsValid (if is_named names k then m else remove_node m k) names _ rest
      (elim (Bool-cases (is_named names k)) [
        | inl e ↦ rw e v
        | inr e ↦ rw e (remove_node-IsValid m k v)
      ])

-- The calls of the methods that change a `NodeMap`.
pub data Call : Type 0 where
  marks_ready : Call
  removes updates : Node → Call
  replaces : List Node → Call

module _ (net : Parsers) (order : RangeOrder String ℕ) where
  unfoldable pub call : NodeMap → Call → NodeMap
  call m marks_ready = mark_ready m
  call m (removes node) = remove_node m node.name
  call m (updates node) = (update_node net m node).0
  call m (replaces nodes) = (replace_all_nodes net order m nodes).0

  unfoldable pub run : NodeMap → List Call → NodeMap
  run m [] = m
  run m (c ∷ cs) = run (call m c) cs

  -- Every call keeps the invariant.
  pub call-IsValid : (m : NodeMap) (c : Call) → IsValid m → IsValid (call m c)
  unfolding call mark_ready replace_all_nodes
  call-IsValid m marks_ready v = record {
    distinct = v.distinct;
    allocated = v.allocated;
    named = v.named;
    me_allocated = v.me_allocated;
  }
  call-IsValid m (removes node) v = remove_node-IsValid m node.name v
  call-IsValid m (updates node) v = update_node-IsValid net m node v
  call-IsValid m (replaces nodes) v =
      remove_stale-IsValid _ _ _ _ (update_all-IsValid net m [] false nodes v)

  run-IsValid : (m : NodeMap) (cs : List Call) → IsValid m → IsValid (run m cs)
  unfolding run
  run-IsValid m [] v = v
  run-IsValid m (c ∷ cs) v = run-IsValid (call m c) cs (call-IsValid m c v)

  -- After any calls from `NewNodeMap` on, no two names share a record, every entry's record
  -- carries the name that it is kept under, and `me` points at a record that has been allocated.
  pub run-new_node_map-IsValid :
      (pred : Node → Bool) (cs : List Call) → IsValid (run (new_node_map pred) cs)
  run-new_node_map-IsValid pred cs = run-IsValid _ cs (new_node_map-IsValid pred)
