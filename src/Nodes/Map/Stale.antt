-- ===== src/Nodes/Map/Stale.antt =====
-- What becomes of `me` when the local node is removed: `removeNode` of pkg/routing/nodes.go drops
-- the entry and leaves the pointer.
use networking.Prelude.{
  ℕ, ◌<◌, Bool, true, false, some, List, [], ◌∷◌, String, if◌then◌else◌, nat_eq, string_eq, ◌≡◌,
  ◌≢◌, arith, refl, Option-cases, Bool-cases, inl, inr,
}
use networking.Prelude.Dict.{Dict, lookup, lookup-insert, lookup-delete, RangeOrder}
use networking.Nodes.{Node, Parsers}
use networking.Nodes.Info.{NodeInfo}
use networking.Nodes.Map.{
  NodeMap, bump, write, remove_node, find_or_add, claim_me, update_node, update_all, is_named,
  remove_stale, replace_all_nodes, mark_ready,
}
use networking.Nodes.Map.Invariant.{
  IsValid, Call, marks_ready, removes, updates, replaces, call, run, lookup-find_or_add,
}

-- `me` points at a record that no entry of the map points at, and that holds `n`.
record IsDetached (p : ℕ) (n : NodeInfo) (m : NodeMap) : Type 0 where
  me : m.me ≡ some p
  allocated : p < m.next
  dropped : (k : String) → lookup k m.nodes ≢ some p
  holds : m.cells p ≡ n

module _ (p : ℕ) (n : NodeInfo) where
  bump-IsDetached :
      (c : Bool) (m : NodeMap) → IsDetached p n m → IsDetached p n (if c then bump m else m)
  unfolding bump
  bump-IsDetached true m d = record {
    me = d.me;
    allocated = d.allocated;
    dropped = d.dropped;
    holds = d.holds;
  }
  bump-IsDetached false m d = d

  remove_node-IsDetached :
      (m : NodeMap) (name : String) → IsDetached p n m → IsDetached p n (remove_node m name)
  unfolding remove_node bump
  remove_node-IsDetached m name d = record {
    me = d.me;
    allocated = d.allocated;
    dropped = λ k e. ground (arith, lookup-delete name k m.nodes, d.dropped k);
    holds = d.holds;
  }

  find_or_add-IsDetached :
      (m : NodeMap) (name : String) → IsDetached p n m → IsDetached p n (find_or_add m name).0
  unfolding find_or_add write
  find_or_add-IsDetached m name d = elim (Option-cases (lookup name m.nodes)) [
    | inr (q, e) ↦ rw (e, find_or_add) d
    | inl e ↦
        rw (e, find_or_add)
          (record {
            me = d.me;
            allocated = ground (arith, d.allocated);
            dropped = λ k h.
                ground (arith, lookup-insert name k m.next m.nodes, d.dropped k, d.allocated);
            holds = ground (arith, d.allocated, d.holds);
          })
  ]

  -- An update of a node that has an entry writes to another record, and `me` is taken.
  set_cell-IsDetached :
      (m : NodeMap) (q : ℕ) (n' : NodeInfo) (src : Node)
      → lookup src.name m.nodes ≡ some q
      → IsDetached p n m
      → IsDetached p n (claim_me (record m { cells = write m.cells q n' }) q src).0
  unfolding claim_me write
  set_cell-IsDetached m q n' src e d = rw d.me (record {
    me = refl;
    allocated = d.allocated;
    dropped = d.dropped;
    holds = ground (arith, d.dropped src.name, d.holds);
  })

  module _ (net : Parsers) where
    update_node-IsDetached :
        (m : NodeMap) (src : Node) → IsDetached p n m → IsDetached p n (update_node net m src).0
    unfolding update_node
    update_node-IsDetached m src d = bump-IsDetached _ _ (
        set_cell-IsDetached _ _ _ src (lookup-find_or_add m src.name)
          (find_or_add-IsDetached m src.name d))

    update_all-IsDetached :
        (m : NodeMap) (names : Dict String Bool) (changed : Bool) (srcs : List Node)
        → IsDetached p n m
        → IsDetached p n (update_all net m names changed srcs).0
    unfolding update_all
    update_all-IsDetached m names changed [] d = d
    update_all-IsDetached m names changed (src ∷ rest) d =
        update_all-IsDetached (update_node net m src).0 _ _ rest (update_node-IsDetached m src d)

  remove_stale-IsDetached :
      (m : NodeMap) (names : Dict String Bool) (changed : Bool) (entries : Dict String ℕ)
      → IsDetached p n m
      → IsDetached p n (remove_stale m names changed entries).0
  unfolding remove_stale
  remove_stale-IsDetached m names changed [] d = d
  remove_stale-IsDetached m names changed ((k, q) ∷ rest) d =
      remove_stale-IsDetached (if is_named names k then m else remove_node m k) names _ rest
        (elim (Bool-cases (is_named names k)) [
          | inl e ↦ rw e d
          | inr e ↦ rw e (remove_node-IsDetached m k d)
        ])

  module _ (net : Parsers) (order : RangeOrder String ℕ) where
    call-IsDetached :
        (m : NodeMap) (c : Call) → IsDetached p n m → IsDetached p n (call net order m c)
    unfolding call mark_ready replace_all_nodes
    call-IsDetached m marks_ready d = record {
      me = d.me;
      allocated = d.allocated;
      dropped = d.dropped;
      holds = d.holds;
    }
    call-IsDetached m (removes node) d = remove_node-IsDetached m node.name d
    call-IsDetached m (updates node) d = update_node-IsDetached net m node d
    call-IsDetached m (replaces nodes) d =
        remove_stale-IsDetached _ _ _ _ (update_all-IsDetached net m [] false nodes d)

    run-IsDetached :
        (m : NodeMap) (cs : List Call) → IsDetached p n m → IsDetached p n (run net order m cs)
    unfolding run
    run-IsDetached m [] d = d
    run-IsDetached m (c ∷ cs) d = run-IsDetached (call net order m c) cs (call-IsDetached m c d)

-- Once the node that `me` points at has been removed, no later call changes `me` or what it points
-- at: the record of the local node stays as it was, also when the node comes back under its name.
pub me_after_removal :
    (net : Parsers) (order : RangeOrder String ℕ) (m : NodeMap) (name : String) (p : ℕ)
    (cs : List Call)
    → IsValid m
    → m.me ≡ some p
    → lookup name m.nodes ≡ some p
    → ((run net order (remove_node m name) cs).me ≡ some p)
      × ((run net order (remove_node m name) cs).cells p ≡ m.cells p)
unfolding remove_node bump
me_after_removal net order m name p cs v me e =
    let d = run-IsDetached p (m.cells p) net order (remove_node m name) cs (record {
      me = me;
      allocated = v.me_allocated p me;
      dropped = λ k h. ground (
        arith,
        lookup-delete name k m.nodes,
        v.named k p,
        v.named name p,
        string_eq.same_iff name k,
      );
      holds = refl;
    }) in
    (d.me, d.holds)
