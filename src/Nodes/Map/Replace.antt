-- ===== src/Nodes/Map/Replace.antt =====
-- `ReplaceAllNodes` of pkg/routing/nodes.go: a full list of the nodes.
use networking.Prelude.{
  ℕ, Bool, true, false, not, ◌&&◌, ◌||◌, Option, none, some, List, [], ◌∷◌, String, if◌then◌else◌,
  is_some, ◌==◌, nat_eq, string_eq, ◌≡◌, arith, refl, ap, ◌∙◌,
}
use networking.Prelude.Dict.{Dict, lookup, insert, lookup-insert, RangeOrder}
use networking.Nodes.{Node, Parsers}
use networking.Nodes.Info.{NodeInfo, update}
use networking.Nodes.Map.{
  NodeMap, remove_node, update_node, update_all, is_named, remove_stale, replace_all_nodes,
}
use networking.Nodes.Map.Invariant.{IsValid, update_node-IsValid, update_all-IsValid}
use networking.Nodes.Map.View.{view, known, view-remove_node, view-update_node}
use networking.Nodes.Map.Version.{update_node_quiet}

-- A node of that name stands in the list.
unfoldable pub listed : String → List Node → Bool
listed k [] = false
listed k (src ∷ rest) = src.name == k || listed k rest

-- The record of `k` after the nodes of the list that are named so, in turn.
unfoldable pub brought_up : Parsers → String → List Node → Option NodeInfo → Option NodeInfo
brought_up net k [] o = o
brought_up net k (src ∷ rest) o =
    brought_up net k rest (if src.name == k then some (update net (known o k) src).0 else o)

is_named-insert :
    (j k : String) (names : Dict String Bool)
    → is_named (insert j true names) k ≡ (j == k || is_named names k)
unfolding is_named
is_named-insert j k names = ground (arith, lookup-insert j k true names)

module _ (net : Parsers) where
  view-update_all :
      (m : NodeMap) (names : Dict String Bool) (changed : Bool) (srcs : List Node) (k : String)
      → IsValid m
      → view (update_all net m names changed srcs).0 k ≡ brought_up net k srcs (view m k)
  unfolding update_all brought_up
  view-update_all m names changed [] k v = refl
  view-update_all m names changed (src ∷ rest) k v =
      view-update_all (update_node net m src).0 _ _ rest k (update_node-IsValid net m src v)
      ∙ ap (brought_up net k rest) (view-update_node net m src k v)

  named-update_all :
      (m : NodeMap) (names : Dict String Bool) (changed : Bool) (srcs : List Node) (k : String)
      → is_named (update_all net m names changed srcs).1 k ≡ (listed k srcs || is_named names k)
  unfolding update_all listed
  named-update_all m names changed [] k = refl
  named-update_all m names changed (src ∷ rest) k =
      named-update_all (update_node net m src).0 (insert src.name true names) _ rest k
      ∙ ground (arith, is_named-insert src.name k names)

  update_all_quiet :
      (m : NodeMap) (names : Dict String Bool) (changed : Bool) (srcs : List Node)
      → (update_all net m names changed srcs).2 ≡ false
      → ((update_all net m names changed srcs).0 ≡ m) × (changed ≡ false)
  unfolding update_all
  update_all_quiet m names changed [] h = (refl, h)
  update_all_quiet m names changed (src ∷ rest) h = ground (
    arith,
    update_node_quiet net m src,
    update_all_quiet (update_node net m src).0 (insert src.name true names)
        (changed || (update_node net m src).1) rest h,
  )

view-remove_stale :
    (m : NodeMap) (names : Dict String Bool) (changed : Bool) (entries : Dict String ℕ) (k : String)
    → view (remove_stale m names changed entries).0 k
      ≡ (if is_some (lookup k entries) && not (is_named names k) then none else view m k)
unfolding remove_stale lookup
view-remove_stale m names changed [] k = refl
view-remove_stale m names changed ((j, p) ∷ rest) k =
    let m' = if is_named names j then m else remove_node m j in
    ground (
      arith,
      view-remove_stale m' names (changed || not (is_named names j)) rest k,
      view-remove_node m j k,
      string_eq.same_iff j k,
    )

remove_stale_quiet :
    (m : NodeMap) (names : Dict String Bool) (changed : Bool) (entries : Dict String ℕ)
    → (remove_stale m names changed entries).1 ≡ false
    → ((remove_stale m names changed entries).0 ≡ m) × (changed ≡ false)
unfolding remove_stale
remove_stale_quiet m names changed [] h = (refl, h)
remove_stale_quiet m names changed ((j, p) ∷ rest) h =
    let m' = if is_named names j then m else remove_node m j in
    ground (arith, remove_stale_quiet m' names (changed || not (is_named names j)) rest h)

unnamed : (k : String) → is_named [] k ≡ false
unfolding is_named lookup
unnamed k = refl

view-none : (m : NodeMap) (k : String) → lookup k m.nodes ≡ none → view m k ≡ none
unfolding view
view-none m k e = rw (e, view)

module _ (net : Parsers) (order : RangeOrder String ℕ) (m : NodeMap) (srcs : List Node) where
  -- After `ReplaceAllNodes` the map holds the names of the list and no others, whatever the order
  -- of the run time, and each record is brought up to date by the nodes of its name.
  pub view-replace_all_nodes :
      (k : String)
      → IsValid m
      → view (replace_all_nodes net order m srcs).0 k
        ≡ (if listed k srcs then brought_up net k srcs (view m k) else none)
  unfolding replace_all_nodes
  view-replace_all_nodes k v =
      let (m', names, changed) = update_all net m [] false srcs in
      let d = (update_all-IsValid net m [] false srcs v).distinct in
      ground (
        arith,
        view-remove_stale m' names changed (order.range m'.nodes) k,
        named-update_all net m [] false srcs k,
        view-update_all net m [] false srcs k v,
        order.lookup-range k m'.nodes d,
        view-none m' k,
        unnamed k,
      )

  -- If it reports no change, there is none.
  pub replace_all_nodes_quiet :
      (replace_all_nodes net order m srcs).1 ≡ false → (replace_all_nodes net order m srcs).0 ≡ m
  unfolding replace_all_nodes
  replace_all_nodes_quiet h =
      let (m', names, changed) = update_all net m [] false srcs in
      ground (
        arith,
        remove_stale_quiet m' names changed (order.range m'.nodes) h,
        update_all_quiet net m [] false srcs,
      )
