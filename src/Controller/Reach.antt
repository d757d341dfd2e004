-- ===== src/Controller/Reach.antt =====
-- What stands between two steps of the controller of pkg/routing/providercontroller.go: calls on
-- the node map, and changes of the world.
use networking.Prelude.{
  ℕ, Bool, true, false, not, ◌||◌, List, [], ◌∷◌, String, if◌then◌else◌, is_some, string_eq, ◌≡◌,
  arith, refl, Bool-cases, inl, inr,
}
use networking.Prelude.Dict.{Dict, RangeOrder, insert}
use networking.Nodes.{Node, Parsers}
use networking.Nodes.Map.{
  NodeMap, mark_ready, bump, remove_node, find_or_add, claim_me, update_node, update_all, is_named,
  remove_stale, replace_all_nodes,
}
use networking.Nodes.Map.Invariant.{Call, marks_ready, removes, updates, replaces, call}
use networking.Controller.{State, Environment, step}

-- One move of the whole.
pub data Move {W : Type 0} (net : Parsers) (order : RangeOrder String ℕ) (e : Environment W)
    : State W → State W → Type 0 where
  steps_on : (s : State W) → Move net order e s (step e s)
  calls :
      (s : State W) (c : Call)
      → Move net order e s (record s { node_map = call net order s.node_map c })
  changes : (s : State W) (w : W) → Move net order e s (record s { world = w })

pub data Reach {W : Type 0} (net : Parsers) (order : RangeOrder String ℕ) (e : Environment W)
    (from : State W) : State W → Type 0 where
  here : Reach net order e from from
  onward :
      (s t : State W) → Reach net order e from s → Move net order e s t → Reach net order e from t

-- A node map that is ready stays so, and one that knows the local node does not forget it.
unfoldable pub Keeps : NodeMap → NodeMap → Type 0
Keeps m n = (m.ready ≡ true → n.ready ≡ true) × (is_some m.me ≡ true → is_some n.me ≡ true)

update_node-Keeps : (net : Parsers) (m : NodeMap) (src : Node) → Keeps m (update_node net m src).0
unfolding Keeps update_node find_or_add claim_me bump
update_node-Keeps net m src = (λ h. ground (arith, h), λ h. ground (arith, h))

update_all-Keeps :
    (net : Parsers) (m : NodeMap) (names : Dict String Bool) (changed : Bool) (srcs : List Node)
    → Keeps m (update_all net m names changed srcs).0
unfolding Keeps update_all
update_all-Keeps net m names changed [] = (λ h. h, λ h. h)
update_all-Keeps net m names changed (src ∷ rest) =
    let first = update_node-Keeps net m src in
    let later =
      update_all-Keeps net (update_node net m src).0 (insert src.name true names) _ rest in
    (λ h. later.0 (first.0 h), λ h. later.1 (first.1 h))

kept_either :
    (m : NodeMap) (names : Dict String Bool) (k : String)
    → Keeps m (if is_named names k then m else remove_node m k)
unfolding Keeps remove_node bump
kept_either m names k = elim (Bool-cases (is_named names k)) [
  | inl e ↦ rw e ((λ h. h), (λ h. h))
  | inr e ↦ rw e ((λ h. h), (λ h. h))
]

remove_stale-Keeps :
    (m : NodeMap) (names : Dict String Bool) (changed : Bool) (entries : Dict String ℕ)
    → Keeps m (remove_stale m names changed entries).0
unfolding Keeps remove_stale
remove_stale-Keeps m names changed [] = (λ h. h, λ h. h)
remove_stale-Keeps m names changed ((k, p) ∷ rest) =
    let n : NodeMap = if is_named names k then m else remove_node m k in
    let first = kept_either m names k in
    let later = remove_stale-Keeps n names (changed || not (is_named names k)) rest in
    (λ h. later.0 (first.0 h), λ h. later.1 (first.1 h))

pub call-Keeps :
    (net : Parsers) (order : RangeOrder String ℕ) (m : NodeMap) (c : Call)
    → Keeps m (call net order m c)
unfolding Keeps call mark_ready remove_node bump replace_all_nodes
call-Keeps net order m marks_ready = (λ h. refl, λ h. h)
call-Keeps net order m (removes node) = (λ h. h, λ h. h)
call-Keeps net order m (updates node) = update_node-Keeps net m node
call-Keeps net order m (replaces nodes) =
    let first = update_all-Keeps net m [] false nodes in
    let (n, names, changed) = update_all net m [] false nodes in
    let later = remove_stale-Keeps n names changed (order.range n.nodes) in
    (λ h. later.0 (first.0 h), λ h. later.1 (first.1 h))
