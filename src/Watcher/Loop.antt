-- ===== src/Watcher/Loop.antt =====
-- `runOnce` and `runWatcher` of pkg/watchers/nodecontroller.go: what a round leaves in the node map,
-- and when the map becomes ready.
use networking.Prelude.{
  ℕ, zero, suc, Bool, true, false, some, List, [], ◌∷◌, String, ok, err, fatal, Error, wrap, nat_eq,
  string_eq, ◌≡◌, arith, refl, inl, inr, length, Result-cases, ◌∙◌,
}
use networking.Prelude.Dict.{RangeOrder}
use networking.Net.{Ip}
use networking.Nodes.{Node, Parsers}
use networking.Nodes.Map.{
  NodeMap, mark_ready, is_ready, remove_node, update_node, bump, find_or_add, claim_me,
}
use networking.Nodes.Map.Invariant.{IsValid, update_node-IsValid, remove_node-IsValid}
use networking.Watcher.{
  EventType, added, modified, deleted, bookmark, error_event, other_event, EventObject, node_object,
  other_object, Signal, done, closed, event, Exit, returned, exited, waiting, Step, leave, go_on,
  NodeList, NodeCalls, handle, object_event, node_event, watch_nodes, relist, watch_from,
  next_round, run_once, run_watcher,
}
use networking.Watcher.Cluster.{
  Tracks, cluster_of, cluster_after, relist-Tracks, relist-IsValid, watch_nodes-Tracks, taken,
}

module _ (net : Parsers) where
  ready-update_node : (m : NodeMap) (src : Node) → (update_node net m src).0.ready ≡ m.ready
  unfolding update_node find_or_add claim_me bump
  ready-update_node m src = ground arith

  ready-remove_node : (m : NodeMap) (name : String) → (remove_node m name).ready ≡ m.ready
  unfolding remove_node bump
  ready-remove_node m name = refl

  -- What a signal leaves alone: the map is valid and ready as before.
  Kept : NodeMap → Step → Type 0
  Kept m (leave x) = Unit
  Kept m (go_on m') = (IsValid m → IsValid m') × (m'.ready ≡ m.ready)

  event-Kept :
      (m : NodeMap) (t : EventType) (o : EventObject)
      → Kept m (handle net m (event (record { type_of = t; object = o })))
  unfolding Kept handle object_event node_event
  event-Kept m bookmark o = (λ v. v, refl)
  event-Kept m error_event o = tt
  event-Kept m (other_event x) other_object = tt
  event-Kept m (other_event x) (node_object n) = tt
  event-Kept m added other_object = tt
  event-Kept m modified other_object = tt
  event-Kept m deleted other_object = tt
  event-Kept m added (node_object n) = (update_node-IsValid net m n, ready-update_node m n)
  event-Kept m modified (node_object n) = (update_node-IsValid net m n, ready-update_node m n)
  event-Kept m deleted (node_object n) = (remove_node-IsValid m n.name, ready-remove_node m n.name)

  handle-Kept : (m : NodeMap) (s : Signal) → Kept m (handle net m s)
  unfolding Kept handle
  handle-Kept m (done x) = tt
  handle-Kept m closed = tt
  handle-Kept m (event e) = event-Kept m e.type_of e.object

  taken-Kept :
      (m : NodeMap) (rest : List Signal) (s : Step)
      → Kept m s
      → ((n : NodeMap)
          → (IsValid n → IsValid (watch_nodes net n rest).1)
            × ((watch_nodes net n rest).1.ready ≡ n.ready))
      → (IsValid m → IsValid (taken net m rest s).1) × ((taken net m rest s).1.ready ≡ m.ready)
  unfolding Kept taken
  taken-Kept m rest (leave x) k ih = (λ v. v, refl)
  taken-Kept m rest (go_on n) k ih = (λ v. (ih n).0 (k.0 v), (ih n).1 ∙ k.1)

  watch_nodes_kept :
      (m : NodeMap) (signals : List Signal)
      → (IsValid m → IsValid (watch_nodes net m signals).1)
        × ((watch_nodes net m signals).1.ready ≡ m.ready)
  unfolding watch_nodes taken
  watch_nodes_kept m [] = (λ v. v, refl)
  watch_nodes_kept m (s ∷ rest) =
      taken-Kept m rest (handle net m s) (handle-Kept m s) (λ n. watch_nodes_kept n rest)

module _ {W : Type 0} (net : Parsers) (order : RangeOrder String ℕ) (calls : NodeCalls W) where
  watch_from_kept :
      (m : NodeMap) (version : String) (w : W)
      → (IsValid m → IsValid (watch_from net order calls m version w).1)
        × ((watch_from net order calls m version w).1.ready ≡ m.ready)
  unfolding watch_from
  watch_from_kept m version w = elim (Result-cases (calls.watch version w).0) [
    | inl (signals, e) ↦ rw (e, watch_from) (watch_nodes_kept net m signals)
    | inr (inl (x, e)) ↦ rw (e, watch_from) (λ v. v, refl)
    | inr (inr (x, e)) ↦ rw (e, watch_from) (λ v. v, refl)
  ]

  ready-relist : (m : NodeMap) (items : List Node) → (relist net order m items).ready ≡ true
  unfolding relist mark_ready
  ready-relist m items = refl

  run_once_kept :
      (m : NodeMap) (w : W)
      → (IsValid m → IsValid (run_once net order calls m w).1)
        × (m.ready ≡ true → (run_once net order calls m w).1.ready ≡ true)
  unfolding run_once
  run_once_kept m w = elim (Result-cases (calls.list w).0) [
    | inl (nodes, e) ↦
        let m' = relist net order m nodes.items in
        let (valid, ready) = watch_from_kept m' nodes.resource_version (calls.list w).1 in
        rw (e, run_once)
          (
            (λ v. valid (relist-IsValid net order m nodes.items v)),
            (λ h. ready ∙ ready-relist m nodes.items),
          )
    | inr (inl (x, e)) ↦ rw (e, run_once) ((λ v. v), (λ h. h))
    | inr (inr (x, e)) ↦ rw (e, run_once) ((λ v. v), (λ h. h))
  ]

  run_once_ready :
      (m : NodeMap) (w : W) (nodes : NodeList)
      → (calls.list w).0 ≡ ok nodes
      → (run_once net order calls m w).1.ready ≡ true
  unfolding run_once
  run_once_ready m w nodes e =
      rw (e, run_once)
        ((watch_from_kept (relist net order m nodes.items) nodes.resource_version
            (calls.list w).1).1
          ∙ ready-relist m nodes.items)

  after_round :
      (P : NodeMap → Type 0) (x : Exit) (later : Exit × NodeMap × W) (m : NodeMap) (w : W)
      → P m
      → P later.1
      → P (next_round x later m w).1
  unfolding next_round
  after_round P (returned true e) later m w p q = p
  after_round P (returned false e) later m w p q = q
  after_round P (exited s) later m w p q = p
  after_round P waiting later m w p q = p

  run_once_failed :
      (m : NodeMap) (w : W) (x : Error)
      → (calls.list w).0 ≡ err x
      → run_once net order calls m w
        ≡ (returned false (some (wrap "error listing nodes" x)), m, (calls.list w).1)
  unfolding run_once
  run_once_failed m w x e = rw (e, run_once) refl

  still_ready :
      (rounds : ℕ) (m : NodeMap) (w : W)
      → m.ready ≡ true
      → (run_watcher net order calls rounds m w).1.ready ≡ true
  unfolding run_watcher
  still_ready zero m w h = h
  still_ready (suc rounds) m w h =
      let (x, m', w') = run_once net order calls m w in
      let ready = (run_once_kept m w).1 h in
      after_round (λ n. n.ready ≡ true) x _ m' w' ready (still_ready rounds m' w' ready)

  -- The rounds keep the invariant of the node map.
  pub run_watcher-IsValid :
      (rounds : ℕ) (m : NodeMap) (w : W)
      → IsValid m
      → IsValid (run_watcher net order calls rounds m w).1
  unfolding run_watcher
  run_watcher-IsValid zero m w v = v
  run_watcher-IsValid (suc rounds) m w v =
      let (x, m', w') = run_once net order calls m w in
      let valid = (run_once_kept m w).0 v in
      after_round IsValid x _ m' w' valid (run_watcher-IsValid rounds m' w' valid)

  -- Within this many rounds a list call succeeds, where each earlier one fails.
  unfoldable pub lists_within : ℕ → W → Bool
  lists_within zero w = false
  lists_within (suc rounds) w =
      let (r, w') = calls.list w in
      let later = lists_within rounds w' in
      elim r [ ok nodes ↦ true | err x ↦ later | fatal x ↦ false ]

  -- A list call that succeeds, after any number of rounds whose list calls failed, makes the map
  -- ready, and it stays so in all rounds that follow.
  pub run_watcher_ready :
      (rounds : ℕ) (m : NodeMap) (w : W)
      → lists_within rounds w ≡ true
      → is_ready (run_watcher net order calls rounds m w).1 ≡ true
  unfolding run_watcher lists_within is_ready next_round
  run_watcher_ready zero m w h = absurd (ground (arith, h))
  run_watcher_ready (suc rounds) m w h = elim (Result-cases (calls.list w).0) [
    | inr (inr (x, e)) ↦ absurd (ground (arith, e, h))
    | inr (inl (x, e)) ↦
        rw (run_once_failed m w x e)
          (run_watcher_ready rounds m (calls.list w).1 (ground (arith, e, h)))
    | inl (nodes, e) ↦
        let (x, m', w') = run_once net order calls m w in
        let ready = run_once_ready m w nodes e in
        after_round (λ n. n.ready ≡ true) x _ m' w' ready (still_ready rounds m' w' ready)
  ]

  -- While the list call fails, as it does once the context is done, the rounds go on: the loop
  -- does not leave, and the map stays as it is.
  pub run_watcher_down :
      ((w : W) → (x : Error) × ((calls.list w).0 ≡ err x))
      → (rounds : ℕ) (m : NodeMap) (w : W)
      → ((run_watcher net order calls rounds m w).0 ≡ waiting)
        × ((run_watcher net order calls rounds m w).1 ≡ m)
  unfolding run_watcher next_round
  run_watcher_down down zero m w = (refl, refl)
  run_watcher_down down (suc rounds) m w =
      rw (run_once_failed m w (down w).0 (down w).1)
        (run_watcher_down down rounds m (calls.list w).1)

  -- Whatever a valid node map held before, and if Go's `ParseIP` returns sixteen bytes: after a
  -- round whose list and watch calls succeed, the map is ready, and it has a record for each
  -- node of the cluster that the list showed and the signals changed, as that node asks, and
  -- none for any other name.
  pub run_once-Tracks :
      ((s : String) (a : Ip) → net.parse_ip s ≡ some a → length a ≡ 16)
      → (m : NodeMap) (w w' w'' : W) (nodes : NodeList) (signals : List Signal) → IsValid m
      → calls.list w ≡ (ok nodes, w')
      → calls.watch nodes.resource_version w' ≡ (ok signals, w'')
      → Tracks net (cluster_after (cluster_of nodes.items) signals) (run_once net order calls m w).1
        × (is_ready (run_once net order calls m w).1 ≡ true)
  unfolding run_once watch_from is_ready
  run_once-Tracks long m w w' w'' nodes signals v listed watched =
      let start = relist net order m nodes.items in
      let seen : (run_once net order calls m w).1 ≡ (watch_nodes net start signals).1 =
        ground (arith, listed, watched) in
      rw seen (
        watch_nodes-Tracks net long order (cluster_of nodes.items) start signals
            (relist-IsValid net order m nodes.items v)
            (relist-Tracks net long order m nodes.items v),
        (watch_nodes_kept net start signals).1 ∙ ready-relist m nodes.items,
      )
