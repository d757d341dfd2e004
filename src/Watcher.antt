-- ===== src/Watcher.antt =====
-- pkg/watchers/nodecontroller.go: the watch of the nodes of the cluster. Of the client of the API
-- server the code takes a list and a channel of events; what `select` finds in the channel, or
-- finds instead of it, is an explicit sequence.
pub mod Cluster
pub mod Loop
pub mod Snapshot
pub mod Tests
use networking.Prelude.{
  ℕ, zero, suc, Bool, true, false, Option, none, some, List, [], ◌∷◌, String, Exec, Result, ok, err,
  fatal, Error, errorf, wrap, string_eq,
}
use networking.Prelude.Dict.{RangeOrder}
use networking.Nodes.{Node, Parsers}
use networking.Nodes.Map.{NodeMap, mark_ready, remove_node, update_node, replace_all_nodes}

-- `watch.EventType`
pub data EventType : Type 0 where
  added modified deleted bookmark error_event : EventType
  other_event : String → EventType

-- `Object` of an event, by the type assertion that the code makes.
pub data EventObject : Type 0 where
  node_object : Node → EventObject
  other_object : EventObject

pub record Event : Type 0 where
  pub type_of : EventType
  pub object : EventObject

-- What a `select` finds: the context is done, the channel closed, or an event.
pub data Signal : Type 0 where
  done : Error → Signal
  closed : Signal
  event : Event → Signal

-- `corev1.NodeList`
pub record NodeList : Type 0 where
  pub items : List Node
  pub resource_version : String

-- `Nodes().List` and `Nodes().Watch` of a client, the latter with the signals that follow.
pub record NodeCalls (W : Type 0) : Type 0 where
  pub list : Exec W NodeList
  pub watch : String → Exec W (List Signal)

-- What `runOnce` returns; `exited` is `klog.Fatalf`, and `waiting` is the `select` of a watch that
-- has no more signals.
pub data Exit : Type 0 where
  returned : Bool → Option Error → Exit
  exited : String → Exit
  waiting : Exit

-- What is done with one signal: the loop leaves, or goes on.
pub data Step : Type 0 where
  leave : Exit → Step
  go_on : NodeMap → Step

module _ (net : Parsers) where
  -- The `switch` at the end of the loop's body.
  unfoldable pub node_event : NodeMap → EventType → Node → Step
  node_event m added node = go_on (update_node net m node).0
  node_event m modified node = go_on (update_node net m node).0
  node_event m deleted node = go_on (remove_node m node.name)
  node_event m bookmark node = leave (exited "unexpected type of watch event")
  node_event m error_event node = leave (exited "unexpected type of watch event")
  node_event m (other_event t) node = leave (exited "unexpected type of watch event")

  unfoldable pub object_event : NodeMap → EventType → EventObject → Step
  object_event m t other_object =
      leave (returned false (some (errorf "object had unexpected type")))
  object_event m t (node_object node) = node_event m t node

  unfoldable pub handle : NodeMap → Signal → Step
  handle m (done x) = leave (returned true (some x))
  handle m closed = leave (returned false none)
  handle m (event e) = elim e.type_of [
    | error_event ↦ leave (returned false (some (errorf "error from watch")))
    | bookmark ↦ go_on m
    | added ↦ object_event m added e.object
    | modified ↦ object_event m modified e.object
    | deleted ↦ object_event m deleted e.object
    | other_event t ↦ object_event m (other_event t) e.object
  ]

  -- The loop over the channel.
  unfoldable pub watch_nodes : NodeMap → List Signal → Exit × NodeMap
  watch_nodes m [] = (waiting, m)
  watch_nodes m (s ∷ rest) = elim (handle m s) [ leave x ↦ (x, m) | go_on m' ↦ watch_nodes m' rest ]

-- `ReplaceAllNodes` and `MarkReady`
unfoldable pub relist : Parsers → RangeOrder String ℕ → NodeMap → List Node → NodeMap
relist net order m items = mark_ready (replace_all_nodes net order m items).0

-- `if stop { return }`, or the rounds that follow.
unfoldable pub next_round :
    {W : Type 0} → Exit → Exit × NodeMap × W → NodeMap → W → Exit × NodeMap × W
next_round (returned true e) later m w = (returned true e, m, w)
next_round (returned false e) later m w = later
next_round (exited s) later m w = (exited s, m, w)
next_round waiting later m w = (waiting, m, w)

module _ {W : Type 0} (net : Parsers) (order : RangeOrder String ℕ) (calls : NodeCalls W) where
  -- After the list: the watch from its version on.
  unfoldable pub watch_from : NodeMap → String → W → Exit × NodeMap × W
  watch_from m resource_version w =
      let (r, w') = calls.watch resource_version w in
      elim r [
        | err x ↦ (returned false (some (wrap "error watching nodes" x)), m, w')
        | fatal x ↦ (exited x, m, w')
        | ok signals ↦ let (x, m') = watch_nodes net m signals in (x, m', w')
      ]

  -- `runOnce`
  unfoldable pub run_once : NodeMap → W → Exit × NodeMap × W
  run_once m w =
      let (r, w') = calls.list w in
      elim r [
        | err x ↦ (returned false (some (wrap "error listing nodes" x)), m, w')
        | fatal x ↦ (exited x, m, w')
        | ok nodes ↦ watch_from (relist net order m nodes.items) nodes.resource_version w'
      ]

  -- `runWatcher`, for as many rounds as the number; `waiting` also stands for a round to come.
  unfoldable pub run_watcher : ℕ → NodeMap → W → Exit × NodeMap × W
  run_watcher zero m w = (waiting, m, w)
  run_watcher (suc rounds) m w =
      let (x, m', w') = run_once m w in
      let later = run_watcher rounds m' w' in next_round x later m' w'
