-- ===== src/Watcher/Tests.antt =====
-- The theorems about pkg/watchers/nodecontroller.go at an API server that refuses the first list
-- and then shows one node and tells of another.
use networking.Prelude.{
  some, String, In, ℕ, true, List, [], ◌∷◌, ok, err, errorf, ◌≡◌, refl, if◌then◌else◌, ◌==◌, nat_eq,
}
use networking.Nodes.Map.{NodeMap, is_ready, mark_ready, snapshot}
use networking.Nodes.Tests.{net, order, node, one, one-IsValid, parse_ip_long}
use networking.Watcher.{
  relist, added, deleted, bookmark, node_object, other_object, Signal, closed, event, waiting,
  NodeList, NodeCalls, run_once, run_watcher,
}
use networking.Watcher.Cluster.{Tracks, cluster_of, cluster_after, relist-IsValid, relist-Tracks}
use networking.Nodes.{Node}
use networking.Nodes.Info.{NodeInfo}
use networking.Nodes.Info.Update.{Reflects}
use networking.Watcher.Snapshot.{snapshot-Tracks}
use networking.Watcher.Loop.{lists_within, run_watcher_ready, run_watcher_down, run_once-Tracks}

abbrev nodes : NodeList
nodes = record { items = node "a" "10.0.0.2" ∷ []; resource_version = "7" }

abbrev signals : List Signal
signals =
    event (record { type_of = bookmark; object = other_object })
    ∷ event (record { type_of = added; object = node_object (node "b" "10.0.0.2") })
    ∷ event (record { type_of = deleted; object = node_object (node "a" "10.0.0.2") })
    ∷ closed
    ∷ []

-- The state counts the list calls.
abbrev pub calls : NodeCalls ℕ
calls = record {
  list = λ w. if w == 0 then (err (errorf "unavailable"), 1) else (ok nodes, 2);
  watch = λ version w. (ok signals, w);
}

abbrev broken : NodeCalls ℕ
broken = record {
  list = λ w. (err (errorf "context canceled"), w);
  watch = λ version w. (ok signals, w);
}

pub soon : lists_within net order calls 2 0 ≡ true
unfolding lists_within
soon = refl

run_watcher_ready_example : is_ready (run_watcher net order calls 2 one 0).1 ≡ true
run_watcher_ready_example = run_watcher_ready net order calls 2 one 0 soon

run_watcher_down_example :
    ((run_watcher net order broken 2 one 0).0 ≡ waiting)
    × ((run_watcher net order broken 2 one 0).1 ≡ one)
run_watcher_down_example =
    run_watcher_down net order broken (λ w. (errorf "context canceled", refl)) 2 one 0

run_once-Tracks_example :
    Tracks net
      (cluster_after (cluster_of (node "a" "10.0.0.2" ∷ [])) signals)
      (run_once net order calls one 1).1
    × (is_ready (run_once net order calls one 1).1 ≡ true)
run_once-Tracks_example =
    run_once-Tracks net order calls parse_ip_long one 1 2 2 nodes signals one-IsValid refl refl

abbrev listed_one : NodeMap
listed_one = relist net order one (node "a" "10.0.0.2" ∷ [])

listed_one_ready : is_ready listed_one ≡ true
unfolding relist mark_ready is_ready
listed_one_ready = refl

snapshot-Tracks_example :
    ((k : String) (src : Node)
      → cluster_of (node "a" "10.0.0.2" ∷ []) k ≡ some src
      → (n : NodeInfo) × In n (snapshot order listed_one).1 × (n.name ≡ k) × Reflects net src n)
    × ((n : NodeInfo)
        → In n (snapshot order listed_one).1
        → (src : Node) × (cluster_of (node "a" "10.0.0.2" ∷ []) n.name ≡ some src)
          × Reflects net src n)
snapshot-Tracks_example =
    snapshot-Tracks net order listed_one
      (relist-IsValid net order one (node "a" "10.0.0.2" ∷ []) one-IsValid)
      (cluster_of (node "a" "10.0.0.2" ∷ []))
      (relist-Tracks net parse_ip_long order one (node "a" "10.0.0.2" ∷ []) one-IsValid)
      listed_one_ready
