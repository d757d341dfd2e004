-- ===== src/Watcher/Cluster.antt =====
-- What the watch of pkg/watchers/nodecontroller.go promises: the node map follows the nodes of the
-- cluster.
use networking.Prelude.{
  ℕ, true, false, Option, none, some, List, [], ◌∷◌, String, if◌then◌else◌, ◌==◌, nat_eq, string_eq,
  ◌≡◌, arith, refl, inl, inr, length, Bool-cases,
}
use networking.Prelude.Dict.{RangeOrder}
use networking.Net.{Ip}
use networking.Nodes.{Node, Parsers}
use networking.Nodes.Info.{NodeInfo}
use networking.Nodes.Info.Update.{Reflects, update-Reflects}
use networking.Nodes.Map.{NodeMap, mark_ready, remove_node, update_node, replace_all_nodes}
use networking.Nodes.Map.Invariant.{
  IsValid, call-IsValid, update_node-IsValid, remove_node-IsValid, replaces, marks_ready, call,
}
use networking.Nodes.Map.View.{view, view-remove_node, view-update_node}
use networking.Nodes.Map.Replace.{listed, brought_up, view-replace_all_nodes}
use networking.Watcher.{
  Exit, EventType, added, modified, deleted, bookmark, error_event, other_event, EventObject,
  node_object, other_object, Signal, done, closed, event, Step, leave, go_on, handle, object_event,
  node_event, watch_nodes, relist,
}

-- The nodes of a cluster, by their names.
abbrev pub Cluster : Type 0
Cluster = String → Option Node

-- The node of a name after the nodes of a list, of which the last one of the name counts.
unfoldable pub last_of : List Node → String → Option Node → Option Node
last_of [] k o = o
last_of (n ∷ rest) k o = last_of rest k (if n.name == k then some n else o)

-- The cluster that a list shows.
abbrev pub cluster_of : List Node → Cluster
cluster_of nodes k = last_of nodes k none

-- What a signal tells of the cluster: a node that is there, one that is gone, nothing, or that no
-- more is heard of it.
pub data Tidings : Type 0 where
  there gone : Node → Tidings
  nothing silence : Tidings

unfoldable pub told : EventType → EventObject → Tidings
told bookmark object = nothing
told error_event object = silence
told (other_event t) object = silence
told added other_object = silence
told modified other_object = silence
told deleted other_object = silence
told added (node_object n) = there n
told modified (node_object n) = there n
told deleted (node_object n) = gone n

unfoldable pub tidings : Signal → Tidings
tidings (done x) = silence
tidings closed = silence
tidings (event e) = told e.type_of e.object

unfoldable pub cluster_with : Node → Cluster → Cluster
cluster_with node c k = if node.name == k then some node else c k

unfoldable pub cluster_without : Node → Cluster → Cluster
cluster_without node c k = if node.name == k then none else c k

-- The cluster after a sequence of signals, up to the first that is the last to be heard.
unfoldable pub cluster_after : Cluster → List Signal → Cluster
cluster_after c [] = c
cluster_after c (s ∷ rest) = elim (tidings s) [
  | there n ↦ cluster_after (cluster_with n c) rest
  | gone n ↦ cluster_after (cluster_without n c) rest
  | nothing ↦ cluster_after c rest
  | silence ↦ c
]

-- A record for each node, which reflects it, and for no other name.
abbrev pub Follows : Parsers → Option Node → Option NodeInfo → Type 0
Follows net none none = Unit
Follows net (some src) (some n) = Reflects net src n
Follows net none (some n) = ⊥
Follows net (some src) none = ⊥

abbrev pub Tracks : Parsers → Cluster → NodeMap → Type 0
Tracks net c m = (k : String) → Follows net (c k) (view m k)

-- The two case splits of the loops, once their scrutinee is known.
heard : Cluster → List Signal → Tidings → Cluster
heard c rest t = elim t [
  | there n ↦ cluster_after (cluster_with n c) rest
  | gone n ↦ cluster_after (cluster_without n c) rest
  | nothing ↦ cluster_after c rest
  | silence ↦ c
]

unfoldable pub taken : Parsers → NodeMap → List Signal → Step → Exit × NodeMap
taken net m rest s = elim s [ leave x ↦ (x, m) | go_on m' ↦ watch_nodes net m' rest ]

module _ (net : Parsers) (order : RangeOrder String ℕ) where
  pub relist-IsValid :
      (m : NodeMap) (items : List Node) → IsValid m → IsValid (relist net order m items)
  unfolding relist call
  relist-IsValid m items v =
      call-IsValid net order _ marks_ready (call-IsValid net order m (replaces items) v)

module _ (net : Parsers)
    (parse_ip_long : (s : String) (a : Ip) → net.parse_ip s ≡ some a → length a ≡ 16)
    (order : RangeOrder String ℕ) where
  update_node-Tracks :
      (c : Cluster) (m : NodeMap) (src : Node)
      → IsValid m
      → Tracks net c m
      → Tracks net (cluster_with src c) (update_node net m src).0
  unfolding cluster_with
  update_node-Tracks c m src v t k =
      rw (view-update_node net m src k v) (elim (Bool-cases (src.name == k)) [
        | inl e ↦ rw e (update-Reflects net src parse_ip_long _)
        | inr e ↦ rw e (t k)
      ])

  remove_node-Tracks :
      (c : Cluster) (m : NodeMap) (src : Node)
      → Tracks net c m
      → Tracks net (cluster_without src c) (remove_node m src.name)
  unfolding cluster_without
  remove_node-Tracks c m src t k =
      rw (view-remove_node m src.name k)
        (elim (Bool-cases (src.name == k)) [ inl e ↦ rw e tt | inr e ↦ rw e (t k) ])

  -- A list that names a node brings its record up to date with the last one of the name.
  brought_up-Follows :
      (k : String) (srcs : List Node) (o : Option Node) (n : Option NodeInfo)
      → Follows net o n
      → Follows net (last_of srcs k o) (brought_up net k srcs n)
  unfolding last_of brought_up
  brought_up-Follows k [] o n f = f
  brought_up-Follows k (src ∷ rest) o n f =
      brought_up-Follows k rest _ _ (elim (Bool-cases (src.name == k)) [
        | inl e ↦ rw e (update-Reflects net src parse_ip_long _)
        | inr e ↦ rw e f
      ])

  brought_up-listed :
      (k : String) (srcs : List Node) (o : Option Node) (n : Option NodeInfo)
      → listed k srcs ≡ true
      → Follows net (last_of srcs k o) (brought_up net k srcs n)
  unfolding last_of brought_up listed
  brought_up-listed k [] o n h = absurd (ground (arith, h))
  brought_up-listed k (src ∷ rest) o n h = elim (Bool-cases (src.name == k)) [
    | inl e ↦ rw e (brought_up-Follows k rest _ _ (update-Reflects net src parse_ip_long _))
    | inr e ↦ rw e (brought_up-listed k rest _ _ (ground (arith, e, h)))
  ]

  last_of_unlisted :
      (k : String) (srcs : List Node) (o : Option Node)
      → listed k srcs ≡ false
      → last_of srcs k o ≡ o
  unfolding last_of listed
  last_of_unlisted k [] o h = refl
  last_of_unlisted k (src ∷ rest) o h = ground (arith, last_of_unlisted k rest o)

  view-mark_ready : (m : NodeMap) (k : String) → view (mark_ready m) k ≡ view m k
  unfolding view mark_ready
  view-mark_ready m k = refl

  -- Whatever the map held, after a list it holds the nodes of the list.
  pub relist-Tracks :
      (m : NodeMap) (items : List Node)
      → IsValid m
      → Tracks net (cluster_of items) (relist net order m items)
  unfolding relist
  relist-Tracks m items v k =
      rw
        (
          view-mark_ready (replace_all_nodes net order m items).0 k,
          view-replace_all_nodes net order m items k v,
        )
        (elim (Bool-cases (listed k items)) [
          | inl e ↦ rw e (brought_up-listed k items none (view m k) e)
          | inr e ↦ rw (e, last_of_unlisted k items none e) tt
        ])

  -- What a signal does to the map is what it tells of the cluster.
  Heard : Cluster → NodeMap → Tidings → Step → Type 0
  Heard c m (there n) (go_on m') = Tracks net (cluster_with n c) m' × IsValid m'
  Heard c m (gone n) (go_on m') = Tracks net (cluster_without n c) m' × IsValid m'
  Heard c m nothing (go_on m') = Tracks net c m' × IsValid m'
  Heard c m silence (leave x) = Unit
  Heard c m _ _ = ⊥

  event-Heard :
      (c : Cluster) (m : NodeMap) (type_of : EventType) (object : EventObject)
      → IsValid m
      → Tracks net c m
      → Heard c m
          (told type_of object)
          (handle net m (event (record { type_of = type_of; object = object })))
  unfolding Heard told handle object_event node_event
  event-Heard c m bookmark object v t = (t, v)
  event-Heard c m error_event object v t = tt
  event-Heard c m (other_event x) other_object v t = tt
  event-Heard c m (other_event x) (node_object n) v t = tt
  event-Heard c m added other_object v t = tt
  event-Heard c m modified other_object v t = tt
  event-Heard c m deleted other_object v t = tt
  event-Heard c m added (node_object n) v t =
      (update_node-Tracks c m n v t, update_node-IsValid net m n v)
  event-Heard c m modified (node_object n) v t =
      (update_node-Tracks c m n v t, update_node-IsValid net m n v)
  event-Heard c m deleted (node_object n) v t =
      (remove_node-Tracks c m n t, remove_node-IsValid m n.name v)

  handle-Heard :
      (c : Cluster) (m : NodeMap) (s : Signal)
      → IsValid m
      → Tracks net c m
      → Heard c m (tidings s) (handle net m s)
  unfolding Heard tidings handle
  handle-Heard c m (done x) v t = tt
  handle-Heard c m closed v t = tt
  handle-Heard c m (event e) v t = event-Heard c m e.type_of e.object v t

  -- The loop leaves exactly when no more is heard, and goes on with a map that follows.
  onward :
      (c : Cluster) (m : NodeMap) (rest : List Signal) (t : Tidings) (s : Step)
      → Heard c m t s
      → Tracks net c m
      → ((d : Cluster) (n : NodeMap)
          → IsValid n
          → Tracks net d n
          → Tracks net (cluster_after d rest) (watch_nodes net n rest).1)
      → Tracks net (heard c rest t) (taken net m rest s).1
  unfolding Heard heard taken
  onward c m rest (there n) (go_on m') h t ih = ih _ m' h.1 h.0
  onward c m rest (gone n) (go_on m') h t ih = ih _ m' h.1 h.0
  onward c m rest nothing (go_on m') h t ih = ih _ m' h.1 h.0
  onward c m rest silence (leave x) h t ih = t
  onward c m rest (there n) (leave x) h t ih = absurd h
  onward c m rest (gone n) (leave x) h t ih = absurd h
  onward c m rest nothing (leave x) h t ih = absurd h
  onward c m rest silence (go_on m') h t ih = absurd h

  -- The view of the map follows the cluster through every signal that is handled.
  pub watch_nodes-Tracks :
      (c : Cluster) (m : NodeMap) (signals : List Signal)
      → IsValid m
      → Tracks net c m
      → Tracks net (cluster_after c signals) (watch_nodes net m signals).1
  unfolding cluster_after watch_nodes heard taken
  watch_nodes-Tracks c m [] v t = t
  watch_nodes-Tracks c m (s ∷ rest) v t =
      onward c m rest (tidings s) (handle net m s) (handle-Heard c m s v t) t
        (λ d n. watch_nodes-Tracks d n rest)
