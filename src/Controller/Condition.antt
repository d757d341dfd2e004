-- ===== src/Controller/Condition.antt =====
-- `setNodeCondition` of pkg/routing/providercontroller.go, and the condition that `runWatcher` sets
-- with it. The text of a patch (`json.Marshal`), the time, and the request `PatchStatus` of the
-- client come from elsewhere.
use networking.Prelude.{ℕ, String, Exec, Result, ◌>>=◌, lift}

-- `corev1.NodeCondition`. The time of the last heartbeat is nil until it is set.
pub record NodeCondition : Type 0 where
  pub type_of : String
  pub status : String
  pub reason : String
  pub message : String
  pub last_transition_time : ℕ
  pub last_heartbeat_time : ℕ

-- The condition that says that the node has its routes.
unfoldable pub network_available : ℕ → NodeCondition
network_available current_time = record {
  type_of = "NetworkUnavailable";
  status = "False";
  reason = "RouteCreated";
  message = "kope.io network controller initialized node routes";
  last_transition_time = current_time;
  last_heartbeat_time = 0;
}

-- `marshal` is the text of a patch of the status with this condition, `patch_status` is given the
-- name of the node and that text.
module _ {W : Type 0} (now : W → ℕ × W) (marshal : NodeCondition → Result String)
    (patch_status : String → String → Exec W Unit) where
  -- `setNodeCondition`
  unfoldable pub set_node_condition : String → NodeCondition → Exec W Unit
  set_node_condition node condition w =
      let (time, w') = now w in
      (lift (marshal (record condition { last_heartbeat_time = time })) >>= λ patch.
      patch_status node patch)
        w'

  -- What `runWatcher` calls for the name of the local node.
  unfoldable pub mark_available : String → Exec W Unit
  mark_available node w =
      let (current_time, w') = now w in set_node_condition node (network_available current_time) w'
