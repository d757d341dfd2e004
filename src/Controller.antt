-- ===== src/Controller.antt =====
-- `Controller` of pkg/routing/providercontroller.go. It shares the node map with the watcher, which
-- runs at the same time, so the controller is a machine: it takes one step after another, and
-- calls on the node map may come between two steps.
pub mod Reach
pub mod Safety
pub mod Round
pub mod Condition
mod Tests
use networking.Prelude.{
  ℕ, zero, suc, Bool, true, false, not, ◌&&◌, Option, none, some, List, [], ◌∷◌, String, Exec,
  Result, ok, err, fatal, Error, if◌then◌else◌, is_some,
}
use networking.Net.{IpNet}
use networking.Nodes.Info.{NodeInfo}
use networking.Nodes.Map.{NodeMap, is_ready}

-- What the controller is about to do.
pub data Phase : Type 0 where
  -- the loop that waits for the node map
  await : Phase
  -- the head of the main loop: `ctx.Err()`
  check_context : Phase
  -- `EnsureCIDRs`
  ensure : Phase
  -- `c.cniConfigWriter != nil && c.nodeMap.me != nil`
  check_config : Phase
  -- `WriteCNIConfig(c.nodeMap.me.PodCIDR)`
  write_config : Phase
  -- `c.nodeMap.me != nil`, and then `!c.nodeMap.me.NetworkAvailable`
  check_me check_available : Phase
  -- `setNodeCondition`, for `c.nodeMap.me.Name`
  mark : Phase
  -- `runWatcher` has returned, the process has ended, or a nil pointer was read
  stopped : Error → Phase
  exited : String → Phase
  crashed : Phase

-- What the controller has done to the outside, last first: it has begun a round, the provider has
-- succeeded, the file was written without an error, or it asked to mark a node.
pub data Deed : Type 0 where
  began ensured wrote : Deed
  marked : String → Deed

-- The context, the provider (`Provider`), the writer (`cni.ConfigWriter`), if there is one, and
-- `setNodeCondition`, which patches the status of a node.
pub record Environment (W : Type 0) : Type 0 where
  pub context_err : W → Option Error × W
  pub ensure_cidrs : NodeMap → Exec W Unit
  pub write_cni_config : Option (Option IpNet → Exec W Unit)
  pub set_node_condition : String → Exec W Unit

pub record State (W : Type 0) : Type 0 where
  pub phase : Phase
  pub node_map : NodeMap
  pub world : W
  pub deeds : List Deed

module _ {W : Type 0} where
  -- The steps to another phase, with a deed or without.
  unfoldable pub turn : State W → Phase → W → State W
  turn s phase w = record s { phase = phase; world = w }

  unfoldable pub turn_having : Deed → State W → Phase → W → State W
  turn_having deed s phase w = record s { phase = phase; world = w; deeds = deed ∷ s.deeds }

  -- What `c.nodeMap.me` points at.
  unfoldable pub me_info : State W → Option NodeInfo
  me_info s = elim s.node_map.me [ none ↦ none | some p ↦ some (s.node_map.cells p) ]

  unfoldable pub after_await : State W → State W
  after_await s = turn s (if is_ready s.node_map then check_context else await) s.world

  unfoldable pub after_context : State W → Option Error × W → State W
  after_context s (some x, w) = turn s (stopped x) w
  after_context s (none, w) = turn_having began s ensure w

  unfoldable pub after_ensure : State W → Result {0} Unit × W → State W
  after_ensure s (ok u, w) = turn_having ensured s check_config w
  after_ensure s (err x, w) = turn s check_context w
  after_ensure s (fatal x, w) = turn s (exited x) w

  unfoldable pub after_write : State W → Result {0} Unit × W → State W
  after_write s (ok u, w) = turn_having wrote s check_me w
  after_write s (err x, w) = turn s check_context w
  after_write s (fatal x, w) = turn s (exited x) w

  -- An error is only logged.
  unfoldable pub after_mark : String → State W → Result {0} Unit × W → State W
  after_mark name s (ok u, w) = turn_having (marked name) s check_context w
  after_mark name s (err x, w) = turn_having (marked name) s check_context w
  after_mark name s (fatal x, w) = turn s (exited x) w

  unfoldable pub write_for :
      State W → Option (Option IpNet → Exec W Unit) → Option NodeInfo → State W
  write_for s none me = turn s crashed s.world
  write_for s (some write) none = turn s crashed s.world
  write_for s (some write) (some me) = after_write s (write me.pod_cidr s.world)

  unfoldable pub available_for : State W → Option NodeInfo → State W
  available_for s none = turn s crashed s.world
  available_for s (some me) =
      turn s (if not me.network_available then mark else check_context) s.world

  module _ (e : Environment W) where
    unfoldable pub mark_for : State W → Option NodeInfo → State W
    mark_for s none = turn s crashed s.world
    mark_for s (some me) = after_mark me.name s (e.set_node_condition me.name s.world)

    -- One step of `runWatcher`.
    unfoldable pub step_in : Phase → State W → State W
    step_in await s = after_await s
    step_in check_context s = after_context s (e.context_err s.world)
    step_in ensure s = after_ensure s (e.ensure_cidrs s.node_map s.world)
    step_in check_config s =
        turn s
          (if is_some e.write_cni_config && is_some s.node_map.me then write_config else check_me)
          s.world
    step_in write_config s = write_for s e.write_cni_config (me_info s)
    step_in check_me s =
        turn s (if is_some s.node_map.me then check_available else check_context) s.world
    step_in check_available s = available_for s (me_info s)
    step_in mark s = mark_for s (me_info s)
    step_in (stopped x) s = turn s (stopped x) s.world
    step_in (exited x) s = turn s (exited x) s.world
    step_in crashed s = turn s crashed s.world

    unfoldable pub step : State W → State W
    step s = step_in s.phase s

    -- Steps without a call on the node map between them.
    unfoldable pub steps : ℕ → State W → State W
    steps zero s = s
    steps (suc n) s = steps n (step s)

-- `NewController` and `Run`
abbrev pub start : {W : Type 0} → NodeMap → W → State W
start node_map w = record { phase = await; node_map = node_map; world = w; deeds = [] }
