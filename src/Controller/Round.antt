-- ===== src/Controller/Round.antt =====
-- How the controller of pkg/routing/providercontroller.go gets on: what one round does, and that
-- it ends.
use networking.Prelude.{
  ℕ, zero, suc, ◌-◌, ◌≤◌, false, Option, none, some, ◌∷◌, String, Exec, Result, ok, err, fatal,
  Error, string_eq, ◌≡◌, ◌≢◌, arith, refl,
}
use networking.Net.{IpNet}
use networking.Nodes.Info.{NodeInfo}
use networking.Controller.{
  Phase, await, check_context, ensure, check_config, write_config, check_me, check_available, mark,
  stopped, exited, crashed, began, ensured, wrote, marked, State, Environment, turn, turn_having,
  me_info, after_context, after_ensure, after_write, after_mark, write_for, mark_for, available_for,
  step_in, step, steps,
}

-- The steps that are left at most, once the context is done.
unfoldable pub rank : Phase → ℕ
rank await = 8
rank ensure = 7
rank check_config = 6
rank write_config = 5
rank check_me = 4
rank check_available = 3
rank mark = 2
rank check_context = 1
rank (stopped x) = 0
rank (exited x) = 0
rank crashed = 0

module _ {W : Type 0} (e : Environment W) where
  module _ (s : State W) where
    rank_ensure : (r : Result {0} Unit × W) → rank (after_ensure s r).phase ≤ 6
    unfolding rank after_ensure turn turn_having
    rank_ensure (ok u, w) = omega arith
    rank_ensure (err x, w) = omega arith
    rank_ensure (fatal x, w) = omega arith

    rank_write : (r : Result {0} Unit × W) → rank (after_write s r).phase ≤ 4
    unfolding rank after_write turn turn_having
    rank_write (ok u, w) = omega arith
    rank_write (err x, w) = omega arith
    rank_write (fatal x, w) = omega arith

    rank_mark : (name : String) (r : Result {0} Unit × W) → rank (after_mark name s r).phase ≤ 1
    unfolding rank after_mark turn turn_having
    rank_mark name (ok u, w) = omega arith
    rank_mark name (err x, w) = omega arith
    rank_mark name (fatal x, w) = omega arith

    rank-write_for :
        (writer : Option (Option IpNet → Exec W Unit)) (me : Option NodeInfo)
        → rank (write_for s writer me).phase ≤ 4
    unfolding rank write_for turn
    rank-write_for none me = omega arith
    rank-write_for (some write) none = omega arith
    rank-write_for (some write) (some me) = rank_write (write me.pod_cidr s.world)

    rank-mark_for : (me : Option NodeInfo) → rank (mark_for e s me).phase ≤ 1
    unfolding rank mark_for turn
    rank-mark_for none = omega arith
    rank-mark_for (some me) = rank_mark me.name (e.set_node_condition me.name s.world)

    rank-available_for : (me : Option NodeInfo) → rank (available_for s me).phase ≤ 2
    unfolding rank available_for turn
    rank-available_for none = omega arith
    rank-available_for (some me) = ground arith

    rank_context :
        (r : Option Error × W) (x : Error) → r.0 ≡ some x → rank (after_context s r).phase ≤ 0
    unfolding rank after_context turn
    rank_context (some y, w) x h = omega arith
    rank_context (none, w) x h = absurd (ground (arith, h))

    rank_step :
        ((w : W) → (x : Error) × ((e.context_err w).0 ≡ some x))
        → (phase : Phase) → rank phase ≤ 7
        → rank (step_in e phase s).phase ≤ rank phase - 1
    unfolding rank step_in turn
    rank_step d await h = absurd (omega (arith, h))
    rank_step d ensure h = rank_ensure (e.ensure_cidrs s.node_map s.world)
    rank_step d check_config h = ground arith
    rank_step d write_config h = rank-write_for e.write_cni_config (me_info s)
    rank_step d check_me h = ground arith
    rank_step d check_available h = rank-available_for (me_info s)
    rank_step d mark h = rank-mark_for (me_info s)
    rank_step d check_context h = rank_context (e.context_err s.world) (d s.world).0 (d s.world).1
    rank_step d (stopped x) h = omega arith
    rank_step d (exited x) h = omega arith
    rank_step d crashed h = omega arith

  rank-steps :
      ((w : W) → (x : Error) × ((e.context_err w).0 ≡ some x))
      → (n : ℕ) (s : State W) → rank s.phase ≤ 7
      → rank (steps e n s).phase ≤ rank s.phase - n
  unfolding steps step
  rank-steps d zero s h = omega arith
  rank-steps d (suc n) s h =
      let first = rank_step s d s.phase h in
      let later = rank-steps d n (step e s) (omega (arith, first, h)) in omega (arith, first, later)

  -- The controller is done: it has returned, or its process has ended.
  unfoldable pub IsOver : Phase → Type 0
  IsOver (stopped x) = Unit
  IsOver (exited x) = Unit
  IsOver crashed = Unit
  IsOver _ = ⊥

  over : (phase : Phase) → rank phase ≤ 0 → IsOver phase
  unfolding rank IsOver
  over await h = absurd (omega (arith, h))
  over ensure h = absurd (omega (arith, h))
  over check_config h = absurd (omega (arith, h))
  over write_config h = absurd (omega (arith, h))
  over check_me h = absurd (omega (arith, h))
  over check_available h = absurd (omega (arith, h))
  over mark h = absurd (omega (arith, h))
  over check_context h = absurd (omega (arith, h))
  over (stopped x) h = tt
  over (exited x) h = tt
  over crashed h = tt

  left_await : (phase : Phase) → phase ≢ await → rank phase ≤ 7
  unfolding rank
  left_await await n = absurd (n refl)
  left_await ensure n = omega arith
  left_await check_config n = omega arith
  left_await write_config n = omega arith
  left_await check_me n = omega arith
  left_await check_available n = omega arith
  left_await mark n = omega arith
  left_await check_context n = omega arith
  left_await (stopped x) n = omega arith
  left_await (exited x) n = omega arith
  left_await crashed n = omega arith

  -- Once the context is done, a controller that no longer waits for the node map returns after at
  -- most seven more steps, if the process does not end before.
  pub steps-IsOver :
      ((w : W) → (x : Error) × ((e.context_err w).0 ≡ some x))
      → (s : State W) → s.phase ≢ await
      → IsOver (steps e 7 s).phase
  steps-IsOver d s n =
      let small = left_await s.phase n in over _ (omega (arith, rank-steps d 7 s small, small))

  -- One round that nothing disturbs: if the context is not done, the provider and the writer
  -- succeed, and the local node is known and not yet marked, then the controller writes the
  -- configuration, marks the node and is back at the head of its loop.
  pub steps_round :
      (s : State W) (p : ℕ) (write : Option IpNet → Exec W Unit) (w1 w2 w3 w4 : W)
      → s.phase ≡ check_context
      → s.node_map.me ≡ some p
      → (s.node_map.cells p).network_available ≡ false
      → e.write_cni_config ≡ some write
      → e.context_err s.world ≡ (none, w1)
      → e.ensure_cidrs s.node_map w1 ≡ (ok tt, w2)
      → write (s.node_map.cells p).pod_cidr w2 ≡ (ok tt, w3)
      → e.set_node_condition (s.node_map.cells p).name w3 ≡ (ok tt, w4)
      → steps e 7 s ≡ record {
        phase = check_context;
        node_map = s.node_map;
        world = w4;
        deeds = marked (s.node_map.cells p).name ∷ wrote ∷ ensured ∷ began ∷ s.deeds;
      }
  unfolding steps step step_in turn turn_having me_info after_context after_ensure after_write
      after_mark write_for mark_for available_for
  steps_round s p write w1 w2 w3 w4 at me unavailable writer live provided wrote_it marked_it =
      ground (arith, at, me, unavailable, writer, live, provided, wrote_it, marked_it)
