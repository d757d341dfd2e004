-- ===== src/Controller/Safety.antt =====
-- What holds whatever runs between the steps of the controller of
-- pkg/routing/providercontroller.go.
use networking.Prelude.{
  ℕ, Bool, true, false, not, ◌&&◌, Option, none, some, List, [], ◌∷◌, String, Exec, Result, ok, err,
  fatal, Error, if◌then◌else◌, is_some, string_eq, ◌≡◌, ◌≢◌, arith, refl, subst, Bool-cases,
  Option-cases, inl, inr,
}
use networking.Prelude.Dict.{RangeOrder}
use networking.Net.{IpNet}
use networking.Nodes.{Parsers}
use networking.Nodes.Info.{NodeInfo}
use networking.Nodes.Map.{NodeMap, is_ready}
use networking.Controller.{
  Phase, await, check_context, ensure, check_config, write_config, check_me, check_available, mark,
  stopped, exited, crashed, Deed, began, ensured, wrote, marked, State, Environment, turn,
  turn_having, me_info, after_await, after_context, after_ensure, after_write, after_mark,
  write_for, mark_for, available_for, step_in, step, start,
}
use networking.Controller.Reach.{
  Move, steps_on, calls, changes, Reach, here, onward, Keeps, call-Keeps,
}

-- In the round that runs, nothing was done, or the provider has succeeded.
unfoldable pub just_began : List Deed → Bool
just_began [] = false
just_began (began ∷ d) = true
just_began (ensured ∷ d) = false
just_began (wrote ∷ d) = false
just_began (marked n ∷ d) = false

unfoldable pub has_ensured : List Deed → Bool
has_ensured [] = false
has_ensured (began ∷ d) = false
has_ensured (ensured ∷ d) = true
has_ensured (wrote ∷ d) = has_ensured d
has_ensured (marked n ∷ d) = has_ensured d

-- In every round the provider comes first, once, and a file is written and a node marked only after
-- it has succeeded.
unfoldable pub in_order : List Deed → Bool
in_order [] = true
in_order (began ∷ d) = in_order d
in_order (ensured ∷ d) = just_began d && in_order d
in_order (wrote ∷ d) = has_ensured d && in_order d
in_order (marked n ∷ d) = has_ensured d && in_order d

-- What each phase relies on.
unfoldable pub Fits : {W : Type 0} → Environment W → Phase → NodeMap → List Deed → Type 0
Fits e await m d = d ≡ []
Fits e check_context m d = m.ready ≡ true
Fits e ensure m d = (m.ready ≡ true) × (just_began d ≡ true)
Fits e check_config m d = (m.ready ≡ true) × (has_ensured d ≡ true)
Fits e write_config m d =
    ((m.ready ≡ true) × (has_ensured d ≡ true))
    × ((is_some m.me ≡ true) × (is_some e.write_cni_config ≡ true))
Fits e check_me m d = (m.ready ≡ true) × (has_ensured d ≡ true)
Fits e check_available m d = ((m.ready ≡ true) × (has_ensured d ≡ true)) × (is_some m.me ≡ true)
Fits e mark m d = ((m.ready ≡ true) × (has_ensured d ≡ true)) × (is_some m.me ≡ true)
Fits e (stopped x) m d = m.ready ≡ true
Fits e (exited x) m d = m.ready ≡ true
Fits e crashed m d = ⊥

unfoldable pub Sound : {W : Type 0} → Environment W → State W → Type 0
Sound e s = (in_order s.deeds ≡ true) × Fits e s.phase s.node_map s.deeds

module _ {W : Type 0} (e : Environment W) where
  Fits-Keeps :
      (phase : Phase) (m n : NodeMap) (d : List Deed)
      → Keeps m n
      → Fits e phase m d
      → Fits e phase n d
  unfolding Fits Keeps
  Fits-Keeps await m n d k f = f
  Fits-Keeps check_context m n d k f = k.0 f
  Fits-Keeps ensure m n d k f = (k.0 f.0, f.1)
  Fits-Keeps check_config m n d k f = (k.0 f.0, f.1)
  Fits-Keeps write_config m n d k f = ((k.0 f.0.0, f.0.1), (k.1 f.1.0, f.1.1))
  Fits-Keeps check_me m n d k f = (k.0 f.0, f.1)
  Fits-Keeps check_available m n d k f = ((k.0 f.0.0, f.0.1), k.1 f.1)
  Fits-Keeps mark m n d k f = ((k.0 f.0.0, f.0.1), k.1 f.1)
  Fits-Keeps (stopped x) m n d k f = k.0 f
  Fits-Keeps (exited x) m n d k f = k.0 f
  Fits-Keeps crashed m n d k f = f

  module _ (s : State W) (o : in_order s.deeds ≡ true) where
    context-Sound :
        (r : Option Error × W)
        → Fits e check_context s.node_map s.deeds
        → Sound e (after_context s r)
    unfolding Sound Fits after_context turn turn_having just_began in_order
    context-Sound (some x, w) f = (o, f)
    context-Sound (none, w) f = (o, (f, refl))

    ensure-Sound :
        (r : Result {0} Unit × W) → Fits e ensure s.node_map s.deeds → Sound e (after_ensure s r)
    unfolding Sound Fits after_ensure turn turn_having has_ensured in_order
    ensure-Sound (ok u, w) f = (ground (arith, o, f.1), (f.0, refl))
    ensure-Sound (err x, w) f = (o, f.0)
    ensure-Sound (fatal x, w) f = (o, f.0)

    write-Sound :
        (r : Result {0} Unit × W) → Fits e check_me s.node_map s.deeds → Sound e (after_write s r)
    unfolding Sound Fits after_write turn turn_having has_ensured in_order
    write-Sound (ok u, w) f = (ground (arith, o, f.1), f)
    write-Sound (err x, w) f = (o, f.0)
    write-Sound (fatal x, w) f = (o, f.0)

    mark-Sound :
        (name : String) (r : Result {0} Unit × W)
        → Fits e check_me s.node_map s.deeds
        → Sound e (after_mark name s r)
    unfolding Sound Fits after_mark turn turn_having in_order
    mark-Sound name (ok u, w) f = (ground (arith, o, f.1), f.0)
    mark-Sound name (err x, w) f = (ground (arith, o, f.1), f.0)
    mark-Sound name (fatal x, w) f = (o, f.0)

    turned : (phase : Phase) (w : W) → Fits e phase s.node_map s.deeds → Sound e (turn s phase w)
    unfolding Sound turn
    turned phase w f = (o, f)

    -- A branch on a test that its target may rely on.
    turned_if :
        (b : Bool) (there other : Phase)
        → (b ≡ true → Fits e there s.node_map s.deeds)
        → (b ≡ false → Fits e other s.node_map s.deeds)
        → Sound e (turn s (if b then there else other) s.world)
    turned_if b there other f g = elim (Bool-cases b) [
      | inl h ↦ rw h (turned there s.world (f h))
      | inr h ↦ rw h (turned other s.world (g h))
    ]

    me_known : is_some s.node_map.me ≡ true → (n : NodeInfo) × (me_info s ≡ some n)
    unfolding me_info
    me_known h = elim (Option-cases s.node_map.me) [
      | inl h' ↦ absurd (ground (arith, h, h'))
      | inr (p, h') ↦ (s.node_map.cells p, rw h' refl)
    ]

    write_for-Sound :
        (writer : Option (Option IpNet → Exec W Unit)) (me : NodeInfo)
        → is_some writer ≡ true
        → Fits e check_me s.node_map s.deeds
        → Sound e (write_for s writer (some me))
    unfolding write_for
    write_for-Sound none me h f = absurd (ground (arith, h))
    write_for-Sound (some write) me h f = write-Sound (write me.pod_cidr s.world) f

    step_in-Sound : (phase : Phase) → Fits e phase s.node_map s.deeds → Sound e (step_in e phase s)
    unfolding step_in Fits after_await is_ready available_for mark_for
    step_in-Sound await f = turned_if s.node_map.ready check_context await (λ h. h) (λ h. f)
    step_in-Sound check_context f = context-Sound (e.context_err s.world) f
    step_in-Sound ensure f = ensure-Sound (e.ensure_cidrs s.node_map s.world) f
    step_in-Sound check_config f =
        turned_if (is_some e.write_cni_config && is_some s.node_map.me) write_config check_me
          (λ h. (f, ground (arith, h))) (λ h. f)
    step_in-Sound write_config f =
        let (me, known) = me_known f.1.0 in
        rw known (write_for-Sound e.write_cni_config me f.1.1 f.0)
    step_in-Sound check_me f =
        turned_if (is_some s.node_map.me) check_available check_context (λ h. (f, h)) (λ h. f.0)
    step_in-Sound check_available f =
        let (me, known) = me_known f.1 in
        rw known (turned_if (not me.network_available) mark check_context (λ h. f) (λ h. f.0.0))
    step_in-Sound mark f =
        let (me, known) = me_known f.1 in
        rw known (mark-Sound me.name (e.set_node_condition me.name s.world) f.0)
    step_in-Sound (stopped x) f = turned (stopped x) s.world f
    step_in-Sound (exited x) f = turned (exited x) s.world f
    step_in-Sound crashed f = absurd f

  step-Sound : (s : State W) → Sound e s → Sound e (step e s)
  unfolding step Sound
  step-Sound s h = step_in-Sound s h.0 s.phase h.1

  module _ (net : Parsers) (order : RangeOrder String ℕ) where
    Move-Sound : (s t : State W) → Move net order e s t → Sound e s → Sound e t
    unfolding Sound
    Move-Sound s t (steps_on _) h = step-Sound s h
    Move-Sound s t (calls _ c) h =
        (h.0, Fits-Keeps s.phase s.node_map _ s.deeds (call-Keeps net order s.node_map c) h.1)
    Move-Sound s t (changes _ w) h = h

    Reach-Sound : (s t : State W) → Reach net order e s t → Sound e s → Sound e t
    Reach-Sound s t here h = h
    Reach-Sound s t (onward u _ r m) h = Move-Sound u t m (Reach-Sound s u r h)

    began_ready :
        (phase : Phase) (m : NodeMap) (d : List Deed) → Fits e phase m d → d ≢ [] → m.ready ≡ true
    unfolding Fits
    began_ready await m d f n = absurd (n f)
    began_ready check_context m d f n = f
    began_ready ensure m d f n = f.0
    began_ready check_config m d f n = f.0
    began_ready write_config m d f n = f.0.0
    began_ready check_me m d f n = f.0
    began_ready check_available m d f n = f.0.0
    began_ready mark m d f n = f.0.0
    began_ready (stopped x) m d f n = f
    began_ready (exited x) m d f n = f
    began_ready crashed m d f n = absurd f

    crashed-not : (phase : Phase) (m : NodeMap) (d : List Deed) → Fits e phase m d → phase ≢ crashed
    unfolding Fits
    crashed-not phase m d f h = subst (λ p. Fits e p m d) h f

    -- Whatever calls on the node map and changes of the world come between the steps of a
    -- controller that starts: it never reads a nil pointer; in every round the provider comes
    -- first, and the configuration is written and the node marked only after the provider has
    -- succeeded in that round; and no round begins before the node map is ready.
    pub Reach-in_order :
        (m : NodeMap) (w : W) (s : State W)
        → Reach net order e (start m w) s
        → (s.phase ≢ crashed)
          × ((in_order s.deeds ≡ true) × (s.deeds ≢ [] → is_ready s.node_map ≡ true))
    unfolding is_ready Sound Fits in_order
    Reach-in_order m w s r =
        let sound = Reach-Sound (start m w) s r (refl, refl) in
        (
          crashed-not s.phase s.node_map s.deeds sound.1,
          (sound.0, began_ready s.phase s.node_map s.deeds sound.1),
        )
