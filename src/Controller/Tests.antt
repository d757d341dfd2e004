-- ===== src/Controller/Tests.antt =====
-- The theorems about pkg/routing/providercontroller.go with a provider and a writer that count
-- their calls.
use networking.Prelude.{
  ℕ, ◌+◌, true, Option, none, some, [], ◌∷◌, Exec, ok, errorf, ◌≡◌, ◌≢◌, refl, arith, string_eq,
}
use networking.Net.{IpNet}
use networking.Nodes.Info.{blank}
use networking.Nodes.Map.{NodeMap, is_ready}
use networking.Nodes.Tests.{net, order, start, is_a}
use networking.Controller
use networking.Controller.{
  Phase, await, check_context, ensure, began, ensured, wrote, marked, State, Environment, step,
  steps,
}
use networking.Controller.Reach.{here, onward, steps_on, changes}
use networking.Controller.Safety.{in_order, Reach-in_order}
use networking.Controller.Round.{IsOver, steps-IsOver}

abbrev write_config : Option IpNet → Exec ℕ Unit
write_config pod_cidr w = (ok tt, w + 1)

abbrev environment : Environment ℕ
environment = record {
  context_err = λ w. (none, w);
  ensure_cidrs = λ m w. (ok tt, w + 10);
  write_cni_config = some write_config;
  set_node_condition = λ name w. (ok tt, w + 100);
}

abbrev cancelled : Environment ℕ
cancelled = record environment { context_err = λ w. (some (errorf "context canceled"), w) }

-- The local node is known and not yet marked.
abbrev known_me : NodeMap
known_me = record {
  me_predicate = is_a;
  ready = true;
  nodes = ("a", 0) ∷ [];
  version = 1;
  me = some 0;
  cells = λ p. blank "a";
  next = 1;
}

abbrev begins : State ℕ
begins = record { phase = check_context; node_map = known_me; world = 0; deeds = [] }

Reach-in_order_example :
    let s = step environment (record (Controller.start start 0) { world = 5 }) in
    (s.phase ≢ Phase.crashed)
    × ((in_order s.deeds ≡ true) × (s.deeds ≢ [] → is_ready s.node_map ≡ true))
Reach-in_order_example =
    Reach-in_order environment net order start 0
      (step environment (record (Controller.start start 0) { world = 5 }))
      (onward _ _ (onward _ _ here (changes _ 5)) (steps_on _))

steps-IsOver_example : IsOver cancelled (steps cancelled 7 (record begins { phase = ensure })).phase
steps-IsOver_example =
    steps-IsOver cancelled (λ w. (errorf "context canceled", refl))
      (record begins { phase = ensure }) (λ h. ground (arith, h))
