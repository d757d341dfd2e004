-- ===== src/Netutil/Tests/Policies.antt =====
-- The theorem about `XfrmPolicyTable.Ensure` at two policies.
use networking.Prelude.{ℕ, none, some, List, [], ◌∷◌, ◌++◌, map, In, ok, ◌≡◌, ◌↔◌, refl}
use networking.Net.{IpNet}
use networking.Netlink.{XfrmPolicy, XfrmPolicyCalls}
use networking.Netutil.Xfrm.Policies.{ensure_policies}
use networking.Netutil.Xfrm.Policies.Plan.{Unmatched, Unwanted}
use networking.Netutil.Xfrm.Policies.Changed.{Changed}
use networking.Netutil.Xfrm.Policies.Ensure.{
  Request, add, update, delete, Accepts, ensure_policies_requests,
}

abbrev all_nets : IpNet
all_nets = record { ip = 0 ∷ 0 ∷ 0 ∷ 0 ∷ []; mask = 0 ∷ 0 ∷ 0 ∷ 0 ∷ [] }

abbrev policy : ℕ → XfrmPolicy
policy dir = record {
  dst = some all_nets;
  src = some all_nets;
  proto = 17;
  dst_port = 4500;
  src_port = 0;
  dir = dir;
  priority = 200;
  index = 0;
  mark = none;
  tmpls = [];
}

abbrev held : List XfrmPolicy
held = policy 0 ∷ policy 2 ∷ []

abbrev wanted : List XfrmPolicy
wanted = record (policy 0) { priority = 100 } ∷ policy 1 ∷ []

-- A kernel that records what it is asked for.
abbrev calls : XfrmPolicyCalls (List Request)
calls = record {
  xfrm_policy_list = λ w. (ok held, w);
  xfrm_policy_add = λ p w. (ok tt, w ++ add p ∷ []);
  xfrm_policy_update = λ p w. (ok tt, w ++ update p ∷ []);
  xfrm_policy_del = λ p w. (ok tt, w ++ delete p ∷ []);
  xfrm_policy_flush = λ w. (ok tt, w);
}

abbrev log : List Request → List Request
log w = w

accepts : Accepts log calls held []
accepts = record {
  listed = refl;
  added = λ p w. (w ++ add p ∷ [], refl, refl);
  updated = λ p w. (w ++ update p ∷ [], refl, refl);
  deleted = λ p w. (w ++ delete p ∷ [], refl, refl);
}

-- One policy is updated, one comes, and one goes.
ensure_policies_requests_example :
    (created : List XfrmPolicy) × (changed : List XfrmPolicy) × (removed : List XfrmPolicy)
    × (w' : List Request) × (ensure_policies calls wanted [] ≡ (ok tt, w'))
    × (w' ≡ map add created ++ (map update changed ++ map delete removed))
    × ((p : XfrmPolicy) → In p created ↔ (In p wanted × Unmatched held p))
    × ((p : XfrmPolicy) → In p changed ↔ Changed held wanted p)
    × ((p : XfrmPolicy) → In p removed ↔ (In p held × Unwanted wanted p))
ensure_policies_requests_example = ensure_policies_requests calls log held wanted [] accepts
