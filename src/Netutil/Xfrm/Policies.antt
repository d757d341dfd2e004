-- ===== src/Netutil/Xfrm/Policies.antt =====
-- `XfrmPolicyTable` of pkg/routing/netutil/xfrm_policy_table.go.
pub mod Plan
pub mod Changed
pub mod Ensure
use networking.Prelude.{
  Bool, false, not, ◌||◌, Option, none, some, List, [], ◌∷◌, Exec, ◌>>=◌, ◌>>◌, context, for_each,
  if◌then◌else◌,
}
use networking.Netlink.{XfrmPolicy, XfrmPolicyCalls}
use networking.Netutil.Xfrm.{xfrm_policy_equal, xfrm_policy_matches}

-- The inner loop: the last policy that matches, starting from `a`.
unfoldable pub last_match : XfrmPolicy → Option XfrmPolicy → List XfrmPolicy → Option XfrmPolicy
last_match e a [] = a
last_match e a (p ∷ rest) =
    if xfrm_policy_matches p e then last_match e (some p) rest else last_match e a rest

-- `actualMatched[i]`, once the loop over `expected` is done.
unfoldable pub is_matched : List XfrmPolicy → XfrmPolicy → Bool
is_matched [] p = false
is_matched (e ∷ rest) p = xfrm_policy_matches p e || is_matched rest p

unfoldable pub policies_to_create : List XfrmPolicy → List XfrmPolicy → List XfrmPolicy
policies_to_create actual [] = []
policies_to_create actual (e ∷ rest) =
    let others = policies_to_create actual rest in
    elim (last_match e none actual) [ none ↦ e ∷ others | some a ↦ others ]

-- The code gives the expected policy the index of the one that is there (`e.Index = a.Index`).
unfoldable pub policies_to_update : List XfrmPolicy → List XfrmPolicy → List XfrmPolicy
policies_to_update actual [] = []
policies_to_update actual (e ∷ rest) =
    let others = policies_to_update actual rest in
    elim (last_match e none actual) [
      | none ↦ others
      | some a ↦
          if not (xfrm_policy_equal a (record e { index = a.index }))
          then (record e { index = a.index }) ∷ others
          else others
    ]

unfoldable pub policies_to_remove : List XfrmPolicy → List XfrmPolicy → List XfrmPolicy
policies_to_remove expected [] = []
policies_to_remove expected (p ∷ rest) =
    let others = policies_to_remove expected rest in
    if is_matched expected p then others else p ∷ others

module _ {W : Type 0} (calls : XfrmPolicyCalls W) where
  open calls use {
    xfrm_policy_list, xfrm_policy_add, xfrm_policy_update, xfrm_policy_del, xfrm_policy_flush,
  }

  -- `Flush`
  unfoldable pub flush_policies : Exec W Unit
  flush_policies = xfrm_policy_flush

  unfoldable pub create_policies : List XfrmPolicy → Exec W Unit
  create_policies = for_each (λ p. context "error creating policy" (xfrm_policy_add p))

  unfoldable pub update_policies : List XfrmPolicy → Exec W Unit
  update_policies = for_each (λ p. context "error updating policy" (xfrm_policy_update p))

  unfoldable pub remove_policies : List XfrmPolicy → Exec W Unit
  remove_policies = for_each (λ p. context "error removing policy" (xfrm_policy_del p))

  -- `Ensure`
  unfoldable pub ensure_policies : List XfrmPolicy → Exec W Unit
  ensure_policies expected = do
    actual ← context "error listing xfrm policies" xfrm_policy_list
    create_policies (policies_to_create actual expected)
    update_policies (policies_to_update actual expected)
    remove_policies (policies_to_remove expected actual)
