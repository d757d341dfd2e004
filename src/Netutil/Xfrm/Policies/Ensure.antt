-- ===== src/Netutil/Xfrm/Policies/Ensure.antt =====
-- What `XfrmPolicyTable.Ensure` asks the kernel for.
use networking.Prelude.{
  List, [], ◌∷◌, ◌++◌, map, In, Exec, ok, context, for_each, for_each-cons_ok, ◌≡◌, ◌↔◌, refl, ap,
  sym, ◌∙◌,
}
use networking.Netlink.{XfrmPolicy, XfrmPolicyCalls}
use networking.Netutil.Xfrm.Policies.{
  policies_to_create, policies_to_update, policies_to_remove, create_policies, update_policies,
  remove_policies, ensure_policies,
}
use networking.Netutil.Xfrm.Policies.Plan.{Unmatched, Unwanted, creates-Unmatched, removes-Unwanted}
use networking.Netutil.Xfrm.Policies.Changed.{Changed, updates-Changed, Changed-updates}

-- A request for a change of the kernel's policies.
pub data Request : Type 0 where
  add update delete : XfrmPolicy → Request

assoc : (xs ys zs : List Request) → (xs ++ ys) ++ zs ≡ xs ++ (ys ++ zs)
assoc [] ys zs = refl
assoc (x ∷ xs) ys zs = ap (◌∷◌ x) (assoc xs ys zs)

append-nil : (xs : List Request) → xs ++ [] ≡ xs
append-nil [] = refl
append-nil (x ∷ xs) = ap (◌∷◌ x) (append-nil xs)

module _ {W : Type 0} (log : W → List Request) where
  -- A call that succeeds, and is recorded as a request.
  abbrev pub Logs : (XfrmPolicy → Exec W Unit) → (XfrmPolicy → Request) → Type 0
  Logs call request =
      (p : XfrmPolicy) (w : W)
      → (w' : W) × (call p w ≡ (ok tt, w')) × (log w' ≡ log w ++ request p ∷ [])

  for_each-Logs :
      (call : XfrmPolicy → Exec W Unit) (request : XfrmPolicy → Request)
      → Logs call request
      → (ps : List XfrmPolicy) (w : W)
      → (w' : W) × (for_each call ps w ≡ (ok tt, w')) × (log w' ≡ log w ++ map request ps)
  unfolding for_each
  for_each-Logs call request law [] w = (w, refl, sym (append-nil (log w)))
  for_each-Logs call request law (p ∷ ps) w =
      let (w1, run1, t1) = law p w in
      let (w2, run2, t2) = for_each-Logs call request law ps w1 in
      (
        w2,
        for_each-cons_ok call p ps w w1 run1 ∙ run2,
        t2 ∙ ap (λ l. l ++ map request ps) t1 ∙ assoc (log w) (request p ∷ []) (map request ps),
      )

  -- The policies are listed, and every other call succeeds.
  pub record Accepts (calls : XfrmPolicyCalls W) (actual : List XfrmPolicy) (w : W) : Type 0 where
    pub listed : calls.xfrm_policy_list w ≡ (ok actual, w)
    pub added : Logs calls.xfrm_policy_add add
    pub updated : Logs calls.xfrm_policy_update update
    pub deleted : Logs calls.xfrm_policy_del delete

-- On a kernel that lists its policies and grants every request, `Ensure` succeeds, and what it
-- requests is first to add exactly the expected policies that no policy of the kernel matches, then
-- to update exactly those expected policies that differ from the last policy of the kernel that
-- matches them, with the index of that one, and then to delete exactly the policies of the kernel
-- that match no expected one.
pub ensure_policies_requests :
    {W : Type 0} (calls : XfrmPolicyCalls W) (log : W → List Request)
    (actual expected : List XfrmPolicy) (w : W)
    → Accepts log calls actual w
    → (created : List XfrmPolicy) × (changed : List XfrmPolicy) × (removed : List XfrmPolicy)
      × (w' : W) × (ensure_policies calls expected w ≡ (ok tt, w'))
      × (log w' ≡ log w ++ (map add created ++ (map update changed ++ map delete removed)))
      × ((p : XfrmPolicy) → In p created ↔ (In p expected × Unmatched actual p))
      × ((p : XfrmPolicy) → In p changed ↔ Changed actual expected p)
      × ((p : XfrmPolicy) → In p removed ↔ (In p actual × Unwanted expected p))
unfolding ensure_policies create_policies update_policies remove_policies
ensure_policies_requests calls log actual expected w law =
    let created = policies_to_create actual expected in
    let changed = policies_to_update actual expected in
    let removed = policies_to_remove expected actual in
    let (w1, run1, t1) =
      for_each-Logs log (λ p. context "error creating policy" (calls.xfrm_policy_add p)) add
        (λ p z. let (z', run, t) = law.added p z in (z', rw run refl, t)) created w in
    let (w2, run2, t2) =
      for_each-Logs log (λ p. context "error updating policy" (calls.xfrm_policy_update p)) update
        (λ p z. let (z', run, t) = law.updated p z in (z', rw run refl, t)) changed w1 in
    let (w3, run3, t3) =
      for_each-Logs log (λ p. context "error removing policy" (calls.xfrm_policy_del p)) delete
        (λ p z. let (z', run, t) = law.deleted p z in (z', rw run refl, t)) removed w2 in
    (
      created,
      changed,
      removed,
      w3,
      rw (law.listed) (rw run1 (rw run2 run3)),
      t3
          ∙ ap (λ l. l ++ map delete removed) (t2 ∙ ap (λ l. l ++ map update changed) t1)
          ∙ assoc (log w ++ map add created) (map update changed) (map delete removed)
          ∙ assoc (log w) (map add created) (map update changed ++ map delete removed),
      creates-Unmatched actual expected,
      λ p. (updates-Changed actual expected p, Changed-updates actual expected p),
      removes-Unwanted actual expected,
    )
