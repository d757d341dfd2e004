-- ===== src/Netutil/Xfrm/Policies/Plan.antt =====
-- Which policies `XfrmPolicyTable.Ensure` creates and removes.
use networking.Prelude.{
  false, Option, none, some, List, [], ◌∷◌, In, ◌≡◌, ◌↔◌, inl, inr, arith, refl, Option-cases,
  Bool-cases, subst,
}
use networking.Netlink.{XfrmPolicy}
use networking.Netutil.Xfrm.{xfrm_policy_matches}
use networking.Netutil.Xfrm.Policies.{
  last_match, is_matched, policies_to_create, policies_to_remove,
}

-- No policy of a list matches `e`.
abbrev pub Unmatched : List XfrmPolicy → XfrmPolicy → Type 0
Unmatched actual e = (p : XfrmPolicy) → In p actual → xfrm_policy_matches p e ≡ false

-- No expected policy is matched by `p`.
abbrev pub Unwanted : List XfrmPolicy → XfrmPolicy → Type 0
Unwanted expected p = (e : XfrmPolicy) → In e expected → xfrm_policy_matches p e ≡ false

is_matched-false :
    (expected : List XfrmPolicy) (p : XfrmPolicy)
    → is_matched expected p ≡ false
    → Unwanted expected p
unfolding is_matched
is_matched-false [] p h e i = absurd i
is_matched-false (x ∷ rest) p h e (inl q) =
    subst (λ y. xfrm_policy_matches p y ≡ false) q (ground (arith, h))
is_matched-false (x ∷ rest) p h e (inr i) = is_matched-false rest p (ground (arith, h)) e i

is_matched-Unwanted :
    (expected : List XfrmPolicy) (p : XfrmPolicy)
    → Unwanted expected p
    → is_matched expected p ≡ false
unfolding is_matched
is_matched-Unwanted [] p h = refl
is_matched-Unwanted (x ∷ rest) p h =
    let head = h x (inl refl) in
    let tail = is_matched-Unwanted rest p (λ e i. h e (inr i)) in ground (arith, head, tail)

last_match-none :
    (e : XfrmPolicy) (a : Option XfrmPolicy) (l : List XfrmPolicy)
    → last_match e a l ≡ none
    → (a ≡ none) × Unmatched l e
unfolding last_match
last_match-none e a [] h = (h, λ p i. absurd i)
last_match-none e a (x ∷ l) h = elim (Bool-cases (xfrm_policy_matches x e)) [
  | inl q ↦
      let rest = last_match-none e (some x) l (ground (arith, q, h)) in
      absurd (ground (arith, rest.0))
  | inr q ↦
      let rest = last_match-none e a l (ground (arith, q, h)) in
      (
        rest.0,
        λ p i. elim i [
          | inl s ↦ subst (λ y. xfrm_policy_matches y e ≡ false) s q
          | inr j ↦ rest.1 p j
        ],
      )
]

last_match-Unmatched :
    (e : XfrmPolicy) (l : List XfrmPolicy) → Unmatched l e → last_match e none l ≡ none
unfolding last_match
last_match-Unmatched e [] h = refl
last_match-Unmatched e (x ∷ l) h =
    let head = h x (inl refl) in
    let tail = last_match-Unmatched e l (λ p i. h p (inr i)) in ground (arith, head, tail)

In-policies_to_remove :
    (expected actual : List XfrmPolicy) (p : XfrmPolicy)
    → In p (policies_to_remove expected actual) ↔ (In p actual × (is_matched expected p ≡ false))
unfolding policies_to_remove
In-policies_to_remove expected [] p = (λ h. absurd h, λ h. h.0)
In-policies_to_remove expected (x ∷ rest) p = ground (arith, In-policies_to_remove expected rest p)

In-policies_to_create :
    (actual expected : List XfrmPolicy) (e : XfrmPolicy)
    → In e (policies_to_create actual expected)
      ↔ (In e expected × (last_match e none actual ≡ none))
unfolding policies_to_create
In-policies_to_create actual [] e = (λ h. absurd h, λ h. h.0)
In-policies_to_create actual (x ∷ rest) e = elim (Option-cases (last_match x none actual)) [
  | inl q ↦ ground (arith, q, In-policies_to_create actual rest e)
  | inr (a, q) ↦ ground (arith, q, In-policies_to_create actual rest e)
]

-- Those to create and those to remove.
pub creates-Unmatched :
    (actual expected : List XfrmPolicy) (p : XfrmPolicy)
    → In p (policies_to_create actual expected) ↔ (In p expected × Unmatched actual p)
creates-Unmatched actual expected p =
    let created = In-policies_to_create actual expected p in
    (
      λ i. let (a, b) = created.0 i in (a, (last_match-none p none actual b).1),
      λ i. created.1 (i.0, last_match-Unmatched p actual i.1),
    )

pub removes-Unwanted :
    (actual expected : List XfrmPolicy) (p : XfrmPolicy)
    → In p (policies_to_remove expected actual) ↔ (In p actual × Unwanted expected p)
removes-Unwanted actual expected p =
    let removed = In-policies_to_remove expected actual p in
    (
      λ i. let (a, b) = removed.0 i in (a, is_matched-false expected p b),
      λ i. removed.1 (i.0, is_matched-Unwanted expected p i.1),
    )
