-- ===== src/Netutil/Xfrm/Policies/Changed.antt =====
-- Which policies `XfrmPolicyTable.Ensure` updates.
use networking.Prelude.{
  true, ◌++◌, ◌⊎◌, ap, sym, ◌∙◌, false, Option, none, some, List, [], ◌∷◌, In, ◌≡◌, ◌↔◌, inl, inr,
  arith, refl, Option-cases, Bool-cases, subst,
}
use networking.Netlink.{XfrmPolicy}
use networking.Netutil.Xfrm.{xfrm_policy_matches, xfrm_policy_equal}
use networking.Netutil.Xfrm.Policies.{last_match, policies_to_update}
use networking.Netutil.Xfrm.Policies.Plan.{Unmatched}

-- The last policy of a list that matches `e`.
abbrev pub LastMatch : List XfrmPolicy → XfrmPolicy → XfrmPolicy → Type 0
LastMatch actual e a =
    (xs : List XfrmPolicy) × (ys : List XfrmPolicy) × (actual ≡ xs ++ a ∷ ys)
    × (xfrm_policy_matches a e ≡ true)
    × Unmatched ys e

last_match-some :
    (e : XfrmPolicy) (held : Option XfrmPolicy) (l : List XfrmPolicy) (a : XfrmPolicy)
    → last_match e held l ≡ some a
    → LastMatch l e a ⊎ ((held ≡ some a) × Unmatched l e)
unfolding last_match
last_match-some e held [] a h = inr (h, λ p i. absurd i)
last_match-some e held (x ∷ l) a h = elim (Bool-cases (xfrm_policy_matches x e)) [
  | inl q ↦ elim (last_match-some e (some x) l a (ground (arith, q, h))) [
    | inl (xs, ys, split, good, rest) ↦ inl (x ∷ xs, ys, ap (◌∷◌ x) split, good, rest)
    | inr (same, rest) ↦
        let here : x ≡ a = ground (arith, same) in
        inl ([], l, ap (λ z. z ∷ l) here, ground (arith, here, q), rest)
  ]
  | inr q ↦ elim (last_match-some e held l a (ground (arith, q, h))) [
    | inl (xs, ys, split, good, rest) ↦ inl (x ∷ xs, ys, ap (◌∷◌ x) split, good, rest)
    | inr (same, rest) ↦ inr (
      same,
      λ p i. elim i [ inl s ↦ subst (λ y. xfrm_policy_matches y e ≡ false) s q | inr j ↦ rest p j ],
    )
  ]
]

-- What follows the last match does not change it.
last_match-kept :
    (e : XfrmPolicy) (held : Option XfrmPolicy) (l : List XfrmPolicy)
    → Unmatched l e
    → last_match e held l ≡ held
unfolding last_match
last_match-kept e held [] none_there = refl
last_match-kept e held (x ∷ l) none_there =
    let head = none_there x (inl refl) in
    let tail = last_match-kept e held l (λ p i. none_there p (inr i)) in ground (arith, head, tail)

last_match-at :
    (e : XfrmPolicy) (held : Option XfrmPolicy) (xs ys : List XfrmPolicy) (a : XfrmPolicy)
    → xfrm_policy_matches a e ≡ true
    → Unmatched ys e
    → last_match e held (xs ++ a ∷ ys) ≡ some a
unfolding last_match
last_match-at e held [] ys a good rest =
    let tail = last_match-kept e (some a) ys rest in ground (arith, good, tail)
last_match-at e held (x ∷ xs) ys a good rest =
    let over = last_match-at e (some x) xs ys a good rest in
    let past = last_match-at e held xs ys a good rest in ground (arith, over, past)

-- Why an update is sent: for an expected policy whose last match differs from it.
abbrev pub Changed : List XfrmPolicy → List XfrmPolicy → XfrmPolicy → Type 0
Changed actual expected p =
    (e : XfrmPolicy) × (a : XfrmPolicy) × In e expected
    × LastMatch actual e a
    × (p ≡ record e { index = a.index })
    × (xfrm_policy_equal a p ≡ false)

Changed-cons :
    (actual expected : List XfrmPolicy) (x p : XfrmPolicy)
    → Changed actual expected p
    → Changed actual (x ∷ expected) p
Changed-cons actual expected x p (e, a, i, m, same, differs) = (e, a, inr i, m, same, differs)

-- What one expected policy and its last match add to the updates.
update-cases :
    (actual rest : List XfrmPolicy) (x a p : XfrmPolicy)
    → last_match x none actual ≡ some a
    → In p (policies_to_update actual (x ∷ rest)) ↔ (
        ((record x { index = a.index } ≡ p)
          × (xfrm_policy_equal a (record x { index = a.index }) ≡ false))
        ⊎ In p (policies_to_update actual rest))
unfolding policies_to_update
update-cases actual rest x a p q =
    elim (Bool-cases (xfrm_policy_equal a (record x { index = a.index }))) [
      | inl c ↦ ground (arith, q, c)
      | inr c ↦ ground (arith, q, c)
    ]

pub updates-Changed :
    (actual expected : List XfrmPolicy) (p : XfrmPolicy)
    → In p (policies_to_update actual expected)
    → Changed actual expected p
unfolding policies_to_update
updates-Changed actual [] p h = absurd h
updates-Changed actual (x ∷ rest) p h = elim (Option-cases (last_match x none actual)) [
  | inl q ↦
      let later : In p (policies_to_update actual rest) = ground (arith, q, h) in
      Changed-cons actual rest x p (updates-Changed actual rest p later)
  | inr (a, q) ↦ elim ((update-cases actual rest x a p q).0 h) [
    | inr later ↦ Changed-cons actual rest x p (updates-Changed actual rest p later)
    | inl (same, differs) ↦ elim (last_match-some x none actual a q) [
      | inr (no_match, rest_of) ↦ absurd (cc)
      | inl m ↦
          (x, a, inl refl, m, sym same, subst (λ z. xfrm_policy_equal a z ≡ false) same differs)
    ]
  ]
]

pub Changed-updates :
    (actual expected : List XfrmPolicy) (p : XfrmPolicy)
    → Changed actual expected p
    → In p (policies_to_update actual expected)
unfolding policies_to_update
Changed-updates actual [] p (e, a, i, m, same, differs) = absurd i
Changed-updates actual (x ∷ rest) p (e, a, inl i, (xs, ys, split, good, last), same, differs) =
    let held : last_match x none actual ≡ some a =
      subst (λ z. last_match z none actual ≡ some a) (sym i)
        (ap (last_match e none) split ∙ last_match-at e none xs ys a good last) in
    let mine : record x { index = a.index } ≡ p =
      ap (λ (z : XfrmPolicy). record z { index = a.index }) i ∙ sym same in
    (update-cases actual rest x a p held).1
      (inl (mine, subst (λ z. xfrm_policy_equal a z ≡ false) (sym mine) differs))
Changed-updates actual (x ∷ rest) p (e, a, inr i, m, same, differs) =
    let later = Changed-updates actual rest p (e, a, i, m, same, differs) in
    elim (Option-cases (last_match x none actual)) [
      | inl q ↦ ground (arith, q, later)
      | inr (b, q) ↦ (update-cases actual rest x b p q).1 (inr later)
    ]
