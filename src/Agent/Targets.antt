-- ===== src/Agent/Targets.antt =====
-- `findTargetLinks` of cmd/networking-agent/main.go, and the devices that `run` goes on with.
use Prim.Native.Nat.{bit_and}
use networking.Prelude.{
  ℕ, Bool, true, false, not, ◌&&◌, List, [], ◌∷◌, String, Exec, Result, ok, err, fatal, Error,
  errorf, wrap, pure, context, if◌then◌else◌, ◌==◌, nat_eq, string_eq, map, keep, In, In-keep, ◌≡◌,
  ◌⊎◌, ◌↔◌, arith, refl, inl, inr, ap, ◌∙◌,
}

-- `net.Interface`
pub record Interface : Type 0 where
  pub name : String
  pub flags : ℕ

-- `has_prefix` is `strings.HasPrefix`, `interfaces` is `net.Interfaces`. The bit `net.FlagLoopback`
-- is 4.
module _ {W : Type 0} (has_prefix : String → String → Bool)
    (interfaces : Exec W (List Interface)) where
  unfoldable pub is_candidate : Interface → Bool
  is_candidate i =
      if not (bit_and i.flags 4 == 0)
      then false
      else if not (has_prefix i.name "eth") && not (has_prefix i.name "en")
      then false
      else true

  unfoldable pub candidates : List Interface → List Interface
  candidates = keep is_candidate

  -- `transform`, for the names.
  unfoldable pub names_of : List Interface → List String
  names_of = map (λ i. i.name)

  unfoldable pub named : List Interface → Result (List String)
  named [] = err (errorf "unable to determine interface (no interfaces found)")
  named (i ∷ rest) = ok (names_of (i ∷ rest))

  unfoldable pub find_target_links : Exec W (List String)
  find_target_links w =
      let (r, w') =
        context "error querying interfaces to determine primary network interface" interfaces w in
      elim r [ ok l ↦ (named (candidates l), w') | err x ↦ (err x, w') | fatal x ↦ (fatal x, w') ]

  -- `targetLinkNames`
  unfoldable pub target_link_names : String → Exec W (List String)
  target_link_names target =
      if not (target == "")
      then pure (target ∷ [])
      else context "unable to determine network device; pass --target to specify" find_target_links

  In-names_of :
      (n : String) (l : List Interface)
      → In n (names_of l) ↔ ((i : Interface) × In i l × (i.name ≡ n))
  unfolding names_of
  In-names_of n [] = (λ h. absurd h, λ h. absurd h.1)
  In-names_of n (j ∷ rest) = (
    λ h. elim h [
      | inl e ↦ (j, inl refl, e)
      | inr k ↦ let (i, there, e) = (In-names_of n rest).0 k in (i, inr there, e)
    ],
    λ h. elim h.1 [
      | inl e ↦ inl (ap (λ x. x.name) e ∙ h.2)
      | inr k ↦ inr ((In-names_of n rest).1 (h.0, k, h.2))
    ],
  )

  is_candidate_iff :
      (i : Interface)
      → (is_candidate i ≡ true) ↔ (
          (bit_and i.flags 4 ≡ 0)
          × ((has_prefix i.name "eth" ≡ true) ⊎ (has_prefix i.name "en" ≡ true)))
  unfolding is_candidate
  is_candidate_iff i = ground arith

  -- A device is chosen exactly if it is one of the interfaces, is no loopback device and has a name
  -- that begins with "eth" or "en".
  abbrev pub Chosen : List Interface → String → Type 0
  Chosen l n =
      (i : Interface) × In i l
      × (i.name ≡ n)
      × (bit_and i.flags 4 ≡ 0)
      × ((has_prefix i.name "eth" ≡ true) ⊎ (has_prefix i.name "en" ≡ true))

  Chosen-names_of : (l : List Interface) (n : String) → In n (names_of (candidates l)) ↔ Chosen l n
  unfolding candidates
  Chosen-names_of l n = (
    λ h.
        let (i, kept, e) = (In-names_of n (keep is_candidate l)).0 h in
        let (there, passes) = (In-keep is_candidate i l).0 kept in
        let (up, fits) = (is_candidate_iff i).0 passes in (i, there, e, up, fits),
    λ h.
        let passes = (is_candidate_iff h.0).1 (h.3, h.4) in
        (In-names_of n (keep is_candidate l)).1
          (h.0, (In-keep is_candidate h.0 l).1 (h.1, passes), h.2),
  )

  Found : List Interface → W → W → Type 0
  Found l w w' =
      ((names : List String) × (target_link_names "" w ≡ (ok names, w'))
        × ((n : String) → In n names ↔ Chosen l n))
      ⊎ ((x : Error) × (target_link_names "" w ≡ (err x, w')) × ((n : String) → ¬ Chosen l n))

  Found-candidates :
      (w w' : W) (l c : List Interface)
      → interfaces w ≡ (ok l, w')
      → candidates l ≡ c
      → ((n : String) → In n (names_of c) ↔ Chosen l n)
      → Found l w w'
  unfolding Found target_link_names find_target_links named
  Found-candidates w w' l [] h e iff = inr (
    wrap "unable to determine network device; pass --target to specify"
        (errorf "unable to determine interface (no interfaces found)"),
    ground (arith, h, e),
    λ n chosen. ((In-names_of n []).0 ((iff n).1 chosen)).1,
  )
  Found-candidates w w' l (i ∷ rest) h e iff = inl (names_of (i ∷ rest), ground (arith, h, e), iff)

  -- Without a name in the options, the target devices are exactly the interfaces that are no
  -- loopback devices and whose names begin with "eth" or "en", if the
  -- interfaces can be read; if there is none of these, it is an error.
  pub target_link_names_lem :
      (w w' : W) (l : List Interface)
      → interfaces w ≡ (ok l, w')
      → ((names : List String) × (target_link_names "" w ≡ (ok names, w'))
          × ((n : String) → In n names ↔ Chosen l n))
        ⊎ ((x : Error) × (target_link_names "" w ≡ (err x, w')) × ((n : String) → ¬ Chosen l n))
  unfolding Found
  target_link_names_lem w w' l h = Found-candidates w w' l (candidates l) h refl (Chosen-names_of l)
