-- ===== src/Netutil/Kernel.antt =====
-- A table of the kernel as its clients see it, and what a series of calls does to it. The laws
-- stand for the documented behaviour of netlink requests on a table with one entry for each key.
use networking.Prelude.{
  Option, none, some, List, [], ◌∷◌, String, Exec, Error, wrap, context, ok, err, for_each,
  for_each-cons_ok, for_each-cons_err, Eq, ◌==◌, if◌then◌else◌, is_some, ◌≡◌, ◌≢◌, arith, refl,
  Option-cases, inl, inr, ◌∙◌,
}
use networking.Prelude.Dict.{Dict, lookup, Distinct}

-- `o`, or `d` if there is none.
abbrev pub or_else : {A : Type 0} → Option A → Option A → Option A
or_else none d = d
or_else (some a) d = some a

abbrev pub values : {K V : Type 0} → Dict K V → List V
values [] = []
values ((k, v) ∷ m) = v ∷ values m

present : {A : Type 0} (o : Option A) → o ≢ none → (a : A) × (o ≡ some a)
present none h = absurd (h refl)
present (some a) h = (a, refl)

-- Every value stands under its key.
abbrev pub Keys : {K V : Type 0} ⦃eq : Eq K⦄ → (V → Option K) → Dict K V → Type 0
Keys {K} {V} key m = (k : K) (v : V) → lookup k m ≡ some v → key v ≡ some k

module _ {K V : Type 0} ⦃eq : Eq K⦄ where
  pub lookup-cons : (k : K) (v : V) (m : Dict K V) → lookup k ((k, v) ∷ m) ≡ some v
  unfolding lookup
  lookup-cons k v m = ground (arith, eq.same_iff k k)

  pub Keys-tail :
      (key : V → Option K) (k : K) (v : V) (m : Dict K V)
      → Distinct ((k, v) ∷ m)
      → Keys key ((k, v) ∷ m)
      → Keys key m
  unfolding lookup
  Keys-tail key k v m d h j u p = ground (arith, h j u, p, d.0, eq.same_iff k j)

module _ {W K V : Type 0} ⦃eq : Eq K⦄ (table : W → K → Option V) (key : V → Option K) where
  -- A request that creates an entry (`NLM_F_CREATE | NLM_F_EXCL`) succeeds where there is none,
  pub record Adds (add : V → Exec W Unit) : Type 0 where
    pub adds :
        (w : W) (v : V) (k : K)
        → key v ≡ some k
        → table w k ≡ none
        → (w' : W) × (add v w ≡ (ok tt, w'))
          × ((j : K) → table w' j ≡ (if k == j then some v else table w j))

  -- and fails with "file exists" where there is one.
  pub record Refuses (add : V → Exec W Unit) : Type 0 where
    pub refuses :
        (w : W) (v a : V) (k : K)
        → key v ≡ some k
        → table w k ≡ some a
        → (x : Error) × (add v w ≡ (err x, w))

  -- A request that deletes an entry succeeds where there is one.
  pub record Dels (del : V → Exec W Unit) : Type 0 where
    pub dels :
        (w : W) (v a : V) (k : K)
        → key v ≡ some k
        → table w k ≡ some a
        → (w' : W) × (del v w ≡ (ok tt, w'))
          × ((j : K) → table w' j ≡ (if k == j then none else table w j))

  -- A request that creates or replaces an entry (`NLM_F_CREATE | NLM_F_REPLACE`) succeeds.
  pub record Sets (set : V → Exec W Unit) : Type 0 where
    pub sets :
        (w : W) (v : V) (k : K)
        → key v ≡ some k
        → (w' : W) × (set v w ≡ (ok tt, w'))
          × ((j : K) → table w' j ≡ (if k == j then some v else table w j))

  module _ (add : V → Exec W Unit) (law : Adds add) where
    -- Adding entries whose keys are free succeeds, and adds them all.
    pub for_each-add :
        (m : Dict K V) (w : W)
        → Keys key m
        → Distinct m
        → ((k : K) (v : V) → lookup k m ≡ some v → table w k ≡ none)
        → (w' : W) × (for_each add (values m) w ≡ (ok tt, w'))
          × ((j : K) → table w' j ≡ or_else (lookup j m) (table w j))
    unfolding for_each lookup
    for_each-add [] w h d free = (w, refl, λ j. refl)
    for_each-add ((k, v) ∷ m) w h d free =
        let here = lookup-cons k v m in
        let (w1, run1, t1) = law.adds w v k (h k v here) (free k v here) in
        let (w2, run2, t2) =
          for_each-add m w1 (Keys-tail key k v m d h) d.1
            (λ j u p. ground (arith, t1 j, d.0, p, eq.same_iff k j, free j u)) in
        (
          w2,
          for_each-cons_ok _ v (values m) w w1 run1 ∙ run2,
          λ j. ground (arith, t1 j, t2 j, d.0, eq.same_iff k j),
        )

  module _ (del : V → Exec W Unit) (law : Dels del) where
    -- Deleting entries that are there succeeds, and deletes them all.
    pub for_each-del :
        (m : Dict K V) (w : W)
        → Keys key m
        → Distinct m
        → ((k : K) (v : V) → lookup k m ≡ some v → table w k ≢ none)
        → (w' : W) × (for_each del (values m) w ≡ (ok tt, w'))
          × ((j : K) → table w' j ≡ (if is_some (lookup j m) then none else table w j))
    unfolding for_each lookup
    for_each-del [] w h d there = (w, refl, λ j. refl)
    for_each-del ((k, v) ∷ m) w h d there =
        let here = lookup-cons k v m in
        let (a, held) = present (table w k) (there k v here) in
        let (w1, run1, t1) = law.dels w v a k (h k v here) held in
        let (w2, run2, t2) =
          for_each-del m w1 (Keys-tail key k v m d h) d.1
            (λ j u p. ground (arith, t1 j, d.0, p, eq.same_iff k j, there j u)) in
        (
          w2,
          for_each-cons_ok _ v (values m) w w1 run1 ∙ run2,
          λ j. ground (arith, t1 j, t2 j, d.0, eq.same_iff k j),
        )

  module _ (add : V → Exec W Unit) (adding : Adds add) (refusing : Refuses add) where
    -- If an entry that is to be added is there already, the series ends in an error, and that
    -- entry stays.
    pub for_each-refused :
        (m : Dict K V) (w : W) (k : K) (v a : V)
        → Keys key m
        → Distinct m
        → lookup k m ≡ some v
        → table w k ≡ some a
        → (x : Error) × (w' : W) × (for_each add (values m) w ≡ (err x, w')) × (table w' k ≡ some a)
    unfolding lookup
    for_each-refused [] w k v a h d p q = absurd (cc)
    for_each-refused ((j, u) ∷ m) w k v a h d p q =
        let here = lookup-cons j u m in
        elim (Option-cases (table w j)) [
          | inr (b, e) ↦
              let (x, run) = refusing.refuses w u b j (h j u here) e in
              (x, w, for_each-cons_err add u (values m) w w x run, q)
          | inl e ↦
              let (w1, run1, t1) = adding.adds w u j (h j u here) e in
              let (x, w2, run2, t2) =
                for_each-refused m w1 k v a (Keys-tail key j u m d h) d.1
                  (ground (arith, p, q, e, eq.same_iff j k))
                  (ground (arith, t1 k, q, e, eq.same_iff j k)) in
              (x, w2, for_each-cons_ok add u (values m) w w1 run1 ∙ run2, t2)
        ]

  -- The message that an error is wrapped in does not matter where there is none.
  pub Adds-context : (s : String) (add : V → Exec W Unit) → Adds add → Adds (λ v. context s (add v))
  Adds-context s add law = record {
    adds = λ w v k h f. let (w', run, t) = law.adds w v k h f in (w', rw run, t);
  }

  pub Dels-context : (s : String) (del : V → Exec W Unit) → Dels del → Dels (λ v. context s (del v))
  Dels-context s del law = record {
    dels = λ w v a k h f. let (w', run, t) = law.dels w v a k h f in (w', rw run, t);
  }

  pub Refuses-context :
      (s : String) (add : V → Exec W Unit) → Refuses add → Refuses (λ v. context s (add v))
  Refuses-context s add law = record {
    refuses = λ w v a k h f. let (x, run) = law.refuses w v a k h f in (wrap s x, rw run);
  }

  pub Sets-context : (s : String) (set : V → Exec W Unit) → Sets set → Sets (λ v. context s (set v))
  Sets-context s set law = record {
    sets = λ w v k h. let (w', run, t) = law.sets w v k h in (w', rw run, t);
  }
