-- ===== src/Netutil/Diff.antt =====
-- What the tables of pkg/routing/netutil have in common: the difference of a map of the entries
-- that are there and a map of those that are expected, under a comparison of two entries.
use networking.Prelude.{
  Bool, true, not, Option, none, some, [], ◌∷◌, ◌++◌, Eq, ◌==◌, if◌then◌else◌, is_some, ◌≡◌, arith,
  refl, ap, ◌∙◌,
}
use networking.Prelude.Dict.{Dict, lookup, insert, lookup-insert, Distinct, insert-Distinct}
use networking.Netutil.Kernel.{or_else, values}

module _ {K V : Type 0} ⦃e : Eq K⦄ where
  pub values-append : (m n : Dict K V) → values (m ++ n) ≡ values m ++ values n
  values-append [] n = refl
  values-append ((k, v) ∷ m) n = ap (◌∷◌ v) (values-append m n)

  pub lookup-append :
      (k : K) (m n : Dict K V) → lookup k (m ++ n) ≡ or_else (lookup k m) (lookup k n)
  unfolding lookup
  lookup-append k [] n = refl
  lookup-append k ((j, v) ∷ m) n = ground (arith, lookup-append k m n)

  pub append-Distinct :
      (m n : Dict K V)
      → Distinct m
      → Distinct n
      → ((k : K) (v : V) → lookup k m ≡ some v → lookup k n ≡ none)
      → Distinct (m ++ n)
  unfolding lookup
  append-Distinct [] n d c apart = c
  append-Distinct ((k, v) ∷ m) n d c apart = (
    ground (arith, lookup-append k m n, d.0, apart k v, e.same_iff k k),
    append-Distinct m n d.1 c (λ j u p. ground (arith, apart j u, p, d.0, e.same_iff k j)),
  )

  -- A map from the entries of another, in order.
  unfoldable pub insert_all : Dict K V → Dict K V → Dict K V
  insert_all m [] = m
  insert_all m ((k, v) ∷ n) = insert_all (insert k v m) n

  pub lookup-insert_all :
      (k : K) (m n : Dict K V)
      → Distinct n
      → lookup k (insert_all m n) ≡ or_else (lookup k n) (lookup k m)
  unfolding insert_all lookup
  lookup-insert_all k m [] d = refl
  lookup-insert_all k m ((j, v) ∷ n) d =
      lookup-insert_all k (insert j v m) n d.1
      ∙ ground (arith, lookup-insert j k v m, d.0, e.same_iff j k)

  pub insert_all-Distinct : (m n : Dict K V) → Distinct m → Distinct (insert_all m n)
  unfolding insert_all
  insert_all-Distinct m [] d = d
  insert_all-Distinct m ((k, v) ∷ n) d =
      insert_all-Distinct (insert k v m) n (insert-Distinct k v m d)

abbrev pub when_some : {V A : Type 0} → Option V → (V → Option A) → Option A
when_some none f = none
when_some (some v) f = f v

module _ {V : Type 0} (equal : V → V → Bool) where
  -- There is no entry, or another one.
  abbrev pub needs : Option V → V → Bool
  needs none v = true
  needs (some a) v = not (equal a v)

  -- The entry that is there and is another one.
  abbrev pub replaced : Option V → V → Option V
  replaced none v = none
  replaced (some a) v = if equal a v then none else some a

  -- What an expected entry becomes: itself, unless what is there is as good.
  abbrev pub settled : Option V → V → V
  settled none v = v
  settled (some a) v = if equal a v then a else v

module _ {K V : Type 0} where
  abbrev pub cons_some : K → Option V → Dict K V → Dict K V
  cons_some k none m = m
  cons_some k (some v) m = (k, v) ∷ m

  module _ ⦃e : Eq K⦄ where
    lookup-cons_some :
        (j k : K) (o : Option V) (m : Dict K V)
        → lookup k (cons_some j o m) ≡ (if j == k then or_else o (lookup k m) else lookup k m)
    unfolding lookup
    lookup-cons_some j k none m = ground arith
    lookup-cons_some j k (some v) m = ground arith

    cons_some-Distinct :
        (k : K) (o : Option V) (m : Dict K V)
        → lookup k m ≡ none
        → Distinct m
        → Distinct (cons_some k o m)
    cons_some-Distinct k none m h d = d
    cons_some-Distinct k (some v) m h d = (h, d)

    -- The entries of the first map that the second lacks.
    unfoldable pub missing : Dict K V → Dict K V → Dict K V
    missing [] m = []
    missing ((k, a) ∷ act) m =
        cons_some k (if is_some (lookup k m) then none else some a) (missing act m)

    pub lookup-missing :
        (act m : Dict K V) (k : K)
        → Distinct act
        → lookup k (missing act m) ≡ (if is_some (lookup k m) then none else lookup k act)
    unfolding missing lookup
    lookup-missing [] m k d = ground arith
    lookup-missing ((j, a) ∷ act) m k d = ground (
      arith,
      lookup-cons_some j k (if is_some (lookup j m) then none else some a) (missing act m),
      lookup-missing act m k d.1,
      d.0,
      e.same_iff j k,
    )

    pub missing-Distinct : (act m : Dict K V) → Distinct act → Distinct (missing act m)
    unfolding missing lookup
    missing-Distinct [] m d = tt
    missing-Distinct ((j, a) ∷ act) m d =
        cons_some-Distinct j _ (missing act m) (ground (arith, lookup-missing act m j d.1, d.0))
          (missing-Distinct act m d.1)

module _ {K V : Type 0} ⦃e : Eq K⦄ (equal : V → V → Bool) where
  unfoldable pub created : Dict K V → Dict K V → Dict K V
  created act [] = []
  created act ((k, v) ∷ m) =
      cons_some k (if needs equal (lookup k act) v then some v else none) (created act m)

  unfoldable pub removed : Dict K V → Dict K V → Dict K V
  removed act [] = []
  removed act ((k, v) ∷ m) = cons_some k (replaced equal (lookup k act) v) (removed act m)

  module _ (act : Dict K V) where
    pub lookup-created :
        (m : Dict K V) (k : K)
        → Distinct m
        → lookup k (created act m)
          ≡ when_some (lookup k m) (λ v. if needs equal (lookup k act) v then some v else none)
    unfolding created lookup
    lookup-created [] k d = refl
    lookup-created ((j, v) ∷ m) k d = ground (
      arith,
      lookup-cons_some j k (if needs equal (lookup j act) v then some v else none) (created act m),
      lookup-created m k d.1,
      d.0,
      e.same_iff j k,
    )

    pub lookup-removed :
        (m : Dict K V) (k : K)
        → Distinct m
        → lookup k (removed act m) ≡ when_some (lookup k m) (λ v. replaced equal (lookup k act) v)
    unfolding removed lookup
    lookup-removed [] k d = refl
    lookup-removed ((j, v) ∷ m) k d = ground (
      arith,
      lookup-cons_some j k (replaced equal (lookup j act) v) (removed act m),
      lookup-removed m k d.1,
      d.0,
      e.same_iff j k,
    )

    pub created-Distinct : (m : Dict K V) → Distinct m → Distinct (created act m)
    unfolding created lookup
    created-Distinct [] d = tt
    created-Distinct ((j, v) ∷ m) d =
        cons_some-Distinct j _ (created act m) (ground (arith, lookup-created m j d.1, d.0))
          (created-Distinct m d.1)

    pub removed-Distinct : (m : Dict K V) → Distinct m → Distinct (removed act m)
    unfolding removed lookup
    removed-Distinct [] d = tt
    removed-Distinct ((j, v) ∷ m) d =
        cons_some-Distinct j _ (removed act m) (ground (arith, lookup-removed m j d.1, d.0))
          (removed-Distinct m d.1)
