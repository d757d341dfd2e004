-- ===== src/Netutil/Tests/Kernel.antt =====
-- A kernel that keeps a table as a list, newest first, with one entry for each key.
use networking.Prelude.{
  Option, none, some, List, [], ◌∷◌, Exec, errorf, ok, err, if◌then◌else◌, ◌==◌, Eq, ◌≡◌, arith,
  Option-cases, inl, inr,
}
use networking.Netutil.Kernel.{or_else, Adds, Refuses, Dels, Sets}

module _ {K V : Type 0} ⦃eq : Eq K⦄ (key : V → Option K) where
  -- What an entry says of a key.
  unfoldable pub here : V → K → Option V
  here v k = elim (key v) [ none ↦ none | some j ↦ if j == k then some v else none ]

  unfoldable pub table : List V → K → Option V
  table [] k = none
  table (v ∷ w) k = or_else (table w k) (here v k)

  unfoldable pub erase : K → List V → List V
  erase k [] = []
  erase k (v ∷ w) = let rest = erase k w in elim (here v k) [ none ↦ v ∷ rest | some u ↦ rest ]

  abbrev pub add : V → Exec (List V) Unit
  add v w = elim (key v) [
    | none ↦ (err (errorf "invalid argument"), w)
    | some k ↦ elim (table w k) [ none ↦ (ok tt, v ∷ w) | some a ↦ (err (errorf "file exists"), w) ]
  ]

  abbrev pub set : V → Exec (List V) Unit
  set v w = elim (key v) [
    | none ↦ (err (errorf "invalid argument"), w)
    | some k ↦ (ok tt, v ∷ erase k w)
  ]

  abbrev pub del : V → Exec (List V) Unit
  del v w = elim (key v) [
    | none ↦ (err (errorf "invalid argument"), w)
    | some k ↦ elim (table w k) [
      | none ↦ (err (errorf "no such entry"), w)
      | some a ↦ (ok tt, erase k w)
    ]
  ]

  table-erase : (k j : K) (w : List V) → table (erase k w) j ≡ (if k == j then none else table w j)
  unfolding table erase here
  table-erase k j [] = ground arith
  table-erase k j (v ∷ w) = elim (Option-cases (key v)) [
    | inl e ↦ ground (arith, e, table-erase k j w)
    | inr (i, e) ↦
        ground (arith, e, table-erase k j w, eq.same_iff i k, eq.same_iff i j, eq.same_iff k j)
  ]

  pub add-Adds : Adds table key add
  unfolding table here
  add-Adds = record {
    adds = λ w v k h f. (v ∷ w, ground (arith, h, f), λ j. ground (arith, h, f, eq.same_iff k j));
  }

  pub add-Refuses : Refuses table key add
  add-Refuses = record { refuses = λ w v a k h f. (errorf "file exists", ground (arith, h, f)) }

  pub del-Dels : Dels table key del
  del-Dels = record {
    dels = λ w v a k h f. (erase k w, ground (arith, h, f), λ j. table-erase k j w);
  }

  pub set-Sets : Sets table key set
  unfolding table here
  set-Sets = record {
    sets = λ w v k h. (
      v ∷ erase k w,
      ground (arith, h),
      λ j. ground (arith, h, table-erase k j w, eq.same_iff k j),
    );
  }

  abbrev pub update : V → Exec (List V) Unit
  update v w = elim (key v) [
    | none ↦ (err (errorf "invalid argument"), w)
    | some k ↦ elim (table w k) [
      | none ↦ (err (errorf "no such entry"), w)
      | some a ↦ (ok tt, v ∷ erase k w)
    ]
  ]
