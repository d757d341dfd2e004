-- ===== src/Netutil/Sync.antt =====
-- Deleting what differs and what is not expected, and then creating what is missing, brings a
-- table of the kernel to the expected content.
use networking.Prelude.{
  Bool, Option, none, some, ◌++◌, Eq, if◌then◌else◌, is_some, ◌≡◌, arith, Exec, ok, for_each, ◌>>◌,
  seq_ok,
}
use networking.Prelude.Dict.{Dict, lookup, Distinct}
use networking.Netutil.Kernel.{values, Keys, Adds, Dels, for_each-add, for_each-del}
use networking.Netutil.Diff.{
  when_some, settled, created, removed, values-append, lookup-append, append-Distinct,
  lookup-created, lookup-removed, created-Distinct, removed-Distinct,
}

module _ {W K V : Type 0} ⦃e : Eq K⦄ (table : W → K → Option V) (key : V → Option K)
    (equal : V → V → Bool) (add del : V → Exec W Unit) (adding : Adds table key add)
    (deleting : Dels table key del) (w : W) (act expected extra : Dict K V)
    (read : (k : K) → lookup k act ≡ table w k) (act_keys : Keys key act)
    (distinct : Distinct expected) (keys : Keys key expected) (extra_distinct : Distinct extra)
    (is_extra : (k : K)
      → lookup k extra ≡ (if is_some (lookup k expected) then none else lookup k act)) where
  all-Keys : Keys key (removed equal act expected ++ extra)
  all-Keys k v p = ground (
    arith,
    lookup-append k (removed equal act expected) extra,
    lookup-removed equal act expected k distinct,
    is_extra k,
    act_keys k v,
    p,
  )

  run :
      (w1 w2 : W)
      → for_each del (values (removed equal act expected ++ extra)) w ≡ (ok tt, w1)
      → for_each add (values (created equal act expected)) w1 ≡ (ok tt, w2)
      → (for_each del (values (removed equal act expected) ++ values extra)
            >> for_each add (values (created equal act expected)))
          w
        ≡ (ok tt, w2)
  run w1 w2 p q =
      seq_ok (for_each del (values (removed equal act expected) ++ values extra))
        (for_each add (values (created equal act expected))) w w1
        (rw (values-append (removed equal act expected) extra) at p) q

  -- The calls succeed, and each key then holds what was expected of it, and nothing if nothing was.
  pub sync :
      (w' : W) × ((for_each del (values (removed equal act expected) ++ values extra)
            >> for_each add (values (created equal act expected)))
          w
        ≡ (ok tt, w'))
      × ((k : K)
          → table w' k ≡ when_some (lookup k expected) (λ v. some (settled equal (lookup k act) v)))
  sync =
      let r = removed equal act expected in
      let c = created equal act expected in
      let gone =
        for_each-del table key del deleting (r ++ extra) w all-Keys
          (append-Distinct r extra (removed-Distinct equal act expected distinct) extra_distinct
            (λ k v p. ground (arith, lookup-removed equal act expected k distinct, is_extra k, p)))
          (λ k v p q. ground (
            arith,
            lookup-append k r extra,
            lookup-removed equal act expected k distinct,
            is_extra k,
            read k,
            p,
            q,
          )) in
      let (w1, run1, t1) = gone in
      let (w2, run2, t2) =
        for_each-add table key add adding c w1
          (λ k v p. ground (arith, lookup-created equal act expected k distinct, keys k v, p))
          (created-Distinct equal act expected distinct)
          (λ k v p. ground (
            arith,
            t1 k,
            lookup-append k r extra,
            lookup-created equal act expected k distinct,
            lookup-removed equal act expected k distinct,
            is_extra k,
            read k,
            p,
          )) in
      (
        w2,
        run w1 w2 run1 run2,
        λ k. ground (
          arith,
          t1 k,
          t2 k,
          lookup-append k r extra,
          lookup-created equal act expected k distinct,
          lookup-removed equal act expected k distinct,
          is_extra k,
          read k,
        ),
      )
