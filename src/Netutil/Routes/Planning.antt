-- ===== src/Netutil/Routes/Planning.antt =====
-- What the loops of `RouteTable.Ensure` compute, as differences of maps.
use networking.Prelude.{
  Option, none, some, List, [], ◌∷◌, String, ok, string_eq, ◌≡◌, arith, refl, Option-cases, inl,
  inr,
}
use networking.Prelude.Dict.{Dict, insert, lookup-insert, insert-Distinct, Distinct}
use networking.Net.{IpNet}
use networking.Netlink.{Route}
use networking.Netutil.Kernel.{values, Keys, Keys-tail, lookup-cons}
use networking.Netutil.Diff.{created, removed, missing, insert_all}
use networking.Netutil.Routes.{
  route_equal, index_route, index_actual, compare_route, plan_expected, extra,
}

-- The text that a route is kept under: that of its destination.
abbrev pub key : (IpNet → String) → Route → Option String
key text r = elim r.dst [ none ↦ none | some d ↦ some (text d) ]

module _ (text : IpNet → String) where
  index_route-Distinct :
      (m : Dict String Route) (a : Route) → Distinct m → Distinct (index_route text m a)
  unfolding index_route
  index_route-Distinct m a d =
      elim a.dst as (λ o. Distinct (elim o [ none ↦ m | some c ↦ insert (text c) a m ])) [
        | none ↦ d
        | some c ↦ insert-Distinct (text c) a m d
      ]

  index_route-Keys :
      (m : Dict String Route) (a : Route)
      → Keys (key text) m
      → Keys (key text) (index_route text m a)
  unfolding index_route
  index_route-Keys m a h k v p = elim (Option-cases a.dst) [
    | inl e ↦ h k v (rw (e, index_route) at p)
    | inr (c, e) ↦
        ground (arith, lookup-insert (text c) k a m, string_eq.same_iff (text c) k, h k v)
  ]

  pub index_actual-Distinct :
      (m : Dict String Route) (l : List Route) → Distinct m → Distinct (index_actual text m l)
  unfolding index_actual
  index_actual-Distinct m [] d = d
  index_actual-Distinct m (a ∷ rest) d =
      index_actual-Distinct (index_route text m a) rest (index_route-Distinct m a d)

  pub index_actual-Keys :
      (m : Dict String Route) (l : List Route)
      → Keys (key text) m
      → Keys (key text) (index_actual text m l)
  unfolding index_actual
  index_actual-Keys m [] h = h
  index_actual-Keys m (a ∷ rest) h =
      index_actual-Keys (index_route text m a) rest (index_route-Keys m a h)

  -- The plan for expected routes with destinations of distinct texts.
  pub plan_expected_lem :
      (act m expected : Dict String Route)
      → Distinct expected
      → Keys (key text) expected
      → plan_expected text act m (values expected)
        ≡ ok (record {
          expected_map = insert_all m expected;
          create = values (created route_equal act expected);
          remove = values (removed route_equal act expected);
        })
  unfolding plan_expected compare_route insert_all created removed
  plan_expected_lem act m [] d h = refl
  plan_expected_lem act m ((k, e) ∷ rest) d h = elim (Option-cases e.dst) [
    | inl q ↦ cc (h k e (lookup-cons k e rest))
    | inr (c, q) ↦ ground (
      arith,
      h k e (lookup-cons k e rest),
      plan_expected_lem act (insert k e m) rest d.1 (Keys-tail (key text) k e rest d h),
    )
  ]

  pub extra_lem : (m act : Dict String Route) → extra text m act ≡ values (missing act m)
  unfolding extra missing
  extra_lem m [] = refl
  extra_lem m ((k, a) ∷ act) = ground (arith, extra_lem m act)
