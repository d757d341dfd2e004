-- ===== src/Netutil/Routes/Ensure.antt =====
-- What `RouteTable.Ensure` makes of the kernel's routes.
use networking.Prelude.{
  Bool, true, false, Option, none, some, List, [], ◌++◌, String, Error, ok, err, context, for_each,
  ◌>>◌, string_eq, if◌then◌else◌, is_some, ◌≡◌, arith, refl, ◌∙◌,
}
use networking.Prelude.Dict.{Dict, lookup, Distinct, RangeOrder}
use networking.Net.{IpNet}
use networking.Netlink.{Route, Link, RouteCalls}
use networking.Netutil.Kernel.{
  values, Keys, Adds, Refuses, Dels, Adds-context, Dels-context, Refuses-context, for_each-refused,
}
use networking.Netutil.Diff.{
  when_some, settled, created, removed, missing, insert_all, lookup-insert_all, lookup-missing,
  missing-Distinct, lookup-created, created-Distinct,
}
use networking.Netutil.Sync.{sync}
use networking.Netutil.Routes.{
  Plan, route_equal, index_actual, remove_routes, create_routes, apply_plan, ensure,
}
use networking.Netutil.Routes.Planning.{
  key, index_actual-Distinct, index_actual-Keys, plan_expected_lem, extra_lem,
}

lookup-nil : (k : String) → lookup {V = Route} k [] ≡ none
unfolding lookup
lookup-nil k = refl

none_keyed : (text : IpNet → String) → Keys (key text) []
unfolding lookup
none_keyed text k v p = cc

-- The kernel lists the routes of the table; `link` narrows the table to those of one link.
pub record Lists {W : Type 0} (text : IpNet → String) (table : W → String → Option Route)
    (calls : RouteCalls W) (link : Option Link) : Type 0 where
  pub lists :
      (w : W)
      → (l : List Route) × (calls.route_list link w ≡ (ok l, w))
        × ((k : String) → lookup k (index_actual text [] l) ≡ table w k)

module _ {W : Type 0} (text : IpNet → String) (calls : RouteCalls W)
    (order : RangeOrder String Route) (link : Option Link) (expected : Dict String Route)
    (distinct : Distinct expected) (keys : Keys (key text) expected) (w : W) (l : List Route)
    (run : calls.route_list link w ≡ (ok l, w)) where
  -- The plan that `Ensure` carries out.
  abbrev the_plan : Plan
  the_plan = record {
    expected_map = insert_all [] expected;
    create = values (created route_equal (index_actual text [] l) expected);
    remove = values (removed route_equal (index_actual text [] l) expected);
  }

  ensure_lem :
      (b : Bool)
      → ensure text calls order link (values expected) b w
        ≡ apply_plan text calls order (index_actual text [] l) b the_plan w
  unfolding ensure
  ensure_lem b =
      rw run (rw (plan_expected_lem text (index_actual text [] l) [] expected distinct keys))

  abbrev pub extras : Dict String Route
  extras = missing (order.range (index_actual text [] l)) (insert_all [] expected)

  -- With `deleteExtraRoutes`: first what differs and what is extra goes, then what is missing comes.
  pub ensure_run :
      ensure text calls order link (values expected) true w
      ≡ (for_each
              (λ r. context "error removing route" (calls.route_del r))
              (values (removed route_equal (index_actual text [] l) expected) ++ values extras)
            >> for_each
                (λ r. context "error creating route" (calls.route_add r))
                (values (created route_equal (index_actual text [] l) expected)))
          w
  unfolding apply_plan remove_routes create_routes
  ensure_run =
      ensure_lem true
      ∙ rw (extra_lem text (insert_all [] expected) (order.range (index_actual text [] l)))

  -- Without it, what is missing or differs is created, and nothing goes.
  pub create_run :
      ensure text calls order link (values expected) false w
      ≡ for_each
          (λ r. context "error creating route" (calls.route_add r))
          (values (created route_equal (index_actual text [] l) expected))
          w
  unfolding apply_plan create_routes
  create_run = ensure_lem false

  act-Distinct : Distinct (index_actual text [] l)
  act-Distinct = index_actual-Distinct text [] l tt

  pub lookup-extras :
      (k : String)
      → lookup k extras
        ≡ (if is_some (lookup k expected) then none else lookup k (index_actual text [] l))
  lookup-extras k = ground (
    arith,
    lookup-missing (order.range (index_actual text [] l)) (insert_all [] expected) k
        (order.range-Distinct _ act-Distinct),
    lookup-insert_all k [] expected distinct,
    order.lookup-range k (index_actual text [] l) act-Distinct,
    lookup-nil k,
  )

module _ {W : Type 0} (text : IpNet → String) (calls : RouteCalls W)
    (order : RangeOrder String Route) (link : Option Link) (table : W → String → Option Route)
    (listing : Lists text table calls link) where
  -- With `deleteExtraRoutes`, on a kernel that lists its routes and keeps one for each destination,
  -- and for expected routes of distinct destinations, `Ensure` succeeds, and afterwards each
  -- destination has the route that was expected for it (the one that was there, if that is equal),
  -- and no destination has a route that was not expected.
  pub ensure_exact :
      Adds table (key text) calls.route_add
      → Dels table (key text) calls.route_del
      → (expected : Dict String Route) → Distinct expected
      → Keys (key text) expected
      → (w : W)
      → (w' : W) × (ensure text calls order link (values expected) true w ≡ (ok tt, w'))
        × ((k : String)
            → table w' k
              ≡ when_some (lookup k expected) (λ e. some (settled route_equal (table w k) e)))
  ensure_exact adding deleting expected d h w =
      let (l, run, read) = listing.lists w in
      let act = index_actual text [] l in
      let (w', ran, t) =
        sync table (key text) route_equal _ _
          (Adds-context table (key text) "error creating route" calls.route_add adding)
          (Dels-context table (key text) "error removing route" calls.route_del deleting) w act
          expected (extras text calls order link expected d h w l run) read
          (index_actual-Keys text [] l (none_keyed text)) d h
          (missing-Distinct _ _ (order.range-Distinct _ (index_actual-Distinct text [] l tt)))
          (lookup-extras text calls order link expected d h w l run) in
      (w', ensure_run text calls order link expected d h w l run ∙ ran, λ k. rw (← read k) (t k))

  -- Without `deleteExtraRoutes` a route cannot be changed: for expected routes of distinct
  -- destinations, if one of these destinations has another route, and the kernel lists its routes
  -- and refuses to create a second one for a destination, `Ensure` fails, and the old route stays.
  pub ensure_cannot_change :
      Adds table (key text) calls.route_add
      → Refuses table (key text) calls.route_add
      → (expected : Dict String Route) → Distinct expected
      → Keys (key text) expected
      → (w : W) (k : String) (e a : Route) → lookup k expected ≡ some e
      → table w k ≡ some a
      → route_equal a e ≡ false
      → (x : Error) × (w' : W) × (ensure text calls order link (values expected) false w
          ≡ (err x, w'))
        × (table w' k ≡ some a)
  ensure_cannot_change adding refusing expected d h w k e a p q differs =
      let (l, run, read) = listing.lists w in
      let act = index_actual text [] l in
      let (x, w', ran, t) =
        for_each-refused table (key text) _
          (Adds-context table (key text) "error creating route" calls.route_add adding)
          (Refuses-context table (key text) "error creating route" calls.route_add refusing)
          (created route_equal act expected) w k e a
          (λ j u r. ground (arith, lookup-created route_equal act expected j d, h j u, r))
          (created-Distinct route_equal act expected d)
          (ground (arith, lookup-created route_equal act expected k d, p, read k, q, differs)) q in
      (x, w', create_run text calls order link expected d h w l run ∙ ran, t)
