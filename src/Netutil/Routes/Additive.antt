-- ===== src/Netutil/Routes/Additive.antt =====
-- `RouteTable.Ensure` without `deleteExtraRoutes`, and where nothing is left to do.
use networking.Prelude.{
  Bool, true, false, Option, none, some, [], ◌∷◌, String, ok, for_each, string_eq, ◌≡◌, arith, refl,
  ◌∙◌, Option-cases, Bool-cases, inl, inr,
}
use networking.Prelude.Dict.{Dict, lookup, Distinct, RangeOrder}
use networking.Net.{IpNet}
use networking.Netlink.{Route, Link, RouteCalls}
use networking.Netutil.Kernel.{values, Keys, lookup-cons, Adds, Adds-context, for_each-add}
use networking.Netutil.Diff.{
  settled, created, removed, lookup-created, lookup-removed, created-Distinct,
}
use networking.Netutil.Routes.{route_equal, index_actual, ensure}
use networking.Netutil.Routes.Planning.{key}
use networking.Netutil.Routes.Ensure.{Lists, ensure_run, create_run, extras, lookup-extras}

-- A table without entries has none to go through.
nothing_held : {V : Type 0} (m : Dict String V) → ((k : String) → lookup k m ≡ none) → m ≡ []
nothing_held [] h = refl
nothing_held ((k, v) ∷ m) h = cc (lookup-cons k v m, h k)

-- The expected routes that are there already are as good as those.
abbrev pub Compatible : {W : Type 0} → (W → String → Option Route) → Dict String Route → W → Type 0
Compatible table expected w =
    (k : String) (e a : Route)
    → lookup k expected ≡ some e
    → table w k ≡ some a
    → route_equal a e ≡ true

-- What an addition leaves of a destination: its own route, or what was there.
abbrev pub added : Option Route → Option Route → Option Route
added none held = held
added (some e) held = some (settled route_equal held e)

module _ {W : Type 0} (text : IpNet → String) (calls : RouteCalls W)
    (order : RangeOrder String Route) (link : Option Link) (table : W → String → Option Route)
    (listing : Lists text table calls link) (expected : Dict String Route)
    (distinct : Distinct expected) (keys : Keys (key text) expected) where
  -- Without `deleteExtraRoutes`, on a kernel that lists its routes and accepts a route for a
  -- destination that has none, for expected routes of distinct destinations, none of which has
  -- another route: `Ensure` succeeds, afterwards every expected destination has its route, and
  -- every other destination keeps what it had.
  pub ensure_extends :
      Adds table (key text) calls.route_add
      → (w : W) → Compatible table expected w
      → (w' : W) × (ensure text calls order link (values expected) false w ≡ (ok tt, w'))
        × ((k : String) → table w' k ≡ added (lookup k expected) (table w k))
  ensure_extends adding w fits =
      let (l, run, read) = listing.lists w in
      let act = index_actual text [] l in
      let (w', ran, t) =
        for_each-add table (key text) _
          (Adds-context table (key text) "error creating route" calls.route_add adding)
          (created route_equal act expected) w
          (λ k v p. ground (arith, lookup-created route_equal act expected k distinct, keys k v, p))
          (created-Distinct route_equal act expected distinct)
          (λ k v p. elim (Option-cases (table w k)) [
            | inl e ↦ e
            | inr (a, e) ↦ ground (
              arith,
              lookup-created route_equal act expected k distinct,
              read k,
              e,
              fits k v a,
              p,
            )
          ]) in
      (
        w',
        create_run text calls order link expected distinct keys w l run ∙ ran,
        λ k. elim (Option-cases (lookup k expected)) [
          | inl q ↦ ground (arith, lookup-created route_equal act expected k distinct, t k, q)
          | inr (e, q) ↦ elim (Option-cases (table w k)) [
            | inl r ↦
                ground
                  (arith, lookup-created route_equal act expected k distinct, read k, t k, q, r)
            | inr (a, r) ↦ ground (
              arith,
              lookup-created route_equal act expected k distinct,
              read k,
              t k,
              q,
              r,
              fits k e a,
            )
          ]
        ],
      )

  -- Where the kernel has a route as good as the expected one for every expected destination, and
  -- no others if these would be deleted, `Ensure` changes nothing.
  pub ensure_again :
      (b : Bool) (w : W)
      → ((k : String) (e : Route)
          → lookup k expected ≡ some e
          → (a : Route) × (table w k ≡ some a) × (route_equal a e ≡ true))
      → ((k : String) → b ≡ true → lookup k expected ≡ none → table w k ≡ none)
      → ensure text calls order link (values expected) b w ≡ (ok tt, w)
  unfolding for_each
  ensure_again b w there others =
      let (l, run, read) = listing.lists w in
      let act = index_actual text [] l in
      let no_creation = nothing_held (created route_equal act expected) (λ k.
        elim (Option-cases (lookup k expected)) [
          | inl q ↦ ground (arith, lookup-created route_equal act expected k distinct, q)
          | inr (e, q) ↦
              let (a, held, same) = there k e q in
              ground
                (arith, lookup-created route_equal act expected k distinct, q, held, same, read k)
        ]) in
      let no_removal = nothing_held (removed route_equal act expected) (λ k.
        elim (Option-cases (lookup k expected)) [
          | inl q ↦ ground (arith, lookup-removed route_equal act expected k distinct, q)
          | inr (e, q) ↦
              let (a, held, same) = there k e q in
              ground
                (arith, lookup-removed route_equal act expected k distinct, q, held, same, read k)
        ]) in
      elim (Bool-cases b) [
        | inr off ↦
            rw off (
              create_run text calls order link expected distinct keys w l run ∙ rw no_creation refl)
        | inl on ↦
            let no_extra =
              nothing_held (extras text calls order link expected distinct keys w l run) (λ k.
                ground (
                  arith,
                  lookup-extras text calls order link expected distinct keys w l run k,
                  others k on,
                  read k,
                )) in
            rw on (
              ensure_run text calls order link expected distinct keys w l run
              ∙ rw (no_removal, no_extra, no_creation) refl)
      ]
