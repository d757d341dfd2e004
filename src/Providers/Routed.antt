-- ===== src/Providers/Routed.antt =====
-- One route for each peer, in the kernel's table of routes.
use networking.Prelude.{
  true, false, Option, none, some, List, [], ◌∷◌, map, In, String, ok, string_eq, ◌≡◌, arith, refl,
  ap, subst, ◌∙◌, Bool-cases, inl, inr,
}
use networking.Prelude.Dict.{Dict, lookup, Distinct, RangeOrder}
use networking.Net.{IpNet}
use networking.Netlink.{Route, Link, RouteCalls}
use networking.Netutil.Kernel.{Dels, values, Keys, lookup-cons, Adds}
use networking.Netutil.Diff.{settled, when_some}
use networking.Netutil.Routes.{route_equal, ensure}
use networking.Netutil.Routes.Planning.{key}
use networking.Netutil.Routes.Equality.{route_equal_refl}
use networking.Netutil.Routes.Ensure.{Lists, ensure_exact}
use networking.Netutil.Routes.Additive.{Compatible, added, ensure_extends}
use networking.Providers.Peers.{Peer}

-- What an expected route becomes is as good as the route.
pub settled_good :
    (held : Option Route) (e : Route) → route_equal (settled route_equal held e) e ≡ true
settled_good none e = route_equal_refl e
settled_good (some a) e = elim (Bool-cases (route_equal a e)) [
  | inl q ↦ ground (arith, q)
  | inr q ↦ ground (arith, q, route_equal_refl e)
]

module _ (text : IpNet → String) (make : Peer → Route) where
  -- The routes by the texts of their networks.
  unfoldable pub routes_by_text : List Peer → Dict String Route
  routes_by_text [] = []
  routes_by_text (p ∷ ps) = (text p.pod_cidr, make p) ∷ routes_by_text ps

  pub values-routes_by_text : (ps : List Peer) → values (routes_by_text ps) ≡ map make ps
  unfolding routes_by_text
  values-routes_by_text [] = refl
  values-routes_by_text (p ∷ ps) = ap (◌∷◌ (make p)) (values-routes_by_text ps)

  -- The entry of a peer, if no two peers share a text.
  pub lookup-routes_by_text :
      (ps : List Peer) (p : Peer)
      → Distinct (routes_by_text ps)
      → In p ps
      → lookup (text p.pod_cidr) (routes_by_text ps) ≡ some (make p)
  unfolding routes_by_text lookup
  lookup-routes_by_text [] p d h = absurd h
  lookup-routes_by_text (q ∷ ps) p d (inl e) =
      subst (λ x. lookup (text x.pod_cidr) (routes_by_text (q ∷ ps)) ≡ some (make x)) e
        (lookup-cons (text q.pod_cidr) (make q) (routes_by_text ps))
  lookup-routes_by_text (q ∷ ps) p d (inr h) = ground (
    arith,
    lookup-routes_by_text ps p d.1 h,
    d.0,
    string_eq.same_iff (text q.pod_cidr) (text p.pod_cidr),
  )

  -- The kernel holds a route as good as that of the peer.
  abbrev pub Routed : {W : Type 0} → (W → String → Option Route) → W → Peer → Type 0
  Routed table w p =
      (r : Route) × (table w (text p.pod_cidr) ≡ some r) × (route_equal r (make p) ≡ true)

  pub routes_by_text-Keys :
      ((p : Peer) → (make p).dst ≡ some p.pod_cidr)
      → (ps : List Peer) → Keys (key text) (routes_by_text ps)
  unfolding routes_by_text lookup
  routes_by_text-Keys to_network [] k v h = absurd (ground (arith, h))
  routes_by_text-Keys to_network (p ∷ ps) k v h = ground (
    arith,
    to_network p,
    string_eq.same_iff (text p.pod_cidr) k,
    routes_by_text-Keys to_network ps k v,
    h,
  )

module _ {W : Type 0} (text : IpNet → String) (make : Peer → Route)
    (to_network : (p : Peer) → (make p).dst ≡ some p.pod_cidr) (calls : RouteCalls W)
    (order : RangeOrder String Route) (link : Option Link) (table : W → String → Option Route)
    (listing : Lists text table calls link) (adding : Adds table (key text) calls.route_add)
    (ps : List Peer) (distinct : Distinct (routes_by_text text make ps)) (w : W)
    (fits : Compatible table (routes_by_text text make ps) w) where
  -- `Ensure` without deletion leaves a route to each peer, and the routes to no peer alone.
  pub peers-Routed :
      (w' : W) × (ensure text calls order link (map make ps) false w ≡ (ok tt, w'))
      × ((p : Peer) → In p ps → Routed text make table w' p)
      × ((k : String) → lookup k (routes_by_text text make ps) ≡ none → table w' k ≡ table w k)
  peers-Routed =
      let (w', run, t) =
        ensure_extends text calls order link table listing (routes_by_text text make ps) distinct
          (routes_by_text-Keys text make to_network ps) adding w fits in
      (
        w',
        subst (λ l. ensure text calls order link l false w ≡ (ok tt, w'))
            (values-routes_by_text text make ps) run,
        λ p h.
            let k = text p.pod_cidr in
            let mine = lookup-routes_by_text text make ps p distinct h in
            (
              settled route_equal (table w k) (make p),
              t k ∙ ap (λ o. added o (table w k)) mine,
              settled_good (table w k) (make p),
            ),
        λ k h. t k ∙ ap (λ o. added o (table w k)) h,
      )

-- The same with deletion: the routes of the link are those to the peers, and no others.
module _ {W : Type 0} (text : IpNet → String) (make : Peer → Route)
    (to_network : (p : Peer) → (make p).dst ≡ some p.pod_cidr) (calls : RouteCalls W)
    (order : RangeOrder String Route) (link : Option Link) (table : W → String → Option Route)
    (listing : Lists text table calls link) (adding : Adds table (key text) calls.route_add)
    (deleting : Dels table (key text) calls.route_del) (ps : List Peer)
    (distinct : Distinct (routes_by_text text make ps)) (w : W) where
  pub peers-Routed_exactly :
      (w' : W) × (ensure text calls order link (map make ps) true w ≡ (ok tt, w'))
      × ((p : Peer) → In p ps → Routed text make table w' p)
      × ((k : String) → lookup k (routes_by_text text make ps) ≡ none → table w' k ≡ none)
  peers-Routed_exactly =
      let (w', run, t) =
        ensure_exact text calls order link table listing adding deleting
          (routes_by_text text make ps) distinct (routes_by_text-Keys text make to_network ps) w in
      (
        w',
        subst (λ l. ensure text calls order link l true w ≡ (ok tt, w'))
            (values-routes_by_text text make ps) run,
        λ p h.
            let k = text p.pod_cidr in
            let mine = lookup-routes_by_text text make ps p distinct h in
            (
              settled route_equal (table w k) (make p),
              t k ∙ ap (λ o. when_some o (λ e. some (settled route_equal (table w k) e))) mine,
              settled_good (table w k) (make p),
            ),
        λ k h. t k ∙ ap (λ o. when_some o (λ e. some (settled route_equal (table w k) e))) h,
      )
