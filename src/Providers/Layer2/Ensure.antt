-- ===== src/Providers/Layer2/Ensure.antt =====
-- What `EnsureCIDRs` of pkg/routing/layer2/provider.go makes of the kernel's routes.
use networking.Prelude.{
  ℕ, false, Option, none, some, List, In, String, ok, string_eq, nat_eq, ◌≡◌, ◌≢◌, arith, refl,
}
use networking.Prelude.Dict.{lookup, Distinct, RangeOrder}
use networking.Net.{IpNet}
use networking.Netlink.{Route, RouteCalls}
use networking.Netutil.Kernel.{Adds}
use networking.Netutil.Routes.Planning.{key}
use networking.Netutil.Routes.Ensure.{Lists}
use networking.Netutil.Routes.Equality.{Leads, route_equal-Leads}
use networking.Netutil.Routes.Additive.{Compatible}
use networking.Nodes.Info.{NodeInfo}
use networking.Nodes.Map.{NodeMap, is_version, snapshot}
use networking.Providers.Peers.{Peer, peers, is_applied}
use networking.Providers.Routed.{routes_by_text, peers-Routed}
use networking.Providers.Layer2.{
  Layer2RoutingProvider, route_via, peer_routes, apply_nodes, ensure_cidrs,
}

to_network : (i : ℕ) (p : Peer) → (route_via i p).dst ≡ some p.pod_cidr
unfolding route_via
to_network i p = refl

via_address : (i : ℕ) (q : Peer) → Leads i q.pod_cidr (some q.address) 0 (route_via i q)
unfolding route_via
via_address i q = (refl, refl, refl, refl, refl, refl, refl)

module _ {W : Type 0} (text : IpNet → String) (calls : RouteCalls W)
    (order : RangeOrder String Route) (range_nodes : RangeOrder String ℕ)
    (table : W → String → Option Route) (listing : Lists text table calls none)
    (adding : Adds table (key text) calls.route_add) (p : Layer2RoutingProvider)
    (node_map : NodeMap) (me : NodeInfo) (nodes : List NodeInfo)
    (seen : snapshot range_nodes node_map ≡ (some me, nodes, node_map.version)) where
  abbrev pub index : ℕ
  index = p.underlying_link.attrs.index

  abbrev pub up_to_date : Layer2RoutingProvider
  up_to_date = record p { last_version_applied = node_map.version }

  -- On a kernel that lists its routes and accepts a route for a network that has none, for a map
  -- that is ready and has moved on, and for peers whose networks differ and have no other routes:
  -- `EnsureCIDRs` succeeds and remembers the version, every other node with an address and a pod
  -- network then has a unicast route of the main table to that network, over the underlying link and
  -- with that address as its gateway, all other networks keep their routes, and a second call with
  -- the map as it is makes no call to the kernel.
  pub ensure_cidrs_lem :
      (w : W)
      → is_applied node_map p.last_version_applied ≡ false
      → node_map.version ≢ 0
      → Distinct (routes_by_text text (route_via index) (peers me nodes))
      → Compatible table (routes_by_text text (route_via index) (peers me nodes)) w
      → (w' : W) × (ensure_cidrs text calls order range_nodes p node_map w ≡ (ok up_to_date, w'))
        × ((q : Peer)
            → In q (peers me nodes)
            → (r : Route) × (table w' (text q.pod_cidr) ≡ some r)
              × Leads index q.pod_cidr (some q.address) 0 r)
        × ((k : String)
            → lookup k (routes_by_text text (route_via index) (peers me nodes)) ≡ none
            → table w' k ≡ table w k)
        × (ensure_cidrs text calls order range_nodes up_to_date node_map w' ≡ (ok up_to_date, w'))
  unfolding ensure_cidrs apply_nodes peer_routes is_applied is_version
  ensure_cidrs_lem w fresh nonzero distinct fits =
      let (w', run, routed, rest) =
        peers-Routed text (route_via index) (to_network index) calls order none table listing adding
          (peers me nodes) distinct w fits in
      (
        w',
        ground (arith, fresh, seen, run),
        λ q i.
            let (r, held, good) = routed q i in
            (
              r,
              held,
              route_equal-Leads index q.pod_cidr (some q.address) 0 r _ good (via_address index q),
            ),
        rest,
        ground (arith, nonzero),
      )
