-- ===== src/Vxlan/Ensure.antt =====
-- What `EnsureCIDRs` of pkg/routing/vxlan2/vxlan2routing.go makes of the kernel's neighbours and
-- routes.
use networking.Prelude.{
  ℕ, true, false, Option, none, some, List, [], ◌∷◌, map, In, String, ok, string_eq, nat_eq, ◌≡◌,
  ◌≢◌, arith, refl, ap, subst, ◌∙◌,
}
use networking.Prelude.Dict.{lookup, Distinct}
use networking.Net.{Ip, IpNet}
use networking.Netlink.{Route, Neigh, Link}
use networking.Netutil.Kernel.{Adds, Dels, Sets}
use networking.Netutil.Frame.{routes_ensure-Keeps}
use networking.Netutil.Routes.Planning
use networking.Netutil.Routes.Ensure
use networking.Netutil.Neighbours.{index_neighs}
use networking.Netutil.Neighbours.Ensure as NeighEnsure
use networking.Nodes.Info.{NodeInfo}
use networking.Nodes.Map.{NodeMap, is_version, snapshot}
use networking.Providers.Peers.{Peer, peers, is_applied}
use networking.Providers.Routed.{Routed, routes_by_text, peers-Routed_exactly}
use networking.Vxlan.Link.{Environment, VxlanRoutingProvider, local_node}
use networking.Vxlan.Current.{
  overlay_route, peer_neighs, peer_routes, obtain_link, apply_tables, with_link, apply_node,
  ensure_cidrs,
}

module _ {W : Type 0} (e : Environment W) where
  pub peer_routes-map : (i : ℕ) (ps : List Peer) → peer_routes e i ps ≡ map (overlay_route e i) ps
  unfolding peer_routes
  peer_routes-map i [] = refl
  peer_routes-map i (p ∷ ps) = ap (◌∷◌ (overlay_route e i p)) (peer_routes-map i ps)

  pub to_network : (i : ℕ) (p : Peer) → (overlay_route e i p).dst ≡ some p.pod_cidr
  unfolding overlay_route
  to_network i p = refl

  -- A call on routes leaves the neighbours alone.
  pub record Apart (neigh_table : W → String → Option Neigh) : Type 0 where
    pub listed :
        (l : Option Link) (w : W) (k : String)
        → neigh_table (e.routes.route_list l w).1 k ≡ neigh_table w k
    pub added :
        (r : Route) (w : W) (k : String)
        → neigh_table (e.routes.route_add r w).1 k ≡ neigh_table w k
    pub deleted :
        (r : Route) (w : W) (k : String)
        → neigh_table (e.routes.route_del r w).1 k ≡ neigh_table w k

module _ {W : Type 0} (e : Environment W) (l : Link) (route_table : W → String → Option Route)
    (neigh_table : W → String → Option Neigh) where
  -- Both tables are as the peers ask.
  abbrev pub Settled : List Peer → List Neigh → W → W → Type 0
  Settled ps neighs w w' =
      ((q : Peer) → In q ps → Routed e.net_text (overlay_route e l.attrs.index) route_table w' q)
      × ((k : String)
          → lookup k (routes_by_text e.net_text (overlay_route e l.attrs.index) ps) ≡ none
          → route_table w' k ≡ none)
      × ((k : String)
          → neigh_table w' k
            ≡ NeighEnsure.brought (lookup k (index_neighs e.ip_text [] neighs)) (neigh_table w k))

module _ {W : Type 0} (e : Environment W) (l : Link) (route_table : W → String → Option Route)
    (neigh_table : W → String → Option Neigh)
    (routes_listed : Ensure.Lists e.net_text route_table e.routes (some l))
    (adding : Adds route_table (Planning.key e.net_text) e.routes.route_add)
    (deleting : Dels route_table (Planning.key e.net_text) e.routes.route_del)
    (neighs_listed : NeighEnsure.Lists e.ip_text neigh_table e.neighs l)
    (setting : Sets neigh_table (NeighEnsure.key e.ip_text) e.neighs.neigh_set)
    (apart : Apart e neigh_table) where
  pub tables-Settled :
      (ps : List Peer) (neighs : List Neigh) (w : W)
      → peer_neighs e l.attrs.index ps ≡ ok neighs
      → Distinct (routes_by_text e.net_text (overlay_route e l.attrs.index) ps)
      → (w' : W) × (apply_tables e l ps w ≡ (ok tt, w'))
        × Settled e l route_table neigh_table ps neighs w w'
  unfolding apply_tables
  tables-Settled ps neighs w known distinct =
      let (w1, set, brought) =
        NeighEnsure.ensure_brings e.ip_text e.neighs e.range_neighs l neigh_table neighs_listed
          setting neighs w in
      let (w2, routed, there, none_else) =
        peers-Routed_exactly e.net_text (overlay_route e l.attrs.index) (to_network e l.attrs.index)
          e.routes e.range_routes (some l) route_table routes_listed adding deleting ps distinct
          w1 in
      let kept =
        routes_ensure-Keeps (λ w'. (k : String) → neigh_table w' k ≡ neigh_table w1 k) e.net_text
          e.routes e.range_routes (λ o w' h k. apart.listed o w' k ∙ h k)
          (λ r w' h k. apart.added r w' k ∙ h k) (λ r w' h k. apart.deleted r w' k ∙ h k) (some l)
          (map (overlay_route e l.attrs.index) ps) true w1 (λ k. refl) in
      (
        w2,
        rw (known, set, peer_routes-map e l.attrs.index ps, routed) refl,
        (
          there,
          none_else,
          λ k. subst (λ r. neigh_table r.1 k ≡ neigh_table w1 k) routed (kept k) ∙ brought k,
        ),
      )

  -- For a provider that has its device, and a node map that is ready, has moved on and knows the
  -- local node with an address and a network; for peers with IPv4 networks that differ; and on a
  -- kernel whose table of routes and table of neighbours keep one entry for each key, and whose
  -- calls on routes leave the neighbours alone: `EnsureCIDRs` succeeds and remembers the version,
  -- afterwards each peer has its route over the device and the device has no other routes, each
  -- address that a peer's ARP or forwarding entry names has the last such entry, and a second call
  -- with the map as it is does nothing.
  pub ensure_cidrs-Settled :
      (p : VxlanRoutingProvider) (node_map : NodeMap) (me : NodeInfo) (nodes : List NodeInfo)
      (cidr : IpNet) (address : Ip) (neighs : List Neigh) (w : W)
      → p.link ≡ some l
      → snapshot e.range_nodes node_map ≡ (some me, nodes, node_map.version)
      → me.pod_cidr ≡ some cidr
      → me.address ≡ some address
      → is_applied node_map p.last_version_applied ≡ false
      → node_map.version ≢ 0
      → peer_neighs e l.attrs.index (peers me nodes) ≡ ok neighs
      → Distinct (routes_by_text e.net_text (overlay_route e l.attrs.index) (peers me nodes))
      → let p' : VxlanRoutingProvider = record p {
        link = some l;
        last_version_applied = node_map.version;
      } in
        (w' : W) × (ensure_cidrs e p node_map w ≡ (ok tt, p', w'))
        × Settled e l route_table neigh_table (peers me nodes) neighs w w'
        × (ensure_cidrs e p' node_map w' ≡ (ok tt, p', w'))
  unfolding ensure_cidrs apply_node obtain_link with_link local_node is_applied is_version
  ensure_cidrs-Settled p node_map me nodes cidr address neighs w made seen net4 here fresh nonzero
        known distinct =
      let (w', run, settled) = tables-Settled (peers me nodes) neighs w known distinct in
      (w', ground (arith, made, seen, net4, here, fresh, run), settled, ground (arith, nonzero))
