-- ===== src/Vxlan/Reached.antt =====
-- How the peers are reached after `EnsureCIDRs` of pkg/routing/vxlan2/vxlan2routing.go.
use networking.Prelude.{
  ℕ, false, Option, none, some, List, In, String, ok, string_eq, nat_eq, ◌≡◌, ◌≢◌, refl, ap, ◌∙◌,
}
use networking.Prelude.Dict.{lookup, Distinct}
use networking.Net.{Ip, IpNet, to4}
use networking.Netlink.{Route, Neigh, Link}
use networking.Netutil.Kernel.{Adds, Dels, Sets, values}
use networking.Netutil.Diff.{settled}
use networking.Netutil.Routes.Equality.{Leads, route_equal-Leads}
use networking.Netutil.Routes.Planning
use networking.Netutil.Routes.Ensure
use networking.Netutil.Neighbours.{neigh_equal}
use networking.Netutil.Neighbours.Ensure as NeighEnsure
use networking.Netutil.Neighbours.Brought.{Says, settled-Says, lookup-index_neighs}
use networking.Nodes.Info.{NodeInfo}
use networking.Nodes.Map.{NodeMap, snapshot}
use networking.Providers.Peers.{Peer, peers, is_applied}
use networking.Providers.Gre.Tunnels.{
  peers_by_text, routes_by_text-Distinct, lookup-routes_by_text-none,
}
use networking.Vxlan.{mac_for}
use networking.Vxlan.Link.{Environment, VxlanRoutingProvider}
use networking.Vxlan.Current.{arp_entry, fdb_entry, overlay_route, ensure_cidrs}
use networking.Vxlan.Ensure.{Apart, Settled, ensure_cidrs-Settled}
use networking.Vxlan.Entries.{
  over_device, neighs_by_text, peer_neighs_lem, neighs_by_text-Keys, lookup-neighs_by_text,
}

module _ {W : Type 0} (e : Environment W) (i : ℕ) (route_table : W → String → Option Route)
    (neigh_table : W → String → Option Neigh) where
  -- A peer's network has a route over the device, through the address of the peer's own device; that
  -- address has the hardware address that is made of it; and that has the peer's node as its target.
  abbrev pub Reached : W → Peer → Type 0
  Reached w' q =
      ((r : Route) × (route_table w' (e.net_text q.pod_cidr) ≡ some r)
        × Leads i q.pod_cidr (some q.pod_cidr.ip) 4 r)
      × ((n : Neigh) × (neigh_table w' (e.ip_text q.pod_cidr.ip) ≡ some n)
          × Says i e.constants.family_v4 e.constants.nud_permanent 1 0 q.pod_cidr.ip
              (mac_for q.pod_cidr.ip) n)
      × ((n : Neigh) × (neigh_table w' (e.ip_text q.address) ≡ some n)
          × Says i 7 e.constants.nud_permanent 0 e.constants.ntf_self q.address
              (mac_for q.pod_cidr.ip) n)

module _ {W : Type 0} (e : Environment W) (l : Link) (route_table : W → String → Option Route)
    (neigh_table : W → String → Option Neigh) where
  Settled-Reached :
      (ps : List Peer) (w w' : W)
      → Settled e l route_table neigh_table ps (values (neighs_by_text e l.attrs.index ps)) w w'
      → Distinct (neighs_by_text e l.attrs.index ps)
      → ((q : Peer) → In q ps → Reached e l.attrs.index route_table neigh_table w' q)
        × ((k : String)
            → lookup k (neighs_by_text e l.attrs.index ps) ≡ none
            → neigh_table w' k ≡ neigh_table w k)
  unfolding arp_entry fdb_entry
  Settled-Reached ps w w' (routed, rest, brought) d =
      let i = l.attrs.index in
      let keys = neighs_by_text-Keys e i ps in
      let now = λ (k : String).
        brought k
        ∙ ap (λ o. NeighEnsure.brought o (neigh_table w k))
            (lookup-index_neighs e.ip_text (neighs_by_text e i ps) k d keys) in
      (
        λ q h.
            let (r, there, good) = routed q h in
            let (arp, fdb) = lookup-neighs_by_text e i ps q d h in
            (
              (
                r,
                there,
                route_equal-Leads i q.pod_cidr (some q.pod_cidr.ip) 4 r (overlay_route e i q) good
                    (over_device e i q),
              ),
              (
                settled neigh_equal (neigh_table w (e.ip_text q.pod_cidr.ip))
                    (arp_entry e i q (mac_for q.pod_cidr.ip)),
                now (e.ip_text q.pod_cidr.ip)
                    ∙ ap (λ o. NeighEnsure.brought o (neigh_table w (e.ip_text q.pod_cidr.ip))) arp,
                settled-Says i e.constants.family_v4 e.constants.nud_permanent 1 0 q.pod_cidr.ip
                    (mac_for q.pod_cidr.ip) _ _ (refl, refl, refl, refl, refl, refl, refl),
              ),
              (
                settled neigh_equal (neigh_table w (e.ip_text q.address))
                    (fdb_entry e i q (mac_for q.pod_cidr.ip)),
                now (e.ip_text q.address)
                    ∙ ap (λ o. NeighEnsure.brought o (neigh_table w (e.ip_text q.address))) fdb,
                settled-Says i 7 e.constants.nud_permanent 0 e.constants.ntf_self q.address
                    (mac_for q.pod_cidr.ip) _ _ (refl, refl, refl, refl, refl, refl, refl),
              ),
            ),
        λ k h. now k ∙ ap (λ o. NeighEnsure.brought o (neigh_table w k)) h,
      )

module _ {W : Type 0} (e : Environment W) (l : Link) (route_table : W → String → Option Route)
    (neigh_table : W → String → Option Neigh)
    (routes_listed : Ensure.Lists e.net_text route_table e.routes (some l))
    (adding : Adds route_table (Planning.key e.net_text) e.routes.route_add)
    (deleting : Dels route_table (Planning.key e.net_text) e.routes.route_del)
    (neighs_listed : NeighEnsure.Lists e.ip_text neigh_table e.neighs l)
    (setting : Sets neigh_table (NeighEnsure.key e.ip_text) e.neighs.neigh_set)
    (apart : Apart e neigh_table) where
  -- For a provider that has its device, and a node map that is ready, has moved on and knows the
  -- local node with an address and a network; for peers with IPv4 networks that differ, where no two
  -- of the addresses of nodes and networks are the same; and on a kernel whose table of routes and
  -- table of neighbours keep one entry for each key, and whose calls on routes leave the neighbours
  -- alone: `EnsureCIDRs` succeeds and remembers the version. Afterwards each peer's network has a
  -- unicast route of the main table over the device, flagged as on-link, through the network's own
  -- address; the device has no other routes; that address has a permanent ARP entry on the device
  -- with the hardware address 00:53 and its four bytes; the peer's node address has a permanent
  -- forwarding entry on the device with the same hardware address; and other neighbours stay as they
  -- were. A second call with the map as it is does nothing.
  pub ensure_cidrs-Reached :
      (p : VxlanRoutingProvider) (node_map : NodeMap) (me : NodeInfo) (nodes : List NodeInfo)
      (cidr : IpNet) (address : Ip) (w : W)
      → p.link ≡ some l
      → snapshot e.range_nodes node_map ≡ (some me, nodes, node_map.version)
      → me.pod_cidr ≡ some cidr
      → me.address ≡ some address
      → is_applied node_map p.last_version_applied ≡ false
      → node_map.version ≢ 0
      → ((q : Peer) → In q (peers me nodes) → to4 q.pod_cidr.ip ≢ none)
      → Distinct (peers_by_text e.net_text (peers me nodes))
      → Distinct (neighs_by_text e l.attrs.index (peers me nodes))
      → let p' : VxlanRoutingProvider = record p {
        link = some l;
        last_version_applied = node_map.version;
      } in
        (w' : W) × (ensure_cidrs e p node_map w ≡ (ok tt, p', w'))
        × ((q : Peer)
            → In q (peers me nodes)
            → Reached e l.attrs.index route_table neigh_table w' q)
        × ((k : String)
            → lookup k (peers_by_text e.net_text (peers me nodes)) ≡ none
            → route_table w' k ≡ none)
        × ((k : String)
            → lookup k (neighs_by_text e l.attrs.index (peers me nodes)) ≡ none
            → neigh_table w' k ≡ neigh_table w k)
        × (ensure_cidrs e p' node_map w' ≡ (ok tt, p', w'))
  ensure_cidrs-Reached p node_map me nodes cidr address w made seen net4 here fresh nonzero v4
        networks addresses =
      let i = l.attrs.index in
      let ps = peers me nodes in
      let (w', run, settled_both, again) =
        ensure_cidrs-Settled e l route_table neigh_table routes_listed adding deleting neighs_listed
          setting apart p node_map me nodes cidr address (values (neighs_by_text e i ps)) w made
          seen net4 here fresh nonzero (peer_neighs_lem e i ps v4)
          (routes_by_text-Distinct e.net_text (overlay_route e i) ps networks) in
      let (reached, others) =
        Settled-Reached e l route_table neigh_table ps w w' settled_both addresses in
      (
        w',
        run,
        reached,
        λ k h. settled_both.1 k (lookup-routes_by_text-none e.net_text (overlay_route e i) ps k h),
        others,
        again,
      )
