-- ===== src/Vxlan/Overlay.antt =====
-- What `EnsureCIDRs` of pkg/routing/vxlan/vxlanrouting.go makes of the kernel's neighbours and
-- routes once the provider has its device.
use networking.Prelude.{
  ℕ, In, inl, inr, ap, Result, true, false, Option, none, some, List, [], ◌∷◌, String, ok,
  string_eq, nat_eq, ◌≡◌, ◌≢◌, arith, refl, subst, ◌∙◌,
}
use networking.Prelude.Dict.{Dict, lookup, Distinct}
use networking.Net.{Ip, IpNet, to4}
use networking.Netlink.{Route, Neigh, Link}
use networking.Netutil.Kernel.{Adds, Dels, Sets, Keys, values, lookup-cons}
use networking.Netutil.Diff.{settled}
use networking.Netutil.Frame.{routes_ensure-Keeps}
use networking.Netutil.Routes.{route_equal}
use networking.Netutil.Routes.Planning
use networking.Netutil.Routes.Ensure
use networking.Netutil.Neighbours.Ensure as NeighEnsure
use networking.Nodes.Info.{NodeInfo}
use networking.Nodes.Map.{NodeMap, is_version, snapshot}
use networking.Providers.Peers.{Peer, peers, is_applied}
use networking.Providers.Routed.{settled_good}
use networking.Vxlan.Link.{Environment, VxlanRoutingProvider, local_node}
use networking.Vxlan.Legacy.{
  Watching, overlay_route, fdb_entry, peer_neighs, apply_tables, with_link, apply_node,
  ensure_cidrs,
}
use networking.Vxlan.Ensure.{Apart}
use networking.Vxlan.{mac_for, map_to_mac-mac_for}
use networking.Netutil.Neighbours.{neigh_equal}
use networking.Netutil.Neighbours.Brought.{Says, settled-Says, ensure_brings_all}
use networking.Netutil.Routes.Equality.{Leads, route_equal-Leads}

module _ {W : Type 0} (e : Environment W) (watching : Watching W) (i : ℕ) where
  -- The forwarding entries of the peers, under the texts of their addresses.
  unfoldable pub forwarding : List Peer → Dict String Neigh
  forwarding [] = []
  forwarding (p ∷ ps) =
      (e.ip_text p.address, fdb_entry e watching i p (mac_for p.pod_cidr.ip)) ∷ forwarding ps

  -- The loop fills the list with them.
  peer_neighs_lem :
      (ps : List Peer)
      → ((q : Peer) → In q ps → to4 q.pod_cidr.ip ≢ none)
      → peer_neighs e watching i ps ≡ ok (values (forwarding ps))
  unfolding peer_neighs forwarding
  peer_neighs_lem [] v4 = refl
  peer_neighs_lem (p ∷ ps) v4 =
      rw
        (
          map_to_mac-mac_for p.pod_cidr.ip (v4 p (inl refl)),
          peer_neighs_lem ps (λ q h. v4 q (inr h)),
          peer_neighs,
        )
        refl

  forwarding-Keys : (ps : List Peer) → Keys (NeighEnsure.key e.ip_text) (forwarding ps)
  unfolding forwarding fdb_entry lookup
  forwarding-Keys [] k v h = absurd (ground (arith, h))
  forwarding-Keys (p ∷ ps) k v h =
      ground (arith, h, string_eq.same_iff (e.ip_text p.address) k, forwarding-Keys ps k v)

  lookup-forwarding :
      (ps : List Peer) (q : Peer)
      → Distinct (forwarding ps)
      → In q ps
      → lookup (e.ip_text q.address) (forwarding ps)
        ≡ some (fdb_entry e watching i q (mac_for q.pod_cidr.ip))
  unfolding forwarding lookup
  lookup-forwarding [] q d h = absurd h
  lookup-forwarding (p ∷ ps) q d (inl same) =
      subst
        (λ (x : Peer).
          lookup (e.ip_text x.address) (forwarding (p ∷ ps))
          ≡ some (fdb_entry e watching i x (mac_for x.pod_cidr.ip)))
        same
        (lookup-cons (e.ip_text p.address) (fdb_entry e watching i p (mac_for p.pod_cidr.ip))
          (forwarding ps))
  lookup-forwarding (p ∷ ps) q d (inr h) = ground (
    arith,
    lookup-forwarding ps q d.1 h,
    d.0,
    string_eq.same_iff (e.ip_text p.address) (e.ip_text q.address),
  )

module _ {W : Type 0} (e : Environment W) (watching : Watching W) (l : Link) (overlay : IpNet)
    (route_table : W → String → Option Route) (neigh_table : W → String → Option Neigh) where
  abbrev pub the_route : Route
  the_route = overlay_route l.attrs.index (some overlay)

  abbrev wanted : Dict String Route
  wanted = (e.net_text overlay, the_route) ∷ []

  -- The device has the route of the overlay and no other, and each peer's node is the target of the
  -- hardware address that is made of the peer's network.
  abbrev pub Covered : List Peer → W → W → Type 0
  Covered ps w w' =
      ((r : Route) × (route_table w' (e.net_text overlay) ≡ some r)
        × Leads l.attrs.index overlay none 0 r)
      × ((k : String) → e.net_text overlay ≢ k → route_table w' k ≡ none)
      × ((q : Peer)
          → In q ps
          → (n : Neigh) × (neigh_table w' (e.ip_text q.address) ≡ some n)
            × Says l.attrs.index 7 e.constants.nud_permanent 0 e.constants.ntf_self q.address
                (mac_for q.pod_cidr.ip) n)
      × ((k : String)
          → lookup k (forwarding e watching l.attrs.index ps) ≡ none
          → neigh_table w' k ≡ neigh_table w k)

  whole_overlay : Leads l.attrs.index overlay none 0 the_route
  unfolding overlay_route
  whole_overlay = (refl, refl, refl, refl, refl, refl, refl)

  wanted-Keys : Keys (Planning.key e.net_text) wanted
  unfolding lookup overlay_route
  wanted-Keys k v h = ground (arith, h, string_eq.same_iff (e.net_text overlay) k)

  wanted-Distinct : Distinct wanted
  unfolding lookup
  wanted-Distinct = (refl, tt)

module _ {W : Type 0} (e : Environment W) (watching : Watching W) (l : Link) (overlay : IpNet)
    (route_table : W → String → Option Route) (neigh_table : W → String → Option Neigh)
    (routes_listed : Ensure.Lists e.net_text route_table e.routes (some l))
    (adding : Adds route_table (Planning.key e.net_text) e.routes.route_add)
    (deleting : Dels route_table (Planning.key e.net_text) e.routes.route_del)
    (neighs_listed : NeighEnsure.Lists e.ip_text neigh_table e.neighs l)
    (setting : Sets neigh_table (NeighEnsure.key e.ip_text) e.neighs.neigh_set)
    (apart : Apart e neigh_table) where
  tables-Covered :
      (p : VxlanRoutingProvider) (ps : List Peer) (w : W)
      → p.overlay_cidr ≡ some overlay
      → ((q : Peer) → In q ps → to4 q.pod_cidr.ip ≢ none)
      → Distinct (forwarding e watching l.attrs.index ps)
      → (w' : W) × (apply_tables e watching p l ps w ≡ (ok tt, w'))
        × Covered e watching l overlay route_table neigh_table ps w w'
  unfolding apply_tables lookup fdb_entry
  tables-Covered p ps w over v4 distinct =
      let i = l.attrs.index in
      let entries = forwarding e watching i ps in
      let (w1, set, brought) =
        ensure_brings_all e.ip_text e.neighs e.range_neighs l neigh_table neighs_listed setting
          entries distinct (forwarding-Keys e watching i ps) w in
      let (w2, routed, there) =
        Ensure.ensure_exact e.net_text e.routes e.range_routes (some l) route_table routes_listed
          adding deleting (wanted e watching l overlay route_table neigh_table)
          (wanted-Distinct e watching l overlay route_table neigh_table)
          (wanted-Keys e watching l overlay route_table neigh_table) w1 in
      let kept =
        routes_ensure-Keeps (λ w'. (k : String) → neigh_table w' k ≡ neigh_table w1 k) e.net_text
          e.routes e.range_routes (λ o w' h k. apart.listed o w' k ∙ h k)
          (λ r w' h k. apart.added r w' k ∙ h k) (λ r w' h k. apart.deleted r w' k ∙ h k) (some l)
          (the_route e watching l overlay route_table neigh_table ∷ []) true w1 (λ k. refl) in
      let now = λ (k : String).
        subst (λ (r : Result {0} Unit × W). neigh_table r.1 k ≡ neigh_table w1 k) routed (kept k)
        ∙ brought k in
      (
        w2,
        rw (over, peer_neighs_lem e watching i ps v4, set, routed) refl,
        (
          (
            settled route_equal (route_table w1 (e.net_text overlay))
                (the_route e watching l overlay route_table neigh_table),
            ground (
              arith,
              there (e.net_text overlay),
              string_eq.same_iff (e.net_text overlay) (e.net_text overlay),
            ),
            route_equal-Leads i overlay none 0 _ _ (settled_good _ _)
                (whole_overlay e watching l overlay route_table neigh_table),
          ),
          λ k far. ground (arith, there k, far, string_eq.same_iff (e.net_text overlay) k),
          λ q h. (
            settled neigh_equal (neigh_table w (e.ip_text q.address))
                (fdb_entry e watching i q (mac_for q.pod_cidr.ip)),
            now (e.ip_text q.address)
                ∙ ap (λ o. NeighEnsure.brought o (neigh_table w (e.ip_text q.address)))
                    (lookup-forwarding e watching i ps q distinct h),
            settled-Says i 7 e.constants.nud_permanent 0 e.constants.ntf_self q.address
                (mac_for q.pod_cidr.ip) _ _ (refl, refl, refl, refl, refl, refl, refl),
          ),
          λ k h. now k ∙ ap (λ o. NeighEnsure.brought o (neigh_table w k)) h,
        ),
      )

  -- For a provider that has its device and an overlay network, and a node map that is ready, has
  -- moved on and knows the local node with an address and a network; for peers with IPv4 networks
  -- and different addresses; and on a kernel whose table of routes and table of neighbours keep one
  -- entry for each key, and whose calls on routes leave the neighbours alone: `EnsureCIDRs` of
  -- vxlan-legacy succeeds and remembers the version. Afterwards the device has one route, a unicast
  -- route of the main table to the whole overlay network without a gateway; each peer's node address
  -- has a permanent forwarding entry on the device, with the hardware address 00:53 and the four
  -- bytes of the address of the peer's network; and other neighbours stay as they were. A second
  -- call with the map as it is does nothing.
  pub ensure_cidrs-Covered :
      (p : VxlanRoutingProvider) (node_map : NodeMap) (me : NodeInfo) (nodes : List NodeInfo)
      (cidr : IpNet) (address : Ip) (w : W)
      → p.link ≡ some l
      → p.overlay_cidr ≡ some overlay
      → snapshot e.range_nodes node_map ≡ (some me, nodes, node_map.version)
      → me.pod_cidr ≡ some cidr
      → me.address ≡ some address
      → is_applied node_map p.last_version_applied ≡ false
      → node_map.version ≢ 0
      → ((q : Peer) → In q (peers me nodes) → to4 q.pod_cidr.ip ≢ none)
      → Distinct (forwarding e watching l.attrs.index (peers me nodes))
      → let p' : VxlanRoutingProvider = record p {
        link = some l;
        last_version_applied = node_map.version;
      } in
        (w' : W) × (ensure_cidrs e watching p node_map w ≡ (ok tt, p', w'))
        × Covered e watching l overlay route_table neigh_table (peers me nodes) w w'
        × (ensure_cidrs e watching p' node_map w' ≡ (ok tt, p', w'))
  unfolding ensure_cidrs apply_node with_link local_node is_applied is_version
  ensure_cidrs-Covered p node_map me nodes cidr address w made over seen net4 here fresh nonzero v4
        addresses =
      let (w', run, covered) = tables-Covered p (peers me nodes) w over v4 addresses in
      (w', ground (arith, made, seen, net4, here, fresh, run), covered, ground (arith, nonzero))
