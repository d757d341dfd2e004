-- ===== src/Vxlan/Legacy.antt =====
-- pkg/routing/vxlan/vxlanrouting.go.
use Prim.Native.String.{◌++◌}
use networking.Prelude.{
  ℕ, true, not, Option, none, some, List, [], ◌∷◌, String, Exec, Result, ok, err, fatal, wrap,
  ◌>>=◌, ◌>>◌, pure, lift, context, if◌then◌else◌, ◌==◌, nat_eq, string_eq,
}
use networking.Prelude.Int.{int_eq, sub_int}
use networking.Net.{Ip, IpNet}
use networking.Netlink.{Route, Neigh, Link, found, not_found, failed}
use networking.Netutil.Addresses.{ensure_link_addresses}
use networking.Netutil.Neighbours
use networking.Netutil.Routes
use networking.Nodes.Info.{NodeInfo}
use networking.Nodes.Map.{NodeMap, snapshot}
use networking.Providers.Peers.{Peer, peers, is_applied}
use networking.Vxlan.{map_to_mac}
use networking.Vxlan.Link.{
  Environment, VxlanRoutingProvider, fresh_provider, link_name, wanted_link, assert_vxlan,
  link_addr, not_nil, local_node, target_link,
}

-- What is outside of package netlink: `ioutil.WriteFile` of a path and a text, and the monitor's
-- subscription and goroutine, of the index of a device.
pub record Watching (W : Type 0) : Type 0 where
  pub write_file : String → String → Exec W Unit
  pub start_monitor : ℕ → Exec W Unit

-- The route of the whole overlay.
unfoldable pub overlay_route : ℕ → Option IpNet → Route
overlay_route link_index overlay_cidr = record {
  link_index = link_index;
  ilink_index = 0;
  scope = 0;
  dst = overlay_cidr;
  src = none;
  gw = none;
  multi_path = [];
  protocol = 3;
  priority = 0;
  table = 254;
  type_of = 1;
  tos = 0;
  flags = 0;
  mpls_dst = none;
  new_dst = none;
  encap = none;
  mtu = 0;
  adv_mss = 0;
  hoplimit = 0;
}

module _ {W : Type 0} (e : Environment W) (watching : Watching W) where
  open e use {constants}

  -- `NewVxlanRoutingProvider`
  unfoldable pub new_vxlan_routing_provider : Option IpNet → String → Exec W VxlanRoutingProvider
  new_vxlan_routing_provider overlay_cidr device_name = do
    l ← target_link e.links device_name
    pure (fresh_provider overlay_cidr (sub_int l.attrs.mtu 100))

  -- `listenArp`
  unfoldable pub listen_arp : Link → Exec W Unit
  listen_arp l =
      context "error writing setting sysctl for ARP events"
        (watching.write_file (("/proc/sys/net/ipv4/neigh/" ++ l.attrs.name) ++ "/app_solicit") "3")

  -- `netlink.LinkAdd`: an error is only logged, and the device that is there is used.
  unfoldable pub add_link : Link → List ℕ → Exec W Link
  add_link link mac w =
      let (r, w') = e.links.link_add link w in
      elim r [
        | err x ↦ (ok link, w')
        | fatal x ↦ (fatal x, w')
        | ok made ↦
            (context "failed to `ip link set address`" (e.links.link_set_hardware_addr made mac)
                >>= λ _. pure made)
              w'
      ]

  -- `netlink.LinkByName`, where any error is one.
  unfoldable pub found_link : String → Exec W (Option Link)
  found_link name w =
      let (answer, w') = e.links.link_by_name name w in
      elim answer [
        | found l ↦ (ok l, w')
        | not_found x ↦ (err (wrap "error retrieving link" x), w')
        | failed x ↦ (err (wrap "error retrieving link" x), w')
      ]

  -- `EnsureLink`
  unfoldable pub ensure_link : VxlanRoutingProvider → Ip → IpNet → Exec W Link
  ensure_link p me cidr = do
    mac ← lift (map_to_mac cidr.ip)
    let name = link_name p
    link ← add_link (wanted_link e.vxlan_type p me mac) mac
    maybe_link ← found_link name
    actual ← lift (not_nil maybe_link)
    if not (actual.attrs.mtu == p.mtu)
        then context "failed to `ip link set mtu`" (e.links.link_set_mtu link p.mtu)
        else pure tt
    overlay ← lift (not_nil p.overlay_cidr)
    context "failed to `ip addr add`" (
        ensure_link_addresses e.net_text e.addrs e.range_addrs link
          (link_addr name (record { ip = cidr.ip; mask = overlay.mask }) ∷ []))
    context "failed to `ip link set up`" (e.links.link_set_up link)
    pure actual

  -- `bridge fdb add to <remote-mac> dst <remote-ip>`
  unfoldable pub fdb_entry : ℕ → Peer → List ℕ → Neigh
  fdb_entry link_index p mac = record {
    link_index = link_index;
    family = 7;
    state = constants.nud_permanent;
    type_of = 0;
    flags = constants.ntf_self;
    ip = some p.address;
    hardware_addr = mac;
  }

  unfoldable pub peer_neighs : ℕ → List Peer → Result (List Neigh)
  peer_neighs link_index [] = ok []
  peer_neighs link_index (p ∷ ps) =
      let others = peer_neighs link_index ps in
      elim (map_to_mac p.pod_cidr.ip) [
        | err x ↦ err x
        | fatal x ↦ fatal x
        | ok mac ↦ elim others [
          | err x ↦ err x
          | fatal x ↦ fatal x
          | ok l ↦ ok (fdb_entry link_index p mac ∷ l)
        ]
      ]

  unfoldable pub apply_tables : VxlanRoutingProvider → Link → List Peer → Exec W Unit
  apply_tables p l ps = do
    neighs ← lift (peer_neighs l.attrs.index ps)
    context "error applying neigh table"
        (Neighbours.ensure e.ip_text e.neighs e.range_neighs l neighs)
    context "error applying route table" (
        Routes.ensure e.net_text e.routes e.range_routes (some l)
          (overlay_route l.attrs.index p.overlay_cidr ∷ []) true)

  -- The rest of `EnsureCIDRs`, once `p.link` is set.
  unfoldable pub with_link :
      VxlanRoutingProvider
      → Exec W Unit
      → Link
      → List Peer
      → ℕ
      → W
      → Result {0} Unit × VxlanRoutingProvider × W
  with_link p before l ps version w =
      let (r, w') = (before >> apply_tables p l ps) w in
      let p' = record p { link = some l } in
      elim r [
        | ok u ↦ (ok tt, record p' { last_version_applied = version }, w')
        | err x ↦ (err x, p', w')
        | fatal x ↦ (fatal x, p', w')
      ]

  -- `NewNetlinkMonitor` and `Start`, after `listenArp`.
  unfoldable pub start_watching : Link → Exec W Unit
  start_watching l = do listen_arp l; watching.start_monitor l.attrs.index

  -- The device is made, and watched, at the first call only.
  unfoldable pub apply_node :
      VxlanRoutingProvider
      → NodeInfo
      → Ip
      → IpNet
      → List NodeInfo
      → ℕ
      → W
      → Result {0} Unit × VxlanRoutingProvider × W
  apply_node p node address cidr all_nodes version w = elim p.link [
    | some l ↦ with_link p (pure tt) l (peers node all_nodes) version w
    | none ↦
        let (r, w') = (ensure_link p address cidr >>= λ l. lift (assert_vxlan l)) w in
        elim r [
          | ok l ↦ with_link p (start_watching l) l (peers node all_nodes) version w'
          | err x ↦ (err x, p, w')
          | fatal x ↦ (fatal x, p, w')
        ]
  ]

  -- `EnsureCIDRs`: the provider comes back beside an error too, since it keeps the device.
  unfoldable pub ensure_cidrs :
      VxlanRoutingProvider → NodeMap → W → Result {0} Unit × VxlanRoutingProvider × W
  ensure_cidrs p node_map w =
      if is_applied node_map p.last_version_applied
      then (ok tt, p, w)
      else (let (me, all_nodes, version) = snapshot e.range_nodes node_map in
          elim (local_node me) [
            | err x ↦ (err x, p, w)
            | fatal x ↦ (fatal x, p, w)
            | ok (node, address, cidr) ↦ apply_node p node address cidr all_nodes version w
          ])
