-- ===== src/Vxlan/Current.antt =====
-- pkg/routing/vxlan2/vxlan2routing.go.
use Prim.Native.Nat.{bit_and}
use networking.Prelude.{
  ℕ, true, not, ◌||◌, Option, none, some, List, [], ◌∷◌, String, Exec, Result, ok, err, fatal, wrap,
  ◌>>=◌, ◌>>◌, pure, lift, context, if◌then◌else◌, ◌==◌, nat_eq, string_eq,
}
use networking.Prelude.Int.{ℤ, pos, int_eq, sub_int, lt_int}
use networking.Net.{Ip, IpNet, bytes_equal}
use networking.Netlink.{Route, Neigh, Link, found, not_found, failed}
use networking.Netutil.Addresses.{ensure_link_addresses}
use networking.Netutil.Neighbours
use networking.Netutil.Routes
use networking.Nodes.Info.{NodeInfo}
use networking.Nodes.Map.{NodeMap, snapshot}
use networking.Providers.Peers.{Peer, peers, is_applied}
use networking.Vxlan.{map_to_mac}
use networking.Vxlan.Link.{
  Environment, VxlanRoutingProvider, fresh_provider, link_name, wanted_link, assert_vxlan,
  link_addr, not_nil, local_node, target_link,
}

-- `if minMTU == 0 || mtu < minMTU { minMTU = mtu }`
unfoldable pub lower_mtu : ℤ → ℤ → ℤ
lower_mtu min_mtu mtu = if min_mtu == pos 0 || lt_int mtu min_mtu then mtu else min_mtu

-- `bridge fdb` and `ip neigh` entries of a peer. RTN_UNICAST and AF_BRIDGE are 1 and 7.
module _ {W : Type 0} (e : Environment W) where
  open e use {constants}

  unfoldable pub arp_entry : ℕ → Peer → List ℕ → Neigh
  arp_entry link_index p mac = record {
    link_index = link_index;
    family = constants.family_v4;
    state = constants.nud_permanent;
    type_of = 1;
    flags = 0;
    ip = some p.pod_cidr.ip;
    hardware_addr = mac;
  }

  unfoldable pub fdb_entry : ℕ → Peer → List ℕ → Neigh
  fdb_entry link_index p mac = record {
    link_index = link_index;
    family = 7;
    state = constants.nud_permanent;
    type_of = 0;
    flags = constants.ntf_self;
    ip = some p.address;
    hardware_addr = mac;
  }

  -- `SetFlag` sets a bit of `Flags`, here RTNH_F_ONLINK, which is 4.
  unfoldable pub overlay_route : ℕ → Peer → Route
  overlay_route link_index p = record {
    link_index = link_index;
    ilink_index = 0;
    scope = constants.scope_universe;
    dst = some p.pod_cidr;
    src = none;
    gw = some p.pod_cidr.ip;
    multi_path = [];
    protocol = 3;
    priority = 0;
    table = 254;
    type_of = 1;
    tos = 0;
    flags = 4;
    mpls_dst = none;
    new_dst = none;
    encap = none;
    mtu = 0;
    adv_mss = 0;
    hoplimit = 0;
  }

  -- The loop that fills `neighs`; it also ends the process, in `mapToMAC`.
  unfoldable pub peer_neighs : ℕ → List Peer → Result (List Neigh)
  peer_neighs link_index [] = ok []
  peer_neighs link_index (p ∷ ps) =
      let others = peer_neighs link_index ps in
      elim (map_to_mac p.pod_cidr.ip) [
        | err x ↦ err x
        | fatal x ↦ fatal x
        | ok mac ↦ elim others [
          | err x ↦ err x
          | fatal x ↦ fatal x
          | ok l ↦ ok (arp_entry link_index p mac ∷ fdb_entry link_index p mac ∷ l)
        ]
      ]

  unfoldable pub peer_routes : ℕ → List Peer → List Route
  peer_routes link_index [] = []
  peer_routes link_index (p ∷ ps) = overlay_route link_index p ∷ peer_routes link_index ps

  -- The loop over the devices: `minMTU`.
  unfoldable pub min_mtu_from : ℤ → List String → Exec W ℤ
  min_mtu_from min_mtu [] = pure min_mtu
  min_mtu_from min_mtu (name ∷ rest) = do
    l ← target_link e.links name
    min_mtu_from (lower_mtu min_mtu l.attrs.mtu) rest

  -- `NewVxlanRoutingProvider`
  unfoldable pub new_vxlan_routing_provider :
      Option IpNet → List String → Exec W VxlanRoutingProvider
  new_vxlan_routing_provider overlay_cidr device_names = do
    min_mtu ← min_mtu_from (pos 0) device_names
    pure (fresh_provider overlay_cidr (sub_int min_mtu 100))

  -- `actual`, and `LinkNotFoundError` as nil.
  unfoldable pub existing_link : String → Exec W (Option Link)
  existing_link name w =
      let (answer, w') = e.links.link_by_name name w in
      elim answer [
        | found l ↦ (ok l, w')
        | not_found x ↦ (ok none, w')
        | failed x ↦ (err (wrap "error fetching link" x), w')
      ]

  unfoldable pub created_link : String → Exec W (Option Link)
  created_link name w =
      let (answer, w') = e.links.link_by_name name w in
      elim answer [
        | found l ↦ (ok l, w')
        | not_found x ↦ (err (wrap "error retrieving link after creation" x), w')
        | failed x ↦ (err (wrap "error retrieving link after creation" x), w')
      ]

  -- The device as it is, or a new one.
  unfoldable pub actual_link : Option Link → Link → Exec W Link
  actual_link (some l) expected = pure l
  actual_link none expected = do
    context "unable to create link" (e.links.link_add expected)
    l ← created_link expected.attrs.name
    lift (not_nil l)

  -- `EnsureLink`
  unfoldable pub ensure_link : VxlanRoutingProvider → Ip → IpNet → Exec W Link
  ensure_link p me cidr = do
    mac ← lift (map_to_mac cidr.ip)
    let name = link_name p
    existing ← existing_link name
    actual ← actual_link existing (wanted_link e.vxlan_type p me mac)
    if not (bytes_equal actual.attrs.hardware_addr mac)
        then context "failed to `ip link set address`" (e.links.link_set_hardware_addr actual mac)
        else pure tt
    if not (actual.attrs.mtu == p.mtu)
        then context "failed to `ip link set mtu`" (e.links.link_set_mtu actual p.mtu)
        else pure tt
    context "failed to set address" (
        ensure_link_addresses e.net_text e.addrs e.range_addrs actual
          (link_addr name (record { ip = cidr.ip; mask = 255 ∷ 255 ∷ 255 ∷ 255 ∷ [] }) ∷ []))
    if bit_and actual.attrs.flags 1 == 0
        then context "failed to `ip link set up`" (e.links.link_set_up actual)
        else pure tt
    pure actual

  -- `p.link`, made at the first call.
  unfoldable pub obtain_link : VxlanRoutingProvider → Ip → IpNet → Exec W Link
  obtain_link p address cidr = elim p.link [
    | some l ↦ pure l
    | none ↦ do l ← ensure_link p address cidr; lift (assert_vxlan l)
  ]

  -- What is done with the device: neighbours first, then routes, and other routes go.
  unfoldable pub apply_tables : Link → List Peer → Exec W Unit
  apply_tables l ps = do
    neighs ← lift (peer_neighs l.attrs.index ps)
    context "error applying neigh table"
        (Neighbours.ensure e.ip_text e.neighs e.range_neighs l neighs)
    context "error applying route table" (
        Routes.ensure e.net_text e.routes e.range_routes (some l) (peer_routes l.attrs.index ps)
          true)

  unfoldable pub with_link :
      VxlanRoutingProvider → Link → List Peer → ℕ → W → Result {0} Unit × VxlanRoutingProvider × W
  with_link p l ps version w =
      let (r, w') = apply_tables l ps w in
      let p' = record p { link = some l } in
      elim r [
        | ok u ↦ (ok tt, record p' { last_version_applied = version }, w')
        | err x ↦ (err x, p', w')
        | fatal x ↦ (fatal x, p', w')
      ]

  unfoldable pub apply_node :
      VxlanRoutingProvider
      → NodeInfo
      → Ip
      → IpNet
      → List NodeInfo
      → ℕ
      → W
      → Result {0} Unit × VxlanRoutingProvider × W
  apply_node p node address cidr all_nodes version w =
      let (r, w') = obtain_link p address cidr w in
      elim r [
        | ok l ↦ with_link p l (peers node all_nodes) version w'
        | err x ↦ (err x, p, w')
        | fatal x ↦ (fatal x, p, w')
      ]

  -- `EnsureCIDRs`: the provider comes back beside an error too, since it keeps the device.
  unfoldable pub ensure_cidrs :
      VxlanRoutingProvider → NodeMap → W → Result {0} Unit × VxlanRoutingProvider × W
  ensure_cidrs p node_map w =
      if is_applied node_map p.last_version_applied
      then (ok tt, p, w)
      else (let (me, all_nodes, version) = snapshot e.range_nodes node_map in
          elim (local_node me) [
            | err x ↦ (err x, p, w)
            | fatal x ↦ (fatal x, p, w)
            | ok (node, address, cidr) ↦ apply_node p node address cidr all_nodes version w
          ])
