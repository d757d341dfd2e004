-- ===== src/Providers/Layer2.antt =====
-- pkg/routing/layer2/provider.go.
pub mod Ensure
use networking.Prelude.{
  ℕ, Bool, false, Option, none, some, List, [], String, Exec, Result, ok, err, fatal, errorf, wrap,
  ◌>>=◌, ◌>>◌, pure, raise, context, if◌then◌else◌, map, string_eq, nat_eq,
}
use networking.Prelude.Dict.{RangeOrder}
use networking.Net.{IpNet}
use networking.Netlink.{Route, Link, RouteCalls, LinkCalls, LinkLookup, found, not_found, failed}
use networking.Netutil.Routes
use networking.Nodes.Info.{NodeInfo}
use networking.Nodes.Map.{NodeMap, snapshot}
use networking.Providers.Peers.{Peer, peers, is_applied}

-- `Layer2RoutingProvider`; its route table has no state.
pub record Layer2RoutingProvider : Type 0 where
  pub last_version_applied : ℕ
  pub underlying_link : Link

-- `ip route add $remoteCidr via $remoteIP`. RTPROT_BOOT, RT_TABLE_MAIN and RTN_UNICAST of Go's
-- `syscall` are 3, 254 and 1.
unfoldable pub route_via : ℕ → Peer → Route
route_via link_index p = record {
  link_index = link_index;
  ilink_index = 0;
  scope = 0;
  dst = some p.pod_cidr;
  src = none;
  gw = some p.address;
  multi_path = [];
  protocol = 3;
  priority = 0;
  table = 254;
  type_of = 1;
  tos = 0;
  flags = 0;
  mpls_dst = none;
  new_dst = none;
  encap = none;
  mtu = 0;
  adv_mss = 0;
  hoplimit = 0;
}

-- `routes`, after the loop.
unfoldable pub peer_routes : ℕ → NodeInfo → List NodeInfo → List Route
peer_routes link_index me all_nodes = map (route_via link_index) (peers me all_nodes)

module _ {W : Type 0} (links : LinkCalls W) where
  -- `NewLayer2RoutingProvider`
  unfoldable pub new_layer2_routing_provider : String → Exec W Layer2RoutingProvider
  new_layer2_routing_provider device_name w =
      let (answer, w') = links.link_by_name device_name w in
      elim answer [
        | not_found x ↦ (err (wrap "error fetching target link" x), w')
        | failed x ↦ (err (wrap "error fetching target link" x), w')
        | found none ↦ (err (errorf "target link not found"), w')
        | found (some link) ↦ (ok (record { last_version_applied = 0; underlying_link = link }), w')
      ]

module _ {W : Type 0} (text : IpNet → String) (calls : RouteCalls W)
    (order : RangeOrder String Route) (range_nodes : RangeOrder String ℕ) where
  unfoldable pub apply_nodes : Layer2RoutingProvider → Option NodeInfo → List NodeInfo → Exec W Unit
  apply_nodes p none all_nodes = raise (errorf "Cannot find local node")
  apply_nodes p (some me) all_nodes = context "error applying route table" (
      Routes.ensure text calls order none (peer_routes p.underlying_link.attrs.index me all_nodes)
        false)

  -- `EnsureCIDRs`
  unfoldable pub ensure_cidrs : Layer2RoutingProvider → NodeMap → Exec W Layer2RoutingProvider
  ensure_cidrs p node_map =
      if is_applied node_map p.last_version_applied
      then pure p
      else (let (me, all_nodes, version) = snapshot range_nodes node_map in
          apply_nodes p me all_nodes >>= λ _. pure (record p { last_version_applied = version }))
