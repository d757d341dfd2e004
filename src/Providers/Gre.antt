-- ===== src/Providers/Gre.antt =====
-- pkg/routing/gre/provider.go.
pub mod Names
pub mod Up
pub mod Tunnels
pub mod Built
pub mod Reached
pub mod Ensure
use Prim.Native.Nat.{bit_and}
use Prim.Native.Char.{Char}
use Prim.Native.String.{len, char_at}
use networking.Prelude.{
  ℕ, ◌/◌, ◌%◌, Bool, true, false, not, Option, none, some, List, [], ◌∷◌, String, Exec, Result, ok,
  err, fatal, Error, errorf, ◌>>=◌, ◌>>◌, pure, raise, lift, context, for_each, if◌then◌else◌, ltb,
  map, ◌==◌, nat_eq, string_eq,
}
use networking.Prelude.Int.{ℤ, pos}
use networking.Prelude.Dict.{Dict, lookup, RangeOrder}
use networking.Net.{Ip, IpNet, to4, byte_at}
use networking.Netlink.{Route, Link, gretun, RouteCalls, LinkCalls}
use networking.Netutil.Kernel.{values}
use networking.Netutil.Links
use networking.Netutil.Routes
use networking.Nodes.Info.{NodeInfo}
use networking.Nodes.Map.{NodeMap, snapshot}
use networking.Providers.Peers.{Peer, peers, is_applied}

-- `%02x` of a byte, before `rest`.
unfoldable pub hex_digit : ℕ → Char
hex_digit d = char_at "0123456789abcdef" d

unfoldable pub hex_byte : ℕ → String → String
hex_byte b rest = String.◌∷◌ (hex_digit (b / 16)) (String.◌∷◌ (hex_digit (b % 16)) rest)

-- `fmt.Sprintf("k8s-%02x-%02x-%02x-%02x", ...)`
abbrev pub dash : String → String
dash rest = String.◌∷◌ "-" rest

unfoldable pub tunnel_text : Ip → String
tunnel_text ip4 = String.◌∷◌ "k" (
    String.◌∷◌ "8" (
      String.◌∷◌ "s" (
        dash (
          hex_byte (byte_at 0 ip4) (
            dash (
              hex_byte (byte_at 1 ip4)
                (dash (hex_byte (byte_at 2 ip4) (dash (hex_byte (byte_at 3 ip4) ""))))))))))

abbrev gre_link_name_max_length : ℕ
gre_link_name_max_length = 15

unfoldable pub build_tunnel_name : Ip → String
build_tunnel_name ip = elim (to4 ip) [
  | none ↦ ""
  | some ip4 ↦
      let name = tunnel_text ip4 in if ltb gre_link_name_max_length (len name) then "" else name
]

-- The nodes with an acceptable name of a tunnel, and that name.
unfoldable pub named_peers : List Peer → List (Peer × String)
named_peers [] = []
named_peers (p ∷ ps) =
    let rest = named_peers ps in
    let name = build_tunnel_name p.pod_cidr.ip in if name == "" then rest else (p, name) ∷ rest

-- `gre_type` is what `Type` of a `netlink.Gretun` returns.
unfoldable pub tunnel : String → NodeInfo → Peer × String → Link
tunnel gre_type me (p, name) = record {
  type_of = gre_type;
  attrs = record { index = 0; mtu = pos 0; name = name; hardware_addr = []; flags = 0 };
  body = gretun me.address (some p.address) 255;
}

unfoldable pub route_to : Link → Peer → Route
route_to link p = record {
  link_index = link.attrs.index;
  ilink_index = 0;
  scope = 0;
  dst = some p.pod_cidr;
  src = none;
  gw = none;
  multi_path = [];
  protocol = 3;
  priority = 0;
  table = 254;
  type_of = 1;
  tos = 0;
  flags = 0;
  mpls_dst = none;
  new_dst = none;
  encap = none;
  mtu = 0;
  adv_mss = 0;
  hoplimit = 0;
}

-- The loop that fills `routes`.
unfoldable pub tunnel_routes : Dict String Link → List (Peer × String) → Result (List Route)
tunnel_routes tunnel_map [] = ok []
tunnel_routes tunnel_map ((p, name) ∷ rest) =
    let others = tunnel_routes tunnel_map rest in
    elim (lookup name tunnel_map) [
      | none ↦ err (errorf "tunnel not found after being created")
      | some link ↦ elim others [
        | ok l ↦ ok (route_to link p ∷ l)
        | err x ↦ err x
        | fatal x ↦ fatal x
      ]
    ]

module _ {W : Type 0} (text : IpNet → String) (has_prefix : String → String → Bool)
    (gre_type : String) (routes : RouteCalls W) (links : LinkCalls W)
    (range_routes : RangeOrder String Route) (range_links : RangeOrder String Link)
    (range_nodes : RangeOrder String ℕ) where
  -- `net.FlagUp` is the lowest bit.
  unfoldable pub bring_up : Link → Exec W Unit
  bring_up l =
      if not (bit_and l.attrs.flags 1 == 0)
      then pure tt
      else context "error from `ip link set up`" (links.link_set_up l)

  unfoldable pub apply_nodes : Option NodeInfo → List NodeInfo → Exec W Unit
  apply_nodes none all_nodes = raise (errorf "Cannot find local node")
  apply_nodes (some me) all_nodes = do
    let named = named_peers (peers me all_nodes)
    tunnel_map ←
        context "error configuring tunnels"
          (Links.ensure has_prefix links range_links (map (tunnel gre_type me) named) "k8s-")
    for_each bring_up (values (range_links.range tunnel_map))
    expected ← lift (tunnel_routes tunnel_map named)
    context "error applying route table"
        (Routes.ensure text routes range_routes none expected false)

  -- `EnsureCIDRs`, with `lastVersionApplied` before and after.
  unfoldable pub ensure_cidrs : NodeMap → ℕ → Exec W ℕ
  ensure_cidrs node_map last_version_applied =
      if is_applied node_map last_version_applied
      then pure last_version_applied
      else (let (me, all_nodes, version) = snapshot range_nodes node_map in
          apply_nodes me all_nodes >>= λ _. pure version)
