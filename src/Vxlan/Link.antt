-- ===== src/Vxlan/Link.antt =====
-- What pkg/routing/vxlan/vxlanrouting.go and pkg/routing/vxlan2/vxlan2routing.go have in common: the
-- provider's state, its device, and what both take from outside.
use Prim.Native.String.{char_at, ◌++◌}
use networking.Prelude.{
  ℕ, zero, suc, ◌/◌, ◌%◌, Bool, true, false, Option, none, some, List, String, Exec, Result, ok,
  err, fatal, errorf, wrap, if◌then◌else◌, ◌==◌, nat_eq, string_eq,
}
use networking.Prelude.Int.{ℤ}
use networking.Prelude.Dict.{RangeOrder}
use networking.Net.{Ip, IpNet}
use networking.Nodes.Info.{NodeInfo}
use networking.Netlink.{
  Route, Neigh, Addr, LinkBody, vxlan, gretun, other_link, Link, RouteCalls, NeighCalls, AddrCalls,
  LinkCalls, NeighConstants, found, not_found, failed,
}

-- The kernel's calls, the texts of networks and addresses, and the orders of `range`. The code of
-- Go's library writes a file, `vxlan_type` is what `Type` of a `netlink.Vxlan` returns.
pub record Environment (W : Type 0) : Type 0 where
  pub routes : RouteCalls W
  pub neighs : NeighCalls W
  pub addrs : AddrCalls W
  pub links : LinkCalls W
  pub constants : NeighConstants
  pub net_text : IpNet → String
  pub ip_text : Ip → String
  pub range_routes : RangeOrder String Route
  pub range_neighs : RangeOrder String Neigh
  pub range_addrs : RangeOrder String Addr
  pub range_nodes : RangeOrder String ℕ
  pub vxlan_type : String

-- `VxlanRoutingProvider`. The tables that it points at have no state.
pub record VxlanRoutingProvider : Type 0 where
  pub overlay_cidr : Option IpNet
  pub vxlan_id : ℕ
  pub vtep_index : ℕ
  pub vxlan_port : ℕ
  pub mtu : ℤ
  pub link : Option Link
  pub last_version_applied : ℕ

-- The provider that both constructors return.
unfoldable pub fresh_provider : Option IpNet → ℤ → VxlanRoutingProvider
fresh_provider overlay_cidr mtu = record {
  overlay_cidr = overlay_cidr;
  vxlan_id = 1;
  vtep_index = 0;
  vxlan_port = 4789;
  mtu = mtu;
  link = none;
  last_version_applied = 0;
}

-- `%d`, on as much fuel as the number.
unfoldable pub decimal_from : ℕ → ℕ → String → String
decimal_from zero n rest = rest
decimal_from (suc fuel) n rest =
    let text = String.◌∷◌ (char_at "0123456789" (n % 10)) rest in
    let more = decimal_from fuel (n / 10) text in if n / 10 == 0 then text else more

-- `fmt.Sprintf("vxlan%d", p.vxlanID)`
unfoldable pub link_name : VxlanRoutingProvider → String
link_name p = "vxlan" ++ decimal_from (suc p.vxlan_id) p.vxlan_id ""

-- The device that is wanted.
unfoldable pub wanted_link : String → VxlanRoutingProvider → Ip → List ℕ → Link
wanted_link vxlan_type p me mac = record {
  type_of = vxlan_type;
  attrs = record { index = 0; mtu = p.mtu; name = link_name p; hardware_addr = mac; flags = 0 };
  body = vxlan p.vxlan_id p.vtep_index (some me) p.vxlan_port false;
}

-- The type assertion `link.(*netlink.Vxlan)`.
abbrev pub is_vxlan : LinkBody → Bool
is_vxlan (vxlan id vtep src port learning) = true
is_vxlan (gretun l r ttl) = false
is_vxlan other_link = false

unfoldable pub assert_vxlan : Link → Result Link
assert_vxlan l = if is_vxlan l.body then ok l else fatal "interface conversion: not *netlink.Vxlan"

-- The address that the device gets.
unfoldable pub link_addr : String → IpNet → Addr
link_addr name n = record { ipnet = some n; label = name; flags = 128; scope = 0 }

-- Reading through nil.
unfoldable pub not_nil : {A : Type 0} → Option A → Result A
not_nil none = fatal "invalid memory address or nil pointer dereference"
not_nil (some a) = ok a

-- The local node with its address and network, or the error of the guards.
unfoldable pub local_node : Option NodeInfo → Result (NodeInfo × Ip × IpNet)
local_node none = err (errorf "Cannot find local node")
local_node (some me) = elim me.pod_cidr [
  | none ↦ err (errorf "No CIDR assigned to local node; cannot configure tunnels")
  | some cidr ↦ elim me.address [
    | none ↦ err (errorf "No Address assigned to local node; cannot configure tunnels")
    | some address ↦ ok (me, address, cidr)
  ]
]

-- `netlink.LinkByName` of a device that must be there.
unfoldable pub target_link : {W : Type 0} → LinkCalls W → String → Exec W Link
target_link links name w =
    let (answer, w') = links.link_by_name name w in
    elim answer [
      | not_found x ↦ (err (wrap "error fetching target link" x), w')
      | failed x ↦ (err (wrap "error fetching target link" x), w')
      | found none ↦ (err (errorf "target link not found"), w')
      | found (some l) ↦ (ok l, w')
    ]
