-- ===== src/Netlink.antt =====
-- The objects of github.com/vishvananda/netlink that the agent hands to the kernel and reads from
-- it, and the calls that it makes. Routes, next hops and states have all their fields; links,
-- neighbours, addresses and policies are cut to those that the agent reads or sets. The package is
-- not part of the repository: its calls are parameters, over a type `W` of states of the kernel.
-- A Go integer that is only set and compared is a natural number.
use networking.Prelude.{ℕ, Bool, String, List, Option, Error, Exec}
use networking.Prelude.Int.{ℤ}
use networking.Net.{Ip, IpNet}

-- An interface (`Destination`, `Encap`) is what its `Encode` gives.
pub record NexthopInfo : Type 0 where
  pub link_index : ℕ
  pub hops : ℕ
  pub gw : Option Ip
  pub flags : ℕ
  pub new_dst : Option (List ℕ)
  pub encap : Option (List ℕ)

pub record Route : Type 0 where
  pub link_index : ℕ
  pub ilink_index : ℕ
  pub scope : ℕ
  pub dst : Option IpNet
  pub src : Option Ip
  pub gw : Option Ip
  pub multi_path : List NexthopInfo
  pub protocol : ℕ
  pub priority : ℕ
  pub table : ℕ
  pub type_of : ℕ
  pub tos : ℕ
  pub flags : ℕ
  pub mpls_dst : Option ℕ
  pub new_dst : Option (List ℕ)
  pub encap : Option (List ℕ)
  pub mtu : ℕ
  pub adv_mss : ℕ
  pub hoplimit : ℕ

pub record Neigh : Type 0 where
  pub link_index : ℕ
  pub family : ℕ
  pub state : ℕ
  pub type_of : ℕ
  pub flags : ℕ
  pub ip : Option Ip
  pub hardware_addr : List ℕ

pub record Addr : Type 0 where
  pub ipnet : Option IpNet
  pub label : String
  pub flags : ℕ
  pub scope : ℕ

pub record LinkAttrs : Type 0 where
  pub index : ℕ
  pub mtu : ℤ
  pub name : String
  pub hardware_addr : List ℕ
  pub flags : ℕ

-- What a kind of link has beside its attributes: of a `netlink.Vxlan`, its id, the index of the
-- device below, the source address, the port and whether it learns.
pub data LinkBody : Type 0 where
  gretun : Option Ip → Option Ip → ℕ → LinkBody
  vxlan : ℕ → ℕ → Option Ip → ℕ → Bool → LinkBody
  other_link : LinkBody

pub record Link : Type 0 where
  pub type_of : String
  pub attrs : LinkAttrs
  pub body : LinkBody

pub record XfrmMark : Type 0 where
  pub value : ℕ
  pub mask : ℕ

pub record XfrmPolicyTmpl : Type 0 where
  pub dst : Option Ip
  pub src : Option Ip
  pub proto : ℕ
  pub mode : ℕ
  pub spi : ℕ
  pub reqid : ℕ

pub record XfrmPolicy : Type 0 where
  pub dst : Option IpNet
  pub src : Option IpNet
  pub proto : ℕ
  pub dst_port : ℕ
  pub src_port : ℕ
  pub dir : ℕ
  pub priority : ℕ
  pub index : ℕ
  pub mark : Option XfrmMark
  pub tmpls : List XfrmPolicyTmpl

pub record XfrmStateAlgo : Type 0 where
  pub name : String
  pub key : List ℕ
  pub truncate_len : ℕ
  pub icv_len : ℕ

pub record XfrmStateEncap : Type 0 where
  pub type_of : ℕ
  pub src_port : ℕ
  pub dst_port : ℕ
  pub original_address : Option Ip

pub record XfrmStateLimits : Type 0 where
  pub byte_soft : ℕ
  pub byte_hard : ℕ
  pub packet_soft : ℕ
  pub packet_hard : ℕ
  pub time_soft : ℕ
  pub time_hard : ℕ
  pub time_use_soft : ℕ
  pub time_use_hard : ℕ

pub record XfrmStateStats : Type 0 where
  pub replay_window : ℕ
  pub replay : ℕ
  pub failed : ℕ
  pub add_time : ℕ
  pub use_time : ℕ

pub record XfrmState : Type 0 where
  pub dst : Option Ip
  pub src : Option Ip
  pub proto : ℕ
  pub mode : ℕ
  pub spi : ℕ
  pub reqid : ℕ
  pub replay_window : ℕ
  pub limits : XfrmStateLimits
  pub statistics : XfrmStateStats
  pub mark : Option XfrmMark
  pub output_mark : ℕ
  pub ifid : ℕ
  pub auth : Option XfrmStateAlgo
  pub crypt : Option XfrmStateAlgo
  pub aead : Option XfrmStateAlgo
  pub encap : Option XfrmStateEncap
  pub esn : Bool

-- `netlink.RouteList`, `RouteAdd`, `RouteDel`
pub record RouteCalls (W : Type 0) : Type 0 where
  pub route_list : Option Link → Exec W (List Route)
  pub route_add : Route → Exec W Unit
  pub route_del : Route → Exec W Unit

-- `netlink.NeighList`, `NeighSet`
pub record NeighCalls (W : Type 0) : Type 0 where
  pub neigh_list : ℕ → Exec W (List Neigh)
  pub neigh_set : Neigh → Exec W Unit

-- `netlink.AddrList`, `AddrAdd`, `AddrDel`
pub record AddrCalls (W : Type 0) : Type 0 where
  pub addr_list : Link → Exec W (List Addr)
  pub addr_add : Link → Addr → Exec W Unit
  pub addr_del : Link → Addr → Exec W Unit

-- What `netlink.LinkByName` returns: a link (which the code also tests for nil), or an error, of
-- which `LinkNotFoundError` is one.
pub data LinkLookup : Type 0 where
  found : Option Link → LinkLookup
  not_found failed : Error → LinkLookup

-- `netlink.LinkList`, `LinkByName`, `LinkAdd`, `LinkDel`, `LinkSetUp`, `LinkSetHardwareAddr`,
-- `LinkSetMTU`. `LinkAdd` writes the index of the new link into the object that it is given, so it
-- comes with the object as it leaves it.
pub record LinkCalls (W : Type 0) : Type 0 where
  pub link_list : Exec W (List Link)
  pub link_by_name : String → W → LinkLookup × W
  pub link_add : Link → Exec W Link
  pub link_del : Link → Exec W Unit
  pub link_set_up : Link → Exec W Unit
  pub link_set_hardware_addr : Link → List ℕ → Exec W Unit
  pub link_set_mtu : Link → ℤ → Exec W Unit

-- The numbers that the package gives to states and flags of neighbours, families and scopes.
pub record NeighConstants : Type 0 where
  pub nud_permanent : ℕ
  pub nud_reachable : ℕ
  pub ntf_self : ℕ
  pub family_v4 : ℕ
  pub scope_universe : ℕ

-- `netlink.XfrmStateList`, `XfrmStateAdd`, `XfrmStateUpdate`, `XfrmStateDel`, `XfrmStateFlush`
pub record XfrmStateCalls (W : Type 0) : Type 0 where
  pub xfrm_state_list : Exec W (List XfrmState)
  pub xfrm_state_add : XfrmState → Exec W Unit
  pub xfrm_state_update : XfrmState → Exec W Unit
  pub xfrm_state_del : XfrmState → Exec W Unit
  pub xfrm_state_flush : Exec W Unit

-- `netlink.XfrmPolicyList`, `XfrmPolicyAdd`, `XfrmPolicyUpdate`, `XfrmPolicyDel`, `XfrmPolicyFlush`
pub record XfrmPolicyCalls (W : Type 0) : Type 0 where
  pub xfrm_policy_list : Exec W (List XfrmPolicy)
  pub xfrm_policy_add : XfrmPolicy → Exec W Unit
  pub xfrm_policy_update : XfrmPolicy → Exec W Unit
  pub xfrm_policy_del : XfrmPolicy → Exec W Unit
  pub xfrm_policy_flush : Exec W Unit
