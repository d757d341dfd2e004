-- ===== src/Nodes/Info.antt =====
-- `NodeInfo` of pkg/routing/nodes.go and its method `update`.
pub mod Order
pub mod Update
pub mod Choice
use networking.Prelude.{
  Bool, true, false, not, ◌&&◌, ◌||◌, Option, none, some, List, [], ◌∷◌, String, if◌then◌else◌,
  is_some, length, ◌==◌, nat_eq, string_eq,
}
use networking.Net.{Ip, IpNet, equal, equal_nilable, bytes_equal}
use networking.Nodes.{
  AddressType, internal_ip, other_address, NodeAddress, ConditionType, network_unavailable,
  other_condition, ConditionStatus, condition_true, condition_false, condition_unknown,
  other_status, NodeCondition, Node, Parsers,
}
use Order.{sort_strings}

pub record NodeInfo : Type 0 where
  pub name : String
  pub address : Option Ip
  pub pod_cidr : Option IpNet
  pub network_available : Bool

-- `&NodeInfo{Name: name}`
abbrev pub blank : String → NodeInfo
blank name = record { name = name; address = none; pod_cidr = none; network_available = false }

-- `n.PodCIDR == nil || !ipnet.IP.Equal(n.PodCIDR.IP) || !bytes.Equal(n.PodCIDR.Mask, ipnet.Mask)`
unfoldable pub cidr_differs : Option IpNet → IpNet → Bool
cidr_differs none ipnet = true
cidr_differs (some old) ipnet = not (equal ipnet.ip old.ip) || not (bytes_equal old.mask ipnet.mask)

-- Each of the three parts of `update` returns the node and whether it changed it.
unfoldable pub clear_cidr : NodeInfo → NodeInfo × Bool
clear_cidr n = if is_some n.pod_cidr then (record n { pod_cidr = none }, true) else (n, false)

unfoldable pub set_cidr : NodeInfo → Option IpNet → NodeInfo × Bool
unfolding clear_cidr
set_cidr n none = clear_cidr n
set_cidr n (some ipnet) =
    if cidr_differs n.pod_cidr ipnet then (record n { pod_cidr = some ipnet }, true) else (n, false)

unfoldable pub update_cidr : Parsers → NodeInfo → Node → NodeInfo × Bool
unfolding set_cidr
update_cidr net n src =
    if src.pod_cidr == "" then clear_cidr n else set_cidr n (net.parse_cidr src.pod_cidr)

unfoldable pub is_internal : AddressType → Bool
is_internal internal_ip = true
is_internal (other_address t) = false

-- The loop that collects `internalIPs`.
unfoldable pub internal_ips : List NodeAddress → List String
unfolding is_internal
internal_ips [] = []
internal_ips (a ∷ rest) =
    let ips = internal_ips rest in if is_internal a.type_of then a.address ∷ ips else ips

unfoldable pub clear_address : NodeInfo → NodeInfo × Bool
clear_address n = if is_some n.address then (record n { address = none }, true) else (n, false)

unfoldable pub set_address : NodeInfo → Option Ip → NodeInfo × Bool
unfolding clear_address
set_address n none = clear_address n
set_address n (some a) =
    if not (equal_nilable n.address (some a))
    then (record n { address = some a }, true)
    else (n, false)

-- `if len(internalIPs) != 1 { sort.Strings(internalIPs) }`
unfoldable pub arrange : List String → List String
arrange ips = if not (length ips == 1) then sort_strings ips else ips

unfoldable pub use_first : Parsers → NodeInfo → List String → NodeInfo × Bool
unfolding set_address
use_first net n [] = clear_address n
use_first net n (ip ∷ ips) = set_address n (net.parse_ip ip)

unfoldable pub update_address : Parsers → NodeInfo → Node → NodeInfo × Bool
unfolding use_first
update_address net n src = use_first net n (arrange (internal_ips src.addresses))

-- The body of the loop over the conditions: the new value of `networkAvailable`.
unfoldable pub availability : NodeCondition → Bool → Bool
availability c available = elim c.type_of [
  | network_unavailable ↦ elim c.status [
    | condition_false ↦ true
    | condition_true ↦ false
    | condition_unknown ↦ available
    | other_status s ↦ available
  ]
  | other_condition t ↦ available
]

unfoldable pub available_after : List NodeCondition → Bool → Bool
unfolding availability
available_after [] available = available
available_after (c ∷ rest) available = available_after rest (availability c available)

unfoldable pub bool_differs : Bool → Bool → Bool
bool_differs true b = not b
bool_differs false b = b

unfoldable pub update_available : NodeInfo → Node → NodeInfo × Bool
unfolding bool_differs
update_available n src =
    let available = available_after src.conditions true in
    if bool_differs available n.network_available
    then (record n { network_available = available }, true)
    else (n, false)

unfoldable pub update : Parsers → NodeInfo → Node → NodeInfo × Bool
update net n src =
    let (n1, c1) = update_cidr net n src in
    let (n2, c2) = update_address net n1 src in
    let (n3, c3) = update_available n2 src in (n3, c1 || c2 || c3)
