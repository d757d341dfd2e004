-- ===== src/Vxlan/Tests/Devices.antt =====
-- The theorems about the monitor and the devices of the VXLAN providers at a kernel that has every
-- device.
use networking.Prelude.{
  ◌+◌, ℕ, none, some, Option, List, [], ◌∷◌, String, ok, err, Error, errorf, ◌>>=◌, lift, for_each,
  ◌≡◌, false, ◌≢◌, ◌⊎◌, refl, In, All, ◌==◌, string_eq, nat_eq, if◌then◌else◌, arith, ◌≤◌,
}
use networking.Prelude.Int.{pos, sub_int}
use networking.Prelude.Dict.{RangeOrder, insert, lookup}
use networking.Net.{
  Ip, IpNet, to4, byte_at, bytes_equal, equal, ipnet_equal, is_link_local_unicast, is_v4_mapped,
}
use networking.Netutil.Diff.{created, missing, removed}
use networking.Netutil.Addresses.{
  ensure_link_addresses, add_addrs, index_expected_addrs, index_expected_addr, index_actual_addrs,
  addr_equal, del_addrs, index_actual_addr,
}
use networking.Netlink.{Neigh, Link, found, vxlan, NeighCalls, NeighConstants}
use networking.Vxlan.{map_to_mac}
use networking.Vxlan.Link.{
  Environment, VxlanRoutingProvider, fresh_provider, assert_vxlan, not_nil, link_name, decimal_from,
  link_addr, wanted_link,
}
use networking.Vxlan.Current.{new_vxlan_routing_provider}
use networking.Vxlan.Legacy.{
  Watching, ensure_link, add_link, found_link, listen_arp, start_watching,
}
use networking.Vxlan.Monitor.{Message, handle}
use networking.Vxlan.Monitor.Answers.{Asks, Answers, handle_lem}
use networking.Vxlan.Mtu.{new_provider_mtu}

abbrev neighs : NeighCalls ℕ
neighs = record { neigh_list = λ i w. (ok [], w); neigh_set = λ n w. (ok tt, w + 1) }

abbrev pub constants : NeighConstants
constants = record {
  nud_permanent = 128;
  nud_reachable = 2;
  ntf_self = 2;
  family_v4 = 2;
  scope_universe = 0;
}

abbrev asking : Neigh
asking = record {
  link_index = 7;
  family = 2;
  state = 1;
  type_of = 0;
  flags = 0;
  ip = some (100 ∷ 96 ∷ 1 ∷ 9 ∷ []);
  hardware_addr = [];
}

abbrev deserialize : List ℕ → Option Neigh
deserialize [] = none
deserialize (b ∷ rest) = some asking

abbrev message : Message
message = record { type_of = 30; payload = 1 ∷ [] }

handle_lem_example :
    ((neigh : Neigh) × (ip : Ip) × (ip4 : Ip) × Asks constants deserialize 7 message neigh ip ip4
      × (n : Neigh) × Answers constants 7 ip4 n
      × ((handle neighs constants deserialize 7 message 0).1 ≡ (neighs.neigh_set n 0).1)
      × ((x : Error) → (handle neighs constants deserialize 7 message 0).0 ≢ err x))
    ⊎ (((neigh : Neigh) (ip ip4 : Ip) → ¬ Asks constants deserialize 7 message neigh ip ip4)
        × (handle neighs constants deserialize 7 message 0 ≡ (ok tt, 0)))
handle_lem_example = handle_lem neighs constants deserialize 7 message 0

-- Device eth1 has a smaller MTU than the others.
abbrev mtu_of : String → ℕ
mtu_of name = if name == "eth1" then 1400 else 1500

abbrev pub device : String → Link
device name = record {
  type_of = "vxlan";
  attrs = record { index = 3; mtu = pos (mtu_of name); name = name; hardware_addr = []; flags = 0 };
  body = vxlan 1 0 none 4789 false;
}

abbrev pub order : {V : Type 0} → RangeOrder String V
order = record { range = λ m. m; lookup-range = λ k m d. refl; range-Distinct = λ m d. d }

abbrev pub environment : Environment ℕ
environment = record {
  routes = record {
    route_list = λ l w. (ok [], w);
    route_add = λ r w. (ok tt, w);
    route_del = λ r w. (ok tt, w);
  };
  neighs = neighs;
  addrs = record {
    addr_list = λ l w. (ok [], w);
    addr_add = λ l a w. (ok tt, w);
    addr_del = λ l a w. (ok tt, w);
  };
  links = record {
    link_list = λ w. (ok [], w);
    link_by_name = λ name w. (found (some (device name)), w);
    link_add = λ l w. (ok l, w);
    link_del = λ l w. (ok tt, w);
    link_set_up = λ l w. (ok tt, w);
    link_set_hardware_addr = λ l mac w. (ok tt, w);
    link_set_mtu = λ l mtu w. (ok tt, w);
  };
  constants = constants;
  net_text = λ n. "100.96.1.0/24";
  ip_text = λ ip. "10.0.0.2";
  range_routes = order;
  range_neighs = order;
  range_addrs = order;
  range_nodes = order;
  vxlan_type = "vxlan";
}

new_provider_mtu_example :
    (m : ℕ) × (new_vxlan_routing_provider environment none ("eth0" ∷ "eth1" ∷ []) 0
      ≡ (ok (fresh_provider none (sub_int (pos m) 100)), 0))
    × (All (λ n. m ≤ mtu_of n) ("eth0" ∷ "eth1" ∷ []))
    × ((n : String) × In n ("eth0" ∷ "eth1" ∷ []) × (m ≡ mtu_of n))
new_provider_mtu_example =
    new_provider_mtu environment 0 mtu_of none "eth0" ("eth1" ∷ [])
      ((device "eth0", refl, (refl, omega arith)), ((device "eth1", refl, (refl, omega arith)), tt))

-- The file for ARP events cannot be written.
abbrev pub broken : Watching ℕ
broken = record {
  write_file = λ path text w. (err (errorf "read-only file system"), w);
  start_monitor = λ i w. (ok tt, w);
}

abbrev pub network : IpNet
network = record { ip = 100 ∷ 96 ∷ 1 ∷ 0 ∷ []; mask = 255 ∷ 255 ∷ 255 ∷ 0 ∷ [] }

abbrev pub provider : VxlanRoutingProvider
provider = record {
  overlay_cidr = some network;
  vxlan_id = 1;
  vtep_index = 0;
  vxlan_port = 4789;
  mtu = pos 1400;
  link = none;
  last_version_applied = 0;
}

abbrev pub address : Ip
address = 10 ∷ 0 ∷ 0 ∷ 2 ∷ []

pub made :
    (ensure_link environment broken provider address network >>= λ l. lift (assert_vxlan l)) 0
    ≡ (ok (device "vxlan1"), 0)
unfolding ensure_link assert_vxlan map_to_mac to4 add_link found_link not_nil link_name decimal_from
    ensure_link_addresses add_addrs for_each created index_expected_addrs index_expected_addr
    link_addr insert lookup index_actual_addrs byte_at bytes_equal equal ipnet_equal
    is_link_local_unicast is_v4_mapped addr_equal del_addrs index_actual_addr missing removed
    wanted_link
made = refl

pub refused : (x : Error) × (start_watching environment broken (device "vxlan1") 0 ≡ (err x, 0))
unfolding start_watching listen_arp
refused = (_, refl)
