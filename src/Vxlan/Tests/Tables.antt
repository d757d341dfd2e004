-- ===== src/Vxlan/Tests/Tables.antt =====
-- The theorem about `EnsureCIDRs` of vxlan2 on a kernel whose world is a table of routes and a table
-- of neighbours.
use networking.Prelude.{
  ℕ, none, In, ◌≢◌, inl, inr, subst, true, false, Option, some, List, [], ◌∷◌, String, Result, ok,
  ◌≡◌, arith, refl, ap, if◌then◌else◌, ◌==◌, nat_eq, string_eq,
}
use networking.Prelude.Dict.{lookup, Distinct}
use networking.Net.{to4, bytes_equal, byte_at}
use networking.Netlink.{Route, Neigh, Link, found}
use networking.Netutil.Kernel.{Adds, Dels, Sets}
use networking.Netutil.Tests.Kernel.{table, add, del, set, add-Adds, del-Dels, set-Sets}
use networking.Netutil.Tests.Routes
use networking.Netutil.Tests.Neighbours
use networking.Netutil.Routes.Planning
use networking.Netutil.Routes.Ensure
use networking.Netutil.Neighbours.Ensure as NeighEnsure
use networking.Nodes.Info.{NodeInfo}
use networking.Nodes.Map.{NodeMap, snapshot}
use networking.Nodes.Tests.{is_a}
use networking.Providers.Peers.{Peer, peers, peer, is_applied}
use networking.Providers.Routed.{routes_by_text}
use networking.Vxlan.{map_to_mac}
use networking.Vxlan.Link.{Environment, VxlanRoutingProvider}
use networking.Vxlan.Current.{overlay_route, peer_neighs, ensure_cidrs}
use networking.Vxlan.Ensure.{Apart}
use networking.Vxlan.Entries.{neighs_by_text}
use networking.Vxlan.Reached.{Reached, ensure_cidrs-Reached}
use networking.Providers.Gre.Tunnels.{peers_by_text}
use networking.Vxlan.Tests.Devices.{order, device, constants, network, provider, address}

abbrev pub World : Type 0
World = List Route × List Neigh

abbrev pub on_routes : {A : Type 0} → Result A × List Route → List Neigh → Result A × World
on_routes (r, rs) ns = (r, (rs, ns))

abbrev pub on_neighs : {A : Type 0} → List Route → Result A × List Neigh → Result A × World
on_neighs rs (r, ns) = (r, (rs, ns))

abbrev pub route_key : Route → Option String
route_key = Planning.key Routes.text

abbrev pub neigh_key : Neigh → Option String
neigh_key = NeighEnsure.key Neighbours.text

abbrev pub kernel : Environment World
kernel = record {
  routes = record {
    route_list = λ l w. (ok w.0, w);
    route_add = λ r w. on_routes (add route_key r w.0) w.1;
    route_del = λ r w. on_routes (del route_key r w.0) w.1;
  };
  neighs = record {
    neigh_list = λ i w. (ok w.1, w);
    neigh_set = λ n w. on_neighs w.0 (set neigh_key n w.1);
  };
  addrs = record {
    addr_list = λ l w. (ok [], w);
    addr_add = λ l a w. (ok tt, w);
    addr_del = λ l a w. (ok tt, w);
  };
  links = record {
    link_list = λ w. (ok [], w);
    link_by_name = λ name w. (found (some (device name)), w);
    link_add = λ l w. (ok l, w);
    link_del = λ l w. (ok tt, w);
    link_set_up = λ l w. (ok tt, w);
    link_set_hardware_addr = λ l mac w. (ok tt, w);
    link_set_mtu = λ l mtu w. (ok tt, w);
  };
  constants = constants;
  net_text = Routes.text;
  ip_text = Neighbours.text;
  range_routes = order;
  range_neighs = order;
  range_addrs = order;
  range_nodes = order;
  vxlan_type = "vxlan";
}

abbrev pub route_table : World → String → Option Route
route_table w = table route_key w.0

abbrev pub neigh_table : World → String → Option Neigh
neigh_table w = table neigh_key w.1

pub adding : Adds route_table route_key kernel.routes.route_add
adding = record {
  adds = λ w v k h f.
      let (rs, run, t) = (add-Adds route_key).adds w.0 v k h f in
      ((rs, w.1), ap (λ r. on_routes r w.1) run, t);
}

pub deleting : Dels route_table route_key kernel.routes.route_del
deleting = record {
  dels = λ w v a k h f.
      let (rs, run, t) = (del-Dels route_key).dels w.0 v a k h f in
      ((rs, w.1), ap (λ r. on_routes r w.1) run, t);
}

pub setting : Sets neigh_table neigh_key kernel.neighs.neigh_set
setting = record {
  sets = λ w v k h.
      let (ns, run, t) = (set-Sets neigh_key).sets w.1 v k h in
      ((w.0, ns), ap (λ r. on_neighs w.0 r) run, t);
}

pub routes_listed : (l : Option Link) → Ensure.Lists Routes.text route_table kernel.routes l
unfolding lookup
routes_listed l = record {
  lists = λ w. (w.0, refl, λ k. ground (arith, Routes.lookup-index_actual Routes.text k [] w.0));
}

pub neighs_listed : (l : Link) → NeighEnsure.Lists Neighbours.text neigh_table kernel.neighs l
unfolding lookup
neighs_listed l = record {
  lists = λ w. (w.1, refl, λ k. ground (arith, Neighbours.lookup-index_neighs k [] w.1));
}

pub apart : Apart kernel neigh_table
apart = record { listed = λ l w k. refl; added = λ r w k. refl; deleted = λ r w k. refl }

abbrev pub node_named : String → NodeInfo
node_named name = record {
  name = name;
  address = some address;
  pod_cidr = some network;
  network_available = true;
}

abbrev pub cells : ℕ → NodeInfo
cells p = node_named (if p == 0 then "a" else "b")

abbrev pub node_map : NodeMap
node_map = record {
  me_predicate = is_a;
  ready = true;
  nodes = ("a", 0) ∷ ("b", 1) ∷ [];
  version = 3;
  me = some 0;
  cells = cells;
  next = 2;
}

abbrev pub nodes : List NodeInfo
nodes = node_named "a" ∷ node_named "b" ∷ []

pub seen : snapshot order node_map ≡ (some (node_named "a"), nodes, 3)
unfolding snapshot
seen = refl

pub fresh : is_applied node_map 0 ≡ false
unfolding is_applied
fresh = refl

pub neighs_of_peers :
    (neighs : List Neigh) × (peer_neighs kernel 3 (peers (node_named "a") nodes) ≡ ok neighs)
unfolding peers peer peer_neighs map_to_mac to4 byte_at
neighs_of_peers = (_, refl)

pub distinct :
    Distinct (routes_by_text Routes.text (overlay_route kernel 3) (peers (node_named "a") nodes))
unfolding peers peer routes_by_text lookup
distinct = (refl, tt)

abbrev pub ready : VxlanRoutingProvider
ready = record provider { link = some (device "vxlan1") }

abbrev pub done : VxlanRoutingProvider
done = record ready { last_version_applied = 3 }

pub v4 : (q : Peer) → In q (peers (node_named "a") nodes) → to4 q.pod_cidr.ip ≢ none
unfolding peers peer to4
v4 q (inl same) = subst (λ (x : Peer). to4 x.pod_cidr.ip ≢ none) same (λ h. ground (arith, h))
v4 q (inr h) = absurd h

networks : Distinct (peers_by_text Routes.text (peers (node_named "a") nodes))
unfolding peers peer peers_by_text lookup
networks = (refl, tt)

addresses : Distinct (neighs_by_text kernel 3 (peers (node_named "a") nodes))
unfolding peers peer neighs_by_text lookup bytes_equal
addresses = (refl, (refl, tt))

ensure_cidrs-Reached_example :
    (w' : World) × (ensure_cidrs kernel ready node_map ([], []) ≡ (ok tt, done, w'))
    × ((q : Peer)
        → In q (peers (node_named "a") nodes)
        → Reached kernel 3 route_table neigh_table w' q)
    × ((k : String)
        → lookup k (peers_by_text Routes.text (peers (node_named "a") nodes)) ≡ none
        → route_table w' k ≡ none)
    × ((k : String)
        → lookup k (neighs_by_text kernel 3 (peers (node_named "a") nodes)) ≡ none
        → neigh_table w' k ≡ neigh_table ([], []) k)
    × (ensure_cidrs kernel done node_map w' ≡ (ok tt, done, w'))
ensure_cidrs-Reached_example =
    ensure_cidrs-Reached kernel (device "vxlan1") route_table neigh_table
      (routes_listed (some (device "vxlan1"))) adding deleting (neighs_listed (device "vxlan1"))
      setting apart ready node_map (node_named "a") nodes network address ([], []) refl seen refl
      refl fresh (λ h. ground (arith, h)) v4 networks addresses
