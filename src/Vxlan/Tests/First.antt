-- ===== src/Vxlan/Tests/First.antt =====
-- The theorem about the first `EnsureCIDRs` of vxlan2, on a kernel whose world is links and addresses,
-- and routes and neighbours.
use networking.Prelude.{Option, List, [], String, Exec, ok, string_eq, nat_eq}
use networking.Netlink.{Route, Neigh, Addr, Link, LinkCalls, AddrCalls}
use networking.Netutil.Addresses.Ensure as AddrEnsure
use networking.Netutil.Routes.Ensure
use networking.Netutil.Neighbours.Ensure as NeighEnsure
use networking.Netutil.Tests.Addresses
use networking.Netutil.Tests.Kernel.{table, add, del}
use networking.Netutil.Routes.Planning
use networking.Vxlan.Link.{Environment}
use networking.Vxlan.Tests.Devices.{order}
use networking.Vxlan.Tests.Made
use networking.Vxlan.Tests.Tables

abbrev World : Type 0
World = Made.World × Tables.World

abbrev on_device : {A : Type 0} → Exec Made.World A → Exec World A
on_device m w = let (r, d) = m w.0 in (r, (d, w.1))

abbrev on_tables : {A : Type 0} → Exec Tables.World A → Exec World A
on_tables m w = let (r, t) = m w.1 in (r, (w.0, t))

-- The results of the two kinds of calls.
abbrev left : {A : Type 0} → World → A × Made.World → A × World
left w (r, d) = (r, (d, w.1))

abbrev right : {A : Type 0} → World → A × Tables.World → A × World
right w (r, t) = (r, (w.0, t))

abbrev at_routes : {A : Type 0} → World → A × List Route → A × World
at_routes w (r, rs) = (r, (w.0, (rs, w.1.1)))

abbrev route_key : Route → Option String
route_key = Planning.key Addresses.text

abbrev links : LinkCalls World
links = record {
  link_list = on_device Made.links.link_list;
  link_by_name = λ name w. left w (Made.links.link_by_name name w.0);
  link_add = λ l. on_device (Made.links.link_add l);
  link_del = λ l. on_device (Made.links.link_del l);
  link_set_up = λ l. on_device (Made.links.link_set_up l);
  link_set_hardware_addr = λ l mac. on_device (Made.links.link_set_hardware_addr l mac);
  link_set_mtu = λ l mtu. on_device (Made.links.link_set_mtu l mtu);
}

abbrev addrs : AddrCalls World
addrs = record {
  addr_list = λ l. on_device (Made.addrs.addr_list l);
  addr_add = λ l a. on_device (Made.addrs.addr_add l a);
  addr_del = λ l a. on_device (Made.addrs.addr_del l a);
}

abbrev kernel : Environment World
kernel = record {
  routes = record {
    route_list = λ l w. (ok w.1.0, w);
    route_add = λ r w. at_routes w (add route_key r w.1.0);
    route_del = λ r w. at_routes w (del route_key r w.1.0);
  };
  neighs = record {
    neigh_list = λ i. on_tables (Tables.kernel.neighs.neigh_list i);
    neigh_set = λ n. on_tables (Tables.kernel.neighs.neigh_set n);
  };
  addrs = addrs;
  links = links;
  constants = Tables.kernel.constants;
  net_text = Addresses.text;
  ip_text = Tables.kernel.ip_text;
  range_routes = order;
  range_neighs = order;
  range_addrs = order;
  range_nodes = order;
  vxlan_type = "vxlan";
}

abbrev device : World → Option Link
device w = Made.device w.0

abbrev addr_table : World → String → Option Addr
addr_table w = Made.addr_table w.0

abbrev route_table : World → String → Option Route
route_table w = table route_key w.1.0

abbrev neigh_table : World → String → Option Neigh
neigh_table w = Tables.neigh_table w.1

abbrev before : World
before = (([], []), ([], []))
