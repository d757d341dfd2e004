-- ===== src/Agent/Tests/Round.antt =====
-- The theorem about a round of the agent, on a world of a table of routes, a table of neighbours and
-- files.
use text.Mathlib.Text.{starts_with}
use networking.Prelude.{
  ℕ, false, Option, none, some, List, [], ◌∷◌, String, Exec, Result, Error, ok, string_eq, nat_eq,
  ◌==◌, if◌then◌else◌, ◌≡◌, arith, refl, ap,
}
use networking.Prelude.Dict.{lookup, insert, lookup-insert, Distinct, RangeOrder}
use networking.Net.{to4, byte_at}
use networking.Netlink.{Route, Neigh, XfrmState, XfrmStateCalls, XfrmPolicyCalls, found}
use networking.Netutil.Kernel.{Adds, Dels, Sets}
use networking.Netutil.Routes.Ensure
use networking.Netutil.Neighbours.Ensure as NeighEnsure
use networking.Nodes.Info.{NodeInfo}
use networking.Nodes.Map.{NodeMap, snapshot}
use networking.Cni.{FileCalls, expected_config}
use networking.Cni.Write.{Disk, held}
use networking.Cni.Tests as Files
use networking.Controller.{check_context, began, ensured, wrote, marked, steps}
use networking.Ipsec.States.{Constants}
use networking.Providers.Peers.{peers, peer, is_applied}
use networking.Providers.Routed.{routes_by_text}
use networking.Vxlan.{map_to_mac}
use networking.Vxlan.Link.{Environment, VxlanRoutingProvider}
use networking.Vxlan.Legacy.{Watching}
use networking.Vxlan.Current.{overlay_route, peer_neighs}
use networking.Vxlan.Ensure.{Apart, Settled}
use networking.Vxlan.Tests.Devices.{order, device, constants, network, address}
use networking.Vxlan.Tests.Tables
use networking.Agent.Choice.{vxlan}
use networking.Agent.Round.{Elsewhere, environment, round-Settled}

abbrev World : Type 0
World = Tables.World × Files.World

abbrev on_tables : {A : Type 0} → Exec Tables.World A → Exec World A
on_tables m w = let (r, t) = m w.0 in (r, (t, w.1))

abbrev kernel : Environment World
kernel = record {
  routes = record {
    route_list = λ l. on_tables (Tables.kernel.routes.route_list l);
    route_add = λ r. on_tables (Tables.kernel.routes.route_add r);
    route_del = λ r. on_tables (Tables.kernel.routes.route_del r);
  };
  neighs = record {
    neigh_list = λ i. on_tables (Tables.kernel.neighs.neigh_list i);
    neigh_set = λ n. on_tables (Tables.kernel.neighs.neigh_set n);
  };
  addrs = record {
    addr_list = λ l w. (ok [], w);
    addr_add = λ l a w. (ok tt, w);
    addr_del = λ l a w. (ok tt, w);
  };
  links = record {
    link_list = λ w. (ok [], w);
    link_by_name = λ name w. (found (some (device name)), w);
    link_add = λ l w. (ok l, w);
    link_del = λ l w. (ok tt, w);
    link_set_up = λ l w. (ok tt, w);
    link_set_hardware_addr = λ l mac w. (ok tt, w);
    link_set_mtu = λ l mtu w. (ok tt, w);
  };
  constants = constants;
  net_text = Tables.kernel.net_text;
  ip_text = Tables.kernel.ip_text;
  range_routes = order;
  range_neighs = order;
  range_addrs = order;
  range_nodes = order;
  vxlan_type = "vxlan";
}

abbrev route_table : World → String → Option Route
route_table w = Tables.route_table w.0

abbrev neigh_table : World → String → Option Neigh
neigh_table w = Tables.neigh_table w.0

adding : Adds route_table Tables.route_key kernel.routes.route_add
adding = record {
  adds = λ w v k h f.
      let (t', run, t) = Tables.adding.adds w.0 v k h f in
      ((t', w.1), ap (λ (r : Result {0} Unit × Tables.World). (r.0, (r.1, w.1))) run, t);
}

deleting : Dels route_table Tables.route_key kernel.routes.route_del
deleting = record {
  dels = λ w v a k h f.
      let (t', run, t) = Tables.deleting.dels w.0 v a k h f in
      ((t', w.1), ap (λ (r : Result {0} Unit × Tables.World). (r.0, (r.1, w.1))) run, t);
}

setting : Sets neigh_table Tables.neigh_key kernel.neighs.neigh_set
setting = record {
  sets = λ w v k h.
      let (t', run, t) = Tables.setting.sets w.0 v k h in
      ((t', w.1), ap (λ (r : Result {0} Unit × Tables.World). (r.0, (r.1, w.1))) run, t);
}

routes_listed : Ensure.Lists kernel.net_text route_table kernel.routes (some (device "vxlan1"))
routes_listed = record {
  lists = λ w.
      let (l, run, read) = (Tables.routes_listed (some (device "vxlan1"))).lists w.0 in
      (l, ap (λ (r : Result (List Route) × Tables.World). (r.0, (r.1, w.1))) run, read);
}

neighs_listed : NeighEnsure.Lists kernel.ip_text neigh_table kernel.neighs (device "vxlan1")
neighs_listed = record {
  lists = λ w.
      let (l, run, read) = (Tables.neighs_listed (device "vxlan1")).lists w.0 in
      (l, ap (λ (r : Result (List Neigh) × Tables.World). (r.0, (r.1, w.1))) run, read);
}

apart : Apart kernel neigh_table
apart = record { listed = λ l w k. refl; added = λ r w k. refl; deleted = λ r w k. refl }

abbrev files : FileCalls World
files = record {
  read_file = λ p w. let (r, f) = Files.files.read_file p w.1 in (r, (w.0, f));
  write_file = λ p s w. (ok tt, (w.0, insert p s w.1));
}

abbrev file : World → String → Option String
file w = Files.file w.1

disk : Disk files file
disk = record {
  read_some = λ p s w h. ground (arith, h);
  read_none = λ p w h. ground (arith, h);
  store = λ p s w. (w.0, insert p s w.1);
  written = λ p s w. refl;
  file-store = λ p q s w. lookup-insert p q s w.1;
}

abbrev mark : String → Exec World Unit
mark name w = (ok tt, w)

abbrev path : String
path = "/etc/cni/net.d/10-kopeio.conflist"

elsewhere : Elsewhere files file disk path mark route_table neigh_table
unfolding disk
elsewhere = record {
  stored = λ q s w. ((λ k. refl), (λ k. refl));
  marks = λ name w. (w, refl, ((λ k. refl), (λ k. refl)), refl);
}

abbrev me : NodeInfo
me = record (Tables.node_named "a") { network_available = false }

abbrev cells : ℕ → NodeInfo
cells p = if p == 0 then me else Tables.node_named "b"

abbrev node_map : NodeMap
node_map = record Tables.node_map { cells = cells }

abbrev nodes : List NodeInfo
nodes = me ∷ Tables.node_named "b" ∷ []

seen : snapshot order node_map ≡ (some me, nodes, 3)
unfolding snapshot
seen = refl

fresh : is_applied node_map 0 ≡ false
unfolding is_applied
fresh = refl

neighs_of_peers : (neighs : List Neigh) × (peer_neighs kernel 3 (peers me nodes) ≡ ok neighs)
unfolding peers peer peer_neighs map_to_mac to4 byte_at
neighs_of_peers = (_, refl)

distinct : Distinct (routes_by_text kernel.net_text (overlay_route kernel 3) (peers me nodes))
unfolding peers peer routes_by_text lookup
distinct = (refl, tt)

abbrev watching : Watching World
watching = record { write_file = λ p s w. (ok tt, w); start_monitor = λ i w. (ok tt, w) }

abbrev states : XfrmStateCalls World
states = record {
  xfrm_state_list = λ w. (ok [], w);
  xfrm_state_add = λ s w. (ok tt, w);
  xfrm_state_update = λ s w. (ok tt, w);
  xfrm_state_del = λ s w. (ok tt, w);
  xfrm_state_flush = λ w. (ok tt, w);
}

abbrev policies : XfrmPolicyCalls World
policies = record {
  xfrm_policy_list = λ w. (ok [], w);
  xfrm_policy_add = λ s w. (ok tt, w);
  xfrm_policy_update = λ s w. (ok tt, w);
  xfrm_policy_del = λ s w. (ok tt, w);
  xfrm_policy_flush = λ w. (ok tt, w);
}

abbrev range_states : RangeOrder ℕ XfrmState
range_states = record { range = λ m. m; lookup-range = λ k m d. refl; range-Distinct = λ m d. d }

abbrev numbers : Constants
numbers = record {
  proto_ah = 51;
  proto_esp = 50;
  mode_tunnel = 1;
  dir_in = 0;
  dir_out = 1;
  dir_fwd = 2;
  socket_in = 3;
  socket_out = 4;
}

abbrev live : World → Option Error × World
live w = (none, w)

abbrev before : World
before = (([], []), [])

abbrev done : VxlanRoutingProvider
done = record Tables.ready { last_version_applied = 3 }

round-Settled_example :
    (w' : World) × (steps
        (environment kernel watching starts_with "gre" order states policies range_states numbers
          Files.replace_all files path live mark)
        7
        (record {
          phase = check_context;
          node_map = node_map;
          world = (vxlan Tables.ready, before);
          deeds = [];
        })
      ≡ record {
        phase = check_context;
        node_map = node_map;
        world = (vxlan done, w');
        deeds = marked "a" ∷ wrote ∷ ensured ∷ began ∷ [];
      })
    × Settled kernel
        (device "vxlan1")
        route_table
        neigh_table
        (peers me nodes)
        neighs_of_peers.0
        before
        w'
    × (held files path file w' ≡ expected_config kernel.net_text Files.replace_all (some network))
round-Settled_example =
    round-Settled kernel watching starts_with "gre" order states policies range_states numbers
      Files.replace_all files path live mark file disk (device "vxlan1") route_table neigh_table
      routes_listed adding deleting neighs_listed setting apart elsewhere Tables.ready node_map 0
      nodes network address neighs_of_peers.0 [] before before refl refl refl seen refl refl fresh
      (λ h. ground (arith, h)) neighs_of_peers.1 distinct refl
