-- ===== src/Providers/Tests.antt =====
-- The theorems about the providers of layer2 and gre, for a local node and one peer.
mod Tunnels
use Prim.Native.String.{len}
use networking.Prelude.{
  ℕ, true, false, none, some, List, [], ◌∷◌, In, String, ok, ◌≡◌, ◌≢◌, refl, arith, nat_eq,
  string_eq, ◌==◌, if◌then◌else◌,
}
use networking.Prelude.Int.{pos}
use networking.Prelude.Dict.{lookup, Distinct, RangeOrder}
use networking.Net.{Ip, to4, AreBytes}
use networking.Net.Equality.{canonical}
use networking.Netlink.{Route, other_link}
use networking.Netutil.Tests.Kernel.{table, add-Adds}
use networking.Netutil.Tests.Routes.{text, calls, order, pod_net, listing}
use networking.Netutil.Routes.Planning.{key}
use networking.Nodes.Info.{NodeInfo, blank}
use networking.Nodes.Map.{NodeMap, snapshot}
use networking.Nodes.Tests.{is_a}
use networking.Providers.Peers.{Peer, peer, peers, is_applied}
use networking.Providers.Routed.{Routed, routes_by_text}
use networking.Providers.Layer2.{Layer2RoutingProvider, route_via, ensure_cidrs}
use networking.Netutil.Routes.Equality.{Leads}
use networking.Providers.Layer2.Ensure.{ensure_cidrs_lem}
use networking.Providers.Gre.{build_tunnel_name}
use networking.Providers.Gre.Names.{build_tunnel_name_unique}

abbrev range_nodes : RangeOrder String ℕ
range_nodes = record { range = λ m. m; lookup-range = λ k m d. refl; range-Distinct = λ m d. d }

abbrev me : NodeInfo
me = blank "a"

abbrev other : NodeInfo
other = record {
  name = "b";
  address = some (10 ∷ 0 ∷ 0 ∷ 2 ∷ []);
  pod_cidr = some pod_net;
  network_available = true;
}

abbrev cells : ℕ → NodeInfo
cells p = if p == 0 then me else other

abbrev node_map : NodeMap
node_map = record {
  me_predicate = is_a;
  ready = true;
  nodes = ("a", 0) ∷ ("b", 1) ∷ [];
  version = 3;
  me = some 0;
  cells = cells;
  next = 2;
}

abbrev provider : Layer2RoutingProvider
provider = record {
  underlying_link = record {
    type_of = "device";
    attrs = record { index = 2; mtu = pos 1500; name = "eth0"; hardware_addr = []; flags = 1 };
    body = other_link;
  };
  last_version_applied = 0;
}

abbrev to_other : Peer
to_other = record { name = "b"; address = 10 ∷ 0 ∷ 0 ∷ 2 ∷ []; pod_cidr = pod_net }

seen : snapshot range_nodes node_map ≡ (some me, me ∷ other ∷ [], 3)
unfolding snapshot
seen = refl

one_peer : peers me (me ∷ other ∷ []) ≡ to_other ∷ []
unfolding peers peer
one_peer = refl

fresh : is_applied node_map 0 ≡ false
unfolding is_applied
fresh = refl

distinct : Distinct (routes_by_text text (route_via 2) (peers me (me ∷ other ∷ [])))
unfolding peers peer routes_by_text lookup
distinct = (refl, tt)

ensure_cidrs_lem_example :
    (w' : List Route) × (ensure_cidrs text calls order range_nodes provider node_map []
      ≡ (ok (record provider { last_version_applied = 3 }), w'))
    × ((q : Peer)
        → In q (peers me (me ∷ other ∷ []))
        → (r : Route) × (table (key text) w' (text q.pod_cidr) ≡ some r)
          × Leads 2 q.pod_cidr (some q.address) 0 r)
    × ((k : String)
        → lookup k (routes_by_text text (route_via 2) (peers me (me ∷ other ∷ []))) ≡ none
        → table (key text) w' k ≡ table (key text) [] k)
    × (ensure_cidrs text calls order range_nodes
          (record provider { last_version_applied = 3 })
          node_map
          w'
        ≡ (ok (record provider { last_version_applied = 3 }), w'))
unfolding table
ensure_cidrs_lem_example =
    ensure_cidrs_lem text calls order range_nodes (table (key text)) listing (add-Adds (key text))
      provider node_map me (me ∷ other ∷ []) seen [] fresh (λ h. ground (arith, h)) distinct
      (λ k e a p q. absurd (ground (arith, q)))

abbrev network : Ip
network = 100 ∷ 96 ∷ 1 ∷ 0 ∷ []

four : to4 network ≢ none
unfolding to4
four h = ground (arith, h)

small : AreBytes network
small = (omega arith, (omega arith, (omega arith, (omega arith, tt))))

build_tunnel_name_unique_example :
    (len (build_tunnel_name network) ≡ 15) × (canonical network ≡ canonical network)
build_tunnel_name_unique_example = build_tunnel_name_unique network network small small four refl
