-- ===== src/Providers/Tests/Tunnels.antt =====
-- The theorem about `EnsureCIDRs` of gre on a kernel whose world is a table of routes and a table of
-- links.
use package.text.Mathlib.Text.{starts_with}
use package.text.Mathlib.TextPositions.{starts_with-append}
use networking.Prelude.{
  none, Option, List, [], ◌∷◌, String, Result, ok, nat_eq, string_eq, ◌≡◌, ◌≢◌, arith, refl, ap,
  inr,
}
use networking.Prelude.Dict.{lookup, Distinct}
use networking.Net.{to4, byte_at}
use networking.Netlink.{Route, Link, RouteCalls, LinkCalls, found}
use networking.Netutil.Kernel.{Adds}
use networking.Netutil.Tests.Kernel.{table, add, del, add-Adds, set-Sets}
use networking.Netutil.Tests.Routes.{text, lookup-index_actual}
use networking.Netutil.Tests.Routes
use networking.Netutil.Tests.Links.{links_table, link_calls, link_laws, raised, table-named}
use networking.Netutil.Tests.Links
use networking.Netutil.Links.Compare.{name_of}
use networking.Netutil.Links.Create.{LinkLaws}
use networking.Netutil.Routes.Planning.{key}
use networking.Netutil.Routes.Ensure.{Lists}
use networking.Providers.Peers.{peers, peer}
use networking.Providers.Gre.{
  named_peers, build_tunnel_name, tunnel_text, hex_byte, hex_digit, ensure_cidrs,
}
use networking.Providers.Gre.Up.{SetsUp}
use networking.Providers.Gre.Tunnels.{Begins, tunnels_by_name, peers_by_text, peers_of}
use networking.Providers.Gre.Built.{Apart}
use networking.Providers.Gre.Ensure.{ensure_cidrs-AreTunnelled}
use networking.Providers.Gre.Reached.{AreTunnelled}
use networking.Providers.Tests.{me, other, node_map, range_nodes, seen, fresh}

abbrev World : Type 0
World = List Route × List Link

abbrev on_routes : {A : Type 0} → Result A × List Route → List Link → Result A × World
on_routes (r, rs) ls = (r, (rs, ls))

abbrev on_links : {A : Type 0} → List Route → Result A × List Link → Result A × World
on_links rs (r, ls) = (r, (rs, ls))

abbrev routes : RouteCalls World
routes = record {
  route_list = λ l w. (ok w.0, w);
  route_add = λ r w. on_routes (add (key text) r w.0) w.1;
  route_del = λ r w. on_routes (del (key text) r w.0) w.1;
}

abbrev links : LinkCalls World
links = record {
  link_list = λ w. on_links w.0 (link_calls.link_list w.1);
  link_by_name = λ name w. (found (links_table w.1 name), w);
  link_add = λ l w. on_links w.0 (link_calls.link_add l w.1);
  link_del = λ l w. on_links w.0 (link_calls.link_del l w.1);
  link_set_up = λ l w. on_links w.0 (link_calls.link_set_up l w.1);
  link_set_hardware_addr = λ l mac w. (ok tt, w);
  link_set_mtu = λ l mtu w. (ok tt, w);
}

abbrev route_table : World → String → Option Route
route_table w = table (key text) w.0

abbrev link_table : World → String → Option Link
link_table w = links_table w.1

laws : LinkLaws links link_table
laws = record {
  listed = λ w.
      let (d, run, dd, kd, read) = link_laws.listed w.1 in (d, ap (on_links w.0) run, dd, kd, read);
  added = λ w l free.
      let (x, ls, run, body, t) = link_laws.added w.1 l free in
      (x, (w.0, ls), ap (on_links w.0) run, body, t);
  deleted = record {
    dels = λ w v a k h f.
        let (ls, run, t) = link_laws.deleted.dels w.1 v a k h f in
        ((w.0, ls), ap (on_links w.0) run, t);
  };
}

raising : SetsUp links link_table
raising = record {
  sets_up = λ w l x f.
      let (ls, run, t) =
        (set-Sets name_of).sets w.1 (raised x) l.attrs.name (table-named w.1 l.attrs.name x f) in
      (raised x, (w.0, ls), ap (on_links w.0) (ground (arith, f, run)), (refl, refl, refl), t);
}

adding : Adds route_table (key text) routes.route_add
adding = record {
  adds = λ w v k h f.
      let (rs, run, t) = (add-Adds (key text)).adds w.0 v k h f in
      ((rs, w.1), ap (λ r. on_routes r w.1) run, t);
}

listing : Lists text route_table routes none
unfolding lookup
listing = record {
  lists = λ w. (w.0, refl, λ k. ground (arith, lookup-index_actual text k [] w.0));
}

begins : Begins starts_with
begins = starts_with-append

one_tunnel :
    named_peers (peers me (me ∷ other ∷ []))
    ≡ (
      record { name = "b"; address = 10 ∷ 0 ∷ 0 ∷ 2 ∷ []; pod_cidr = Routes.pod_net },
      "k8s-64-60-01-00",
    )
      ∷ []
unfolding named_peers peers peer build_tunnel_name to4 tunnel_text hex_byte hex_digit byte_at
one_tunnel = refl

names : Distinct (tunnels_by_name "gre" me (named_peers (peers me (me ∷ other ∷ []))))
unfolding tunnels_by_name lookup named_peers peers peer build_tunnel_name to4 tunnel_text hex_byte
    hex_digit byte_at
names = (refl, tt)

networks : Distinct (peers_by_text text (peers_of (named_peers (peers me (me ∷ other ∷ [])))))
unfolding peers_by_text lookup named_peers peers peer build_tunnel_name to4 tunnel_text hex_byte
    hex_digit byte_at
networks = (refl, tt)

apart :
    Apart text link_table route_table
      (λ k.
        lookup k (peers_by_text text (peers_of (named_peers (peers me (me ∷ other ∷ []))))) ≢ none)
      routes
      links
apart = record {
  links_listed = λ w k h. inr refl;
  link_added = λ l w k h. inr refl;
  link_deleted = λ l w k h. inr refl;
  link_up = λ l w k h. inr refl;
  routes_listed = λ l w k. refl;
  route_added = λ r w k. refl;
  route_deleted = λ r w k. refl;
}

ensure_cidrs-AreTunnelled_example :
    (w' : World) × (ensure_cidrs text starts_with "gre" routes links Routes.order Links.order
        range_nodes node_map 0
        ([], [])
      ≡ (ok 3, w'))
    × AreTunnelled text starts_with "gre" link_table route_table me
        (peers me (me ∷ other ∷ []))
        ([], [])
        w'
    × (ensure_cidrs text starts_with "gre" routes links Routes.order Links.order range_nodes
          node_map 3 w'
        ≡ (ok 3, w'))
unfolding table
ensure_cidrs-AreTunnelled_example =
    ensure_cidrs-AreTunnelled text starts_with "gre" routes links Routes.order Links.order
      range_nodes link_table route_table laws raising begins listing adding me (me ∷ other ∷ [])
      names networks apart node_map 0 ([], []) seen fresh (λ h. ground (arith, h))
      (λ q i r h. absurd (ground (arith, h)))
