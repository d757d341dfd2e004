-- ===== src/Providers/Gre/Ensure.antt =====
-- What `EnsureCIDRs` of pkg/routing/gre/provider.go makes of the kernel's links and routes.
use networking.Prelude.{
  Result, ℕ, Bool, true, false, Option, none, some, List, In, String, ok, string_eq, nat_eq, ◌≡◌,
  ◌≢◌, arith, refl, ap, ◌∙◌, subst, sym, inl, inr,
}
use networking.Prelude.Dict.{Dict, lookup, Distinct, RangeOrder}
use networking.Net.{IpNet}
use networking.Netlink.{Route, Link, RouteCalls, LinkCalls}
use networking.Netutil.Kernel.{Adds}
use networking.Netutil.Frame.{routes_ensure-Keeps}
use networking.Netutil.Links.Create.{LinkLaws}
use networking.Netutil.Routes
use networking.Netutil.Routes.{route_equal}
use networking.Netutil.Routes.Planning.{key}
use networking.Netutil.Routes.Ensure.{Lists}
use networking.Netutil.Routes.Additive.{Compatible}
use networking.Nodes.Info.{NodeInfo}
use networking.Nodes.Map.{NodeMap, is_version, snapshot}
use networking.Providers.Peers.{Peer, peers, is_applied}
use networking.Providers.Routed.{Routed, routes_by_text, peers-Routed}
use networking.Providers.Gre.{
  build_tunnel_name, named_peers, tunnel, route_to, apply_nodes, ensure_cidrs,
}
use networking.Providers.Gre.Up.{IsUp, SetsUp}
use networking.Providers.Gre.Tunnels.{
  Begins, named_peers-Named, tunnels_by_name, lookup-tunnels_by_name, peers_by_text,
  routes_by_text-Distinct, routes_by_text-In, or_no_link, route_in, peers_of, peers_of-In,
  In-peers_of, route_to-index, lookup-peers_by_text, tunnel_routes-route_in,
}
use networking.Providers.Gre.Built.{Apart, Fades, Built, tunnels_up, tunnels-Fades}
use networking.Providers.Gre.Reached.{
  Carries, Tunnelled, Fits, AreTunnelled, Tunnel-Built, Built-kept,
}

to_network : (l : Link) (p : Peer) → (route_to l p).dst ≡ some p.pod_cidr
unfolding route_to
to_network l p = refl

module _ {W : Type 0} (text : IpNet → String) (has_prefix : String → String → Bool)
    (gre_type : String) (routes : RouteCalls W) (links : LinkCalls W)
    (range_routes : RangeOrder String Route) (range_links : RangeOrder String Link)
    (range_nodes : RangeOrder String ℕ) (link_table : W → String → Option Link)
    (route_table : W → String → Option Route) (laws : LinkLaws links link_table)
    (raising : SetsUp links link_table) (begins : Begins has_prefix)
    (listing : Lists text route_table routes none)
    (adding : Adds route_table (key text) routes.route_add) (me : NodeInfo) (ps : List Peer)
    (names : Distinct (tunnels_by_name gre_type me (named_peers ps)))
    (networks : Distinct (peers_by_text text (peers_of (named_peers ps))))
    (apart : Apart text link_table route_table
      (λ k. lookup k (peers_by_text text (peers_of (named_peers ps))) ≢ none)
      routes
      links) where
  abbrev qs : List (Peer × String)
  qs = named_peers ps

  Built-at :
      (w w2 : W) (m : Dict String Link)
      → ((k : String) (e : Link)
          → lookup k (tunnels_by_name gre_type me qs) ≡ some e
          → Built e (link_table w k) (lookup k m) (link_table w2 k))
      → (q : Peer × String) → In q qs
      → (a : Link) × (x : Link) × (lookup q.1 m ≡ some a)
        × (link_table w2 q.1 ≡ some x)
        × IsUp x
        × (a.attrs.index ≡ x.attrs.index)
        × Carries (link_table w q.1) me q.0 x
  Built-at w w2 m built q there =
      Tunnel-Built me gre_type q (link_table w q.1) (lookup q.1 m) (link_table w2 q.1)
        (built q.1 (tunnel gre_type me q) (lookup-tunnels_by_name gre_type me qs q names there))

  -- The route over the map's link of a peer.
  route_in-lookup :
      (m : Dict String Link) (q : Peer × String) (a : Link)
      → In q qs
      → lookup q.1 m ≡ some a
      → route_in m q.0 ≡ route_to a q.0
  route_in-lookup m q a there h =
      let known = (named_peers-Named ps q there).0 in
      ap (λ o. route_to (or_no_link o) q.0) (ap (λ n. lookup n m) (sym known) ∙ h)

  routes_fit :
      (w w2 : W) (m : Dict String Link)
      → Fades text link_table route_table
          (λ k. lookup k (peers_by_text text (peers_of qs)) ≢ none)
          w
          w2
      → ((q : Peer × String) → In q qs → Fits text link_table route_table w q)
      → ((q : Peer × String) (old : Link)
          → In q qs
          → link_table w q.1 ≡ some old
          → lookup q.1 m ≡ some old)
      → Compatible route_table (routes_by_text text (route_in m) (peers_of qs)) w2
  routes_fit w w2 m fades fits kept k e a h g =
      let (p, there, named, same) = routes_by_text-In text (route_in m) (peers_of qs) k e h in
      let (q, member, mine) = peers_of-In qs p there in
      let ours =
        subst (λ n. lookup n (peers_by_text text (peers_of qs)) ≢ none) named
          (lookup-peers_by_text text (peers_of qs) p there) in
      elim (fades k ours) [
        | inl gone ↦ absurd (cc (gone, g))
        | inr left ↦
            let at : text q.0.pod_cidr ≡ k = ap (λ z. text z.pod_cidr) mine ∙ named in
            let (l, held, good) = fits q member a (ap (route_table w) at ∙ sym left ∙ g) in
            let over = route_in-lookup m q l member (kept q l member held) in
            subst (λ z. route_equal a z ≡ true) (sym over ∙ ap (route_in m) mine ∙ sym same) good
      ]

  -- The table of routes does not touch the links.
  links_kept :
      (expected : List Route) (w2 w3 : W)
      → Routes.ensure text routes range_routes none expected false w2 ≡ (ok tt, w3)
      → (k : String) → link_table w3 k ≡ link_table w2 k
  links_kept expected w2 w3 routed =
      subst (λ (z : Result {0} Unit × W). (k : String) → link_table z.1 k ≡ link_table w2 k) routed
        (routes_ensure-Keeps (λ w'. (k : String) → link_table w' k ≡ link_table w2 k) text routes
          range_routes (λ o w' h k. apart.routes_listed o w' k ∙ h k)
          (λ r w' h k. apart.route_added r w' k ∙ h k)
          (λ r w' h k. apart.route_deleted r w' k ∙ h k) none expected false w2 (λ k. refl))

  -- Tunnels that are built, and routes over the links of the map, are what the peers need.
  peer-Tunnelled :
      (w w2 w3 : W) (m : Dict String Link)
      → ((k : String) (e : Link)
          → lookup k (tunnels_by_name gre_type me qs) ≡ some e
          → Built e (link_table w k) (lookup k m) (link_table w2 k))
      → ((k : String) → link_table w3 k ≡ link_table w2 k)
      → ((p : Peer) → In p (peers_of qs) → Routed text (route_in m) route_table w3 p)
      → (q : Peer × String) → In q qs
      → Tunnelled text link_table route_table me w w3 q
  peer-Tunnelled w w2 w3 m built kept there q i =
      let (a, x, mine, now, up, index, carries) = Built-at w w2 m built q i in
      let (r, held, good) = there q.0 (In-peers_of qs q i) in
      let over = route_in-lookup m q a i mine ∙ route_to-index a x q.0 index in
      (x, kept q.1 ∙ now, up, carries, (r, held, subst (λ z. route_equal r z ≡ true) over good))

  apply_nodes-AreTunnelled :
      (nodes : List NodeInfo) (w : W)
      → peers me nodes ≡ ps
      → ((q : Peer × String) → In q qs → Fits text link_table route_table w q)
      → (w' : W) × (apply_nodes text has_prefix gre_type routes links range_routes range_links
            range_nodes
            (some me)
            nodes
            w
          ≡ (ok tt, w'))
        × AreTunnelled text has_prefix gre_type link_table route_table me ps w w'
  unfolding apply_nodes
  apply_nodes-AreTunnelled nodes w same fits =
      let (m, w1, w2, run, ran, built, others) =
        tunnels_up text has_prefix gre_type routes links range_routes range_links range_nodes
          link_table laws raising begins me ps names w in
      let fades =
        tunnels-Fades text has_prefix gre_type routes links range_routes range_links range_nodes
          link_table route_table _ apart w _ "k8s-" _ w1 w2 m run ran in
      let made = tunnel_routes-route_in m qs (λ q i.
        let (a, x, mine, now, up, index, carries) = Built-at w w2 m built q i in
        ((named_peers-Named ps q i).0, λ e. absurd (cc))) in
      let (w3, routed, there, rest) =
        peers-Routed text (route_in m)
          (λ p. to_network (or_no_link (lookup (build_tunnel_name p.pod_cidr.ip) m)) p) routes
          range_routes none route_table listing adding (peers_of qs)
          (routes_by_text-Distinct text (route_in m) (peers_of qs) networks) w2
          (routes_fit w w2 m fades fits (λ q old i h.
            Built-kept (tunnel gre_type me q) (link_table w q.1) (lookup q.1 m) (link_table w2 q.1)
              old h (built q.1 _ (lookup-tunnels_by_name gre_type me qs q names i)))) in
      let kept = links_kept _ w2 w3 routed in
      (
        w3,
        rw (same, run, ran, made, routed) refl,
        (peer-Tunnelled w w2 w3 m built kept there, λ k h. kept k ∙ others k h),
      )

module _ {W : Type 0} (text : IpNet → String) (has_prefix : String → String → Bool)
    (gre_type : String) (routes : RouteCalls W) (links : LinkCalls W)
    (range_routes : RangeOrder String Route) (range_links : RangeOrder String Link)
    (range_nodes : RangeOrder String ℕ) (link_table : W → String → Option Link)
    (route_table : W → String → Option Route) (laws : LinkLaws links link_table)
    (raising : SetsUp links link_table) (begins : Begins has_prefix)
    (listing : Lists text route_table routes none)
    (adding : Adds route_table (key text) routes.route_add) (me : NodeInfo) (nodes : List NodeInfo)
    (names : Distinct (tunnels_by_name gre_type me (named_peers (peers me nodes))))
    (networks : Distinct (peers_by_text text (peers_of (named_peers (peers me nodes)))))
    (apart : Apart text link_table route_table
      (λ k. lookup k (peers_by_text text (peers_of (named_peers (peers me nodes)))) ≢ none)
      routes
      links) where
  -- On a kernel that keeps one link for each name and lists its routes, whose calls on links make no
  -- route to a pod network and whose calls on routes leave the links alone; for a node map that is
  -- ready, has moved on and knows the local node; and for peers whose tunnels and networks differ
  -- and whose networks have no routes but over their tunnels: `EnsureCIDRs` succeeds and returns the
  -- version to remember. Afterwards each peer with an IPv4 network has its tunnel (the one that was
  -- there, or a new one between the two nodes' addresses), which is up, and a route to its network
  -- over it; other links with the prefix of tunnels are gone and the rest stay; and a second call
  -- with the map as it is does nothing.
  pub ensure_cidrs-AreTunnelled :
      (node_map : NodeMap) (last_version_applied : ℕ) (w : W)
      → snapshot range_nodes node_map ≡ (some me, nodes, node_map.version)
      → is_applied node_map last_version_applied ≡ false
      → node_map.version ≢ 0
      → ((q : Peer × String)
          → In q (named_peers (peers me nodes))
          → Fits text link_table route_table w q)
      → (w' : W) × (ensure_cidrs text has_prefix gre_type routes links range_routes range_links
            range_nodes node_map last_version_applied w
          ≡ (ok node_map.version, w'))
        × AreTunnelled text has_prefix gre_type link_table route_table me (peers me nodes) w w'
        × (ensure_cidrs text has_prefix gre_type routes links range_routes range_links range_nodes
              node_map node_map.version w'
            ≡ (ok node_map.version, w'))
  unfolding ensure_cidrs is_applied is_version
  ensure_cidrs-AreTunnelled node_map last_version_applied w seen fresh nonzero fits =
      let (w', run, tunnelled) =
        apply_nodes-AreTunnelled text has_prefix gre_type routes links range_routes range_links
          range_nodes link_table route_table laws raising begins listing adding me (peers me nodes)
          names networks apart nodes w refl fits in
      (w', ground (arith, seen, fresh, run), tunnelled, ground (arith, nonzero))
