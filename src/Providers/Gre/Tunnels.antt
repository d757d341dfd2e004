-- ===== src/Providers/Gre/Tunnels.antt =====
-- The tunnels and the routes that `EnsureCIDRs` of pkg/routing/gre/provider.go makes for the peers
-- whose tunnel has a name.
use Prim.Native.String.{◌++◌}
use Prim.Native.String.append
use Prim.Native.String.{len}
use networking.Prelude.{
  Bool, true, Option, none, some, List, [], ◌∷◌, map, In, String, ok, string_eq, ◌==◌, ltb, ◌≡◌,
  ◌≢◌, ◌⊎◌, arith, refl, ap, ◌∙◌, subst, sym, Option-cases, Bool-cases, inl, inr,
}
use networking.Prelude.Dict.{Dict, lookup, Distinct}
use networking.Net.{Ip, IpNet, to4}
use networking.Prelude.Int.{pos}
use networking.Netlink.{Route, Link, other_link}
use networking.Netutil.Kernel.{values, Keys, lookup-cons}
use networking.Netutil.Links.Compare.{name_of}
use networking.Nodes.Info.{NodeInfo}
use networking.Providers.Peers.{Peer}
use networking.Providers.Routed.{routes_by_text}
use networking.Providers.Gre.{
  dash, tunnel_text, build_tunnel_name, named_peers, tunnel, route_to, tunnel_routes,
}

-- A name and what has it: `strings.HasPrefix` of a text and its beginning.
abbrev pub Begins : (String → String → Bool) → Type 0
Begins has_prefix = (s rest : String) → has_prefix (s ++ rest) s ≡ true

after_prefix :
    (rest : String) → "k8s-" ++ rest ≡ String.◌∷◌ "k" (String.◌∷◌ "8" (String.◌∷◌ "s" (dash rest)))
after_prefix rest =
    append.cons "k" "8s-" rest
    ∙ ap (String.◌∷◌ "k") (
        append.cons "8" "s-" rest
        ∙ ap (String.◌∷◌ "8") (
            append.cons "s" "-" rest
            ∙ ap (String.◌∷◌ "s") (append.cons "-" "" rest ∙ ap dash (append.nil rest))))

build_tunnel_name-cases :
    (ip : Ip)
    → (build_tunnel_name ip ≡ "") ⊎ ((rest : String) × (build_tunnel_name ip ≡ "k8s-" ++ rest))
unfolding build_tunnel_name tunnel_text
build_tunnel_name-cases ip = elim (Option-cases (to4 ip)) [
  | inl e ↦ inl (rw (e, build_tunnel_name) refl)
  | inr (ip4, e) ↦ elim (Bool-cases (ltb 15 (len (tunnel_text ip4)))) [
    | inl q ↦ inl (rw (e, build_tunnel_name) (ground (arith, q)))
    | inr q ↦
        let same : build_tunnel_name ip ≡ tunnel_text ip4 =
          rw (e, build_tunnel_name) (ground (arith, q)) in
        inr (_, same ∙ sym (after_prefix _))
  ]
]

-- A peer with the name of its tunnel.
abbrev pub Named : Peer × String → Type 0
Named (p, name) =
    (name ≡ build_tunnel_name p.pod_cidr.ip) × (rest : String) × (name ≡ "k8s-" ++ rest)

pub named_peers-Named : (ps : List Peer) (q : Peer × String) → In q (named_peers ps) → Named q
unfolding named_peers
named_peers-Named [] q h = absurd h
named_peers-Named (p ∷ ps) q h =
    let name = build_tunnel_name p.pod_cidr.ip in
    elim (Bool-cases (name == "")) [
      | inl c ↦
          let same : named_peers (p ∷ ps) ≡ named_peers ps = ground (arith, c) in
          named_peers-Named ps q (subst (In q) same h)
      | inr c ↦
          let same : named_peers (p ∷ ps) ≡ (p, name) ∷ named_peers ps = ground (arith, c) in
          elim (subst (In q) same h) [
            | inr i ↦ named_peers-Named ps q i
            | inl e ↦ elim (build_tunnel_name-cases p.pod_cidr.ip) [
              | inl f ↦ absurd (ground (arith, c, string_eq.same_iff name "", f))
              | inr (rest, f) ↦ subst Named e (refl, rest, f)
            ]
          ]
    ]

-- The tunnels by their names.
module _ (gre_type : String) (me : NodeInfo) where
  unfoldable pub tunnels_by_name : List (Peer × String) → Dict String Link
  tunnels_by_name [] = []
  tunnels_by_name (q ∷ qs) = (q.1, tunnel gre_type me q) ∷ tunnels_by_name qs

  pub values-tunnels_by_name :
      (qs : List (Peer × String)) → values (tunnels_by_name qs) ≡ map (tunnel gre_type me) qs
  unfolding tunnels_by_name
  values-tunnels_by_name [] = refl
  values-tunnels_by_name (q ∷ qs) = ap (◌∷◌ (tunnel gre_type me q)) (values-tunnels_by_name qs)

  -- An entry is the tunnel of one of the peers.
  pub tunnels_by_name-In :
      (qs : List (Peer × String)) (k : String) (e : Link)
      → lookup k (tunnels_by_name qs) ≡ some e
      → (q : Peer × String) × In q qs × (q.1 ≡ k) × (e ≡ tunnel gre_type me q)
  unfolding tunnels_by_name lookup
  tunnels_by_name-In [] k e h = absurd (ground (arith, h))
  tunnels_by_name-In (q ∷ qs) k e h = elim (Bool-cases (q.1 == k)) [
    | inl c ↦ (q, inl refl, (string_eq.same_iff q.1 k).0 c, ground (arith, h, c))
    | inr c ↦
        let (r, there, named, same) = tunnels_by_name-In qs k e (ground (arith, h, c)) in
        (r, inr there, named, same)
  ]

  pub tunnels_by_name-Keys : (qs : List (Peer × String)) → Keys name_of (tunnels_by_name qs)
  unfolding tunnel
  tunnels_by_name-Keys qs k e h =
      let (q, there, named, same) = tunnels_by_name-In qs k e h in ap name_of same ∙ ap some named

  pub lookup-tunnels_by_name :
      (qs : List (Peer × String)) (q : Peer × String)
      → Distinct (tunnels_by_name qs)
      → In q qs
      → lookup q.1 (tunnels_by_name qs) ≡ some (tunnel gre_type me q)
  unfolding tunnels_by_name lookup
  lookup-tunnels_by_name [] q d h = absurd h
  lookup-tunnels_by_name (r ∷ qs) q d (inl e) =
      subst (λ x. lookup x.1 (tunnels_by_name (r ∷ qs)) ≡ some (tunnel gre_type me x)) e
        (lookup-cons r.1 (tunnel gre_type me r) (tunnels_by_name qs))
  lookup-tunnels_by_name (r ∷ qs) q d (inr h) =
      ground (arith, lookup-tunnels_by_name qs q d.1 h, d.0, string_eq.same_iff r.1 q.1)

-- The peers by the texts of their networks.
module _ (text : IpNet → String) where
  unfoldable pub peers_by_text : List Peer → Dict String Peer
  peers_by_text [] = []
  peers_by_text (p ∷ ps) = (text p.pod_cidr, p) ∷ peers_by_text ps

  pub peers_by_text-In :
      (ps : List Peer) (k : String) (p : Peer)
      → lookup k (peers_by_text ps) ≡ some p
      → In p ps × (text p.pod_cidr ≡ k)
  unfolding peers_by_text lookup
  peers_by_text-In [] k p h = absurd (ground (arith, h))
  peers_by_text-In (q ∷ ps) k p h = elim (Bool-cases (text q.pod_cidr == k)) [
    | inl c ↦
        let same : q ≡ p = ground (arith, h, c) in
        (inl same, ap (λ x. text x.pod_cidr) (sym same) ∙ (string_eq.same_iff _ k).0 c)
    | inr c ↦
        let (there, named) = peers_by_text-In ps k p (ground (arith, h, c)) in (inr there, named)
  ]

  pub lookup-peers_by_text :
      (ps : List Peer) (p : Peer) → In p ps → lookup (text p.pod_cidr) (peers_by_text ps) ≢ none
  unfolding peers_by_text lookup
  lookup-peers_by_text [] p h e = absurd h
  lookup-peers_by_text (q ∷ ps) p (inl same) e =
      let here = lookup-cons (text q.pod_cidr) q (peers_by_text ps) in
      absurd (ground (arith, e, here, ap (λ x. text x.pod_cidr) same))
  lookup-peers_by_text (q ∷ ps) p (inr h) e = ground (
    arith,
    lookup-peers_by_text ps p h,
    e,
    string_eq.same_iff (text q.pod_cidr) (text p.pod_cidr),
  )

  module _ (make : Peer → Route) where
    pub lookup-routes_by_text-none :
        (ps : List Peer) (k : String)
        → lookup k (peers_by_text ps) ≡ none
        → lookup k (routes_by_text text make ps) ≡ none
    unfolding peers_by_text routes_by_text lookup
    lookup-routes_by_text-none [] k h = refl
    lookup-routes_by_text-none (p ∷ ps) k h = ground (arith, h, lookup-routes_by_text-none ps k)

    pub routes_by_text-Distinct :
        (ps : List Peer) → Distinct (peers_by_text ps) → Distinct (routes_by_text text make ps)
    unfolding peers_by_text routes_by_text
    routes_by_text-Distinct [] d = tt
    routes_by_text-Distinct (p ∷ ps) d =
        (lookup-routes_by_text-none ps (text p.pod_cidr) d.0, routes_by_text-Distinct ps d.1)

    pub routes_by_text-In :
        (ps : List Peer) (k : String) (r : Route)
        → lookup k (routes_by_text text make ps) ≡ some r
        → (p : Peer) × In p ps × (text p.pod_cidr ≡ k) × (r ≡ make p)
    unfolding routes_by_text lookup
    routes_by_text-In [] k r h = absurd (ground (arith, h))
    routes_by_text-In (p ∷ ps) k r h = elim (Bool-cases (text p.pod_cidr == k)) [
      | inl c ↦ (p, inl refl, (string_eq.same_iff _ k).0 c, ground (arith, h, c))
      | inr c ↦
          let (q, there, named, same) = routes_by_text-In ps k r (ground (arith, h, c)) in
          (q, inr there, named, same)
    ]

-- What stands for a link that the map does not have.
abbrev pub no_link : Link
no_link = record {
  type_of = "";
  attrs = record { index = 0; mtu = pos 0; name = ""; hardware_addr = []; flags = 0 };
  body = other_link;
}

abbrev pub or_no_link : Option Link → Link
or_no_link none = no_link
or_no_link (some l) = l

-- The route over the tunnel of a map.
abbrev pub route_in : Dict String Link → Peer → Route
route_in m p = route_to (or_no_link (lookup (build_tunnel_name p.pod_cidr.ip) m)) p

abbrev pub peers_of : List (Peer × String) → List Peer
peers_of qs = map (λ (q : Peer × String). q.0) qs

pub peers_of-In :
    (qs : List (Peer × String)) (p : Peer)
    → In p (peers_of qs)
    → (q : Peer × String) × In q qs × (q.0 ≡ p)
peers_of-In [] p h = absurd h
peers_of-In (q ∷ qs) p (inl e) = (q, inl refl, e)
peers_of-In (q ∷ qs) p (inr h) = let (r, there, same) = peers_of-In qs p h in (r, inr there, same)

pub In-peers_of : (qs : List (Peer × String)) (q : Peer × String) → In q qs → In q.0 (peers_of qs)
In-peers_of [] q h = h
In-peers_of (r ∷ qs) q (inl e) = inl (ap (λ (z : Peer × String). z.0) e)
In-peers_of (r ∷ qs) q (inr h) = inr (In-peers_of qs q h)

pub route_to-index :
    (a x : Link) (p : Peer) → a.attrs.index ≡ x.attrs.index → route_to a p ≡ route_to x p
unfolding route_to
route_to-index a x p e = ap (λ i. record (route_to a p) { link_index = i }) e

pub tunnel_routes-route_in :
    (m : Dict String Link) (qs : List (Peer × String))
    → ((q : Peer × String)
        → In q qs
        → (q.1 ≡ build_tunnel_name q.0.pod_cidr.ip) × (lookup q.1 m ≢ none))
    → tunnel_routes m qs ≡ ok (map (route_in m) (peers_of qs))
unfolding tunnel_routes
tunnel_routes-route_in m [] h = refl
tunnel_routes-route_in m ((p, name) ∷ qs) h =
    let (named, there) = h (p, name) (inl refl) in
    let rest = tunnel_routes-route_in m qs (λ q i. h q (inr i)) in
    elim (Option-cases (lookup name m)) [
      | inl e ↦ absurd (there e)
      | inr (a, e) ↦
          let mine : route_to a p ≡ route_in m p =
            ap (λ o. route_to (or_no_link o) p) (sym e ∙ ap (λ n. lookup n m) named) in
          rw (tunnel_routes, e, rest) (ap (λ r. ok (r ∷ map (route_in m) (peers_of qs))) mine)
    ]
