-- ===== src/Providers/Gre/Built.antt =====
-- What the first two parts of `EnsureCIDRs` of pkg/routing/gre/provider.go, up to the routes, make of
-- the kernel's links.
use networking.Prelude.{
  Result, ℕ, Bool, true, Option, none, some, List, map, String, ok, for_each, string_eq, nat_eq,
  if◌then◌else◌, ◌≡◌, ◌⊎◌, arith, refl, ap, ◌∙◌, subst, sym, inl, inr,
}
use networking.Prelude.Dict.{Dict, lookup, Distinct, RangeOrder}
use networking.Net.{IpNet}
use networking.Netlink.{Route, Link, RouteCalls, LinkCalls}
use networking.Netutil.Kernel.{values}
use networking.Netutil.Frame.{for_each-Keeps, context-Keeps, unless-Keeps, links_ensure-Keeps}
use networking.Netutil.Links
use networking.Netutil.Links.Compare.{name_of}
use networking.Netutil.Links.Create.{with_index, LinkLaws}
use networking.Netutil.Links.Ensure.{Ensured, links-Ensured}
use networking.Nodes.Info.{NodeInfo}
use networking.Providers.Peers.{Peer}
use networking.Providers.Gre.{named_peers, tunnel, bring_up}
use networking.Providers.Gre.Up.{
  IsUp, Raises, SetsUp, Listed, Raised, Raised-none, Raised-some, for_each-bring_up,
}
use networking.Providers.Gre.Tunnels.{
  Begins, named_peers-Named, tunnels_by_name, values-tunnels_by_name, tunnels_by_name-In,
  tunnels_by_name-Keys,
}

module _ {W : Type 0} (text : IpNet → String) (link_table : W → String → Option Link)
    (route_table : W → String → Option Route) where
  -- No route to a pod network appears: those of `ours` are as they were, or gone.
  abbrev pub Fades : (String → Type 0) → W → W → Type 0
  Fades ours w w' =
      (k : String) → ours k → (route_table w' k ≡ none) ⊎ (route_table w' k ≡ route_table w k)

  -- A call on links may take the routes over a link away, but makes no route to a pod network, and a
  -- call on routes leaves the links alone.
  pub record Apart (ours : String → Type 0) (routes : RouteCalls W) (links : LinkCalls W)
      : Type 0 where
    pub links_listed : (w : W) → Fades ours w (links.link_list w).1
    pub link_added : (l : Link) (w : W) → Fades ours w (links.link_add l w).1
    pub link_deleted : (l : Link) (w : W) → Fades ours w (links.link_del l w).1
    pub link_up : (l : Link) (w : W) → Fades ours w (links.link_set_up l w).1
    pub routes_listed :
        (l : Option Link) (w : W) (k : String)
        → link_table (routes.route_list l w).1 k ≡ link_table w k
    pub route_added :
        (r : Route) (w : W) (k : String) → link_table (routes.route_add r w).1 k ≡ link_table w k
    pub route_deleted :
        (r : Route) (w : W) (k : String) → link_table (routes.route_del r w).1 k ≡ link_table w k

  Fades-Fades :
      (ours : String → Type 0) (w w1 w2 : W) → Fades ours w w1 → Fades ours w1 w2 → Fades ours w w2
  Fades-Fades ours w w1 w2 f g k h = elim (g k h) [
    | inl none_left ↦ inl none_left
    | inr same ↦ elim (f k h) [ inl gone ↦ inl (same ∙ gone) | inr kept ↦ inr (same ∙ kept) ]
  ]

-- What becomes of an expected tunnel: what the kernel held, what the map holds, what is there.
abbrev pub Built : Link → Option Link → Option Link → Option Link → Type 0
Built e (some old) out held' = (x : Link) × (out ≡ some old) × (held' ≡ some x) × Raises old x
Built e none out held' =
    (a : Link) × (x : Link) × (out ≡ some a)
    × (held' ≡ some x)
    × IsUp x
    × (x.attrs.index ≡ a.attrs.index)
    × (x.body ≡ e.body)

pub Listed-Ensured :
    (b : Bool) (o held out held1 : Option Link) (k : String) (a : Link)
    → ((old : Link) → held ≡ some old → old.attrs.name ≡ k)
    → ((e : Link) → o ≡ some e → (e.attrs.name ≡ k) × (e.attrs.flags ≡ 0))
    → Ensured b o held out held1
    → out ≡ some a
    → Listed k a held1
Listed-Ensured b none held out held1 k a there made (q, r) h = absurd (cc)
Listed-Ensured b (some e) (some old) out held1 k a there made (q, r) h =
    let same : old ≡ a = cc in subst (λ z. Listed k z held1) same (there old refl, old, r, λ up. up)
Listed-Ensured b (some e) none out held1 k a there made (x, q, r, body) h =
    let same : with_index x.attrs.index e ≡ a = cc in
    let (named, down) = made e refl in
    let not_up : IsUp (with_index x.attrs.index e) → IsUp x =
      λ up. absurd (ground (arith, up, down)) in
    subst (λ z. Listed k z held1) same (named, x, r, not_up)

Built-Raised :
    (b : Bool) (e : Link) (held out held1 held2 : Option Link)
    → Ensured b (some e) held out held1
    → Raised out held1 held2
    → Built e held out held2
Built-Raised b e (some old) out held1 held2 (q, r) t =
    let (x, there, up) = Raised-some out held1 held2 old old q r t in (x, q, there, up)
Built-Raised b e none out held1 held2 (x, q, r, body) t =
    let made : Link = with_index x.attrs.index e in
    let (x', there, (up, index, same)) = Raised-some out held1 held2 made x q r t in
    (made, x', q, there, up, index, same ∙ body)

Ensured-Raised :
    (b : Bool) (o held out held1 held2 : Option Link)
    → o ≡ none
    → Ensured b o held out held1
    → Raised out held1 held2
    → held2 ≡ (if b then none else held)
Ensured-Raised b (some e) held out held1 held2 h c t = absurd (cc)
Ensured-Raised b none held out held1 held2 h (q, r) t = Raised-none out held1 held2 q t ∙ r

module _ {W : Type 0} (text : IpNet → String) (has_prefix : String → String → Bool)
    (gre_type : String) (routes : RouteCalls W) (links : LinkCalls W)
    (range_routes : RangeOrder String Route) (range_links : RangeOrder String Link)
    (range_nodes : RangeOrder String ℕ) (link_table : W → String → Option Link)
    (laws : LinkLaws links link_table) (raising : SetsUp links link_table)
    (begins : Begins has_prefix) (me : NodeInfo) (ps : List Peer)
    (distinct : Distinct (tunnels_by_name gre_type me (named_peers ps))) where
  abbrev tunnels : Dict String Link
  tunnels = tunnels_by_name gre_type me (named_peers ps)

  link-named : (w : W) (k : String) (v : Link) → link_table w k ≡ some v → v.attrs.name ≡ k
  link-named w k v h =
      let (d, run, dd, kd, read) = laws.listed w in
      let named : name_of v ≡ some k = kd k v (read k ∙ h) in cc

  tunnels-made :
      (k : String) (e : Link) → lookup k tunnels ≡ some e → (e.attrs.name ≡ k) × (e.attrs.flags ≡ 0)
  unfolding tunnel
  tunnels-made k e h =
      let (q, there, named, same) = tunnels_by_name-In gre_type me (named_peers ps) k e h in
      (ap (λ (l : Link). l.attrs.name) same ∙ named, ap (λ (l : Link). l.attrs.flags) same)

  tunnels-prefixed :
      (k : String) (e : Link) → lookup k tunnels ≡ some e → has_prefix k "k8s-" ≡ true
  tunnels-prefixed k e h =
      let (q, there, named, same) = tunnels_by_name-In gre_type me (named_peers ps) k e h in
      let (known, rest, begun) = named_peers-Named ps q there in
      subst (λ n. has_prefix n "k8s-" ≡ true) (sym begun ∙ named) (begins "k8s-" rest)

  -- The first two parts of `EnsureCIDRs`: the tunnels are there and up, and no others.
  pub tunnels_up :
      (w : W)
      → (m : Dict String Link) × (w1 : W) × (w2 : W) × (Links.ensure has_prefix links range_links
            (map (tunnel gre_type me) (named_peers ps))
            "k8s-"
            w
          ≡ (ok m, w1))
        × (for_each
              (bring_up text has_prefix gre_type routes links range_routes range_links range_nodes)
              (values (range_links.range m))
              w1
            ≡ (ok tt, w2))
        × ((k : String) (e : Link)
            → lookup k tunnels ≡ some e
            → Built e (link_table w k) (lookup k m) (link_table w2 k))
        × ((k : String)
            → lookup k tunnels ≡ none
            → link_table w2 k ≡ (if has_prefix k "k8s-" then none else link_table w k))
  tunnels_up w =
      let (m, w1, run, dm, done) =
        links-Ensured has_prefix links range_links link_table laws tunnels "k8s-" w distinct
          (tunnels_by_name-Keys gre_type me (named_peers ps)) tunnels-prefixed in
      let all = range_links.lookup-range in
      let (w2, ran, up) =
        for_each-bring_up text has_prefix gre_type routes links range_routes range_links range_nodes
          link_table raising (range_links.range m) w1 (range_links.range-Distinct m dm)
          (λ k a h.
            Listed-Ensured (has_prefix k "k8s-") (lookup k tunnels) (link_table w k) (lookup k m)
              (link_table w1 k) k a (link-named w k) (tunnels-made k) (done k)
              (sym (all k m dm) ∙ h)) in
      let up' : (k : String) → Raised (lookup k m) (link_table w1 k) (link_table w2 k) =
        λ k. subst (λ o. Raised o (link_table w1 k) (link_table w2 k)) (all k m dm) (up k) in
      (
        m,
        w1,
        w2,
        subst (λ l. Links.ensure has_prefix links range_links l "k8s-" w ≡ (ok m, w1))
            (values-tunnels_by_name gre_type me (named_peers ps)) run,
        ran,
        λ k e h.
            Built-Raised (has_prefix k "k8s-") e (link_table w k) (lookup k m) (link_table w1 k)
              (link_table w2 k)
              (subst
                (λ o.
                  Ensured (has_prefix k "k8s-") o (link_table w k) (lookup k m) (link_table w1 k))
                h (done k))
              (up' k),
        λ k h.
            Ensured-Raised (has_prefix k "k8s-") (lookup k tunnels) (link_table w k) (lookup k m)
              (link_table w1 k) (link_table w2 k) h (done k) (up' k),
      )

module _ {W : Type 0} (text : IpNet → String) (has_prefix : String → String → Bool)
    (gre_type : String) (routes : RouteCalls W) (links : LinkCalls W)
    (range_routes : RangeOrder String Route) (range_links : RangeOrder String Link)
    (range_nodes : RangeOrder String ℕ) (link_table : W → String → Option Link)
    (route_table : W → String → Option Route) (ours : String → Type 0)
    (apart : Apart text link_table route_table ours routes links) (w : W) where
  -- The first two parts of `EnsureCIDRs` make no route.
  pub tunnels-Fades :
      (l : List Link) (prefix : String) (m : List Link) (w1 w2 : W) (r : Dict String Link)
      → Links.ensure has_prefix links range_links l prefix w ≡ (ok r, w1)
      → for_each
          (bring_up text has_prefix gre_type routes links range_routes range_links range_nodes)
          m
          w1
        ≡ (ok tt, w2)
      → Fades text link_table route_table ours w w2
  unfolding bring_up
  tunnels-Fades l prefix m w1 w2 r run ran =
      let step =
        λ (w' w'' : W) (h : Fades text link_table route_table ours w w')
            (g : Fades text link_table route_table ours w' w'').
          Fades-Fades text link_table route_table ours w w' w'' h g in
      let one =
        links_ensure-Keeps (Fades text link_table route_table ours w) has_prefix links range_links
          (λ w' h. step w' _ h (apart.links_listed w'))
          (λ a w' h. step w' _ h (apart.link_added a w'))
          (λ a w' h. step w' _ h (apart.link_deleted a w')) l prefix w (λ k h. inr refl) in
      let two =
        for_each-Keeps (Fades text link_table route_table ours w)
          (bring_up text has_prefix gre_type routes links range_routes range_links range_nodes) m
          (λ a. unless-Keeps (Fades text link_table route_table ours w) _ _ (
            context-Keeps (Fades text link_table route_table ours w) "error from `ip link set up`"
              (links.link_set_up a) (λ w' h. step w' _ h (apart.link_up a w')))) in
      subst (λ (z : Result {0} Unit × W). Fades text link_table route_table ours w z.1) ran
        (two w1 (
          subst
            (λ (z : Result (Dict String Link) × W). Fades text link_table route_table ours w z.1)
            run one))
