-- ===== src/Netutil/Routes/Equality.antt =====
-- `routeEqual` of pkg/routing/netutil/route_table.go.
use networking.Prelude.{
  ℕ, true, Option, none, some, List, [], ◌∷◌, nat_eq, length, map, ◌≡◌, ◌↔◌, arith, refl, ap, ◌∙◌,
}
use networking.Net.{Ip, IpNet}
use networking.Net.Equality.{normal_ip, normal_net, ip_equal_iff, ipnet_equal_iff}
use networking.Netlink.{NexthopInfo, Route}
use networking.Netutil.Routes.{nexthop_info_equal, nexthops_equal, route_equal}

-- A route with its addresses in canonical form, and without what the code does not compare: the
-- flags, new destination and encapsulation of a next hop, and the label, new destination,
-- encapsulation, MTU, advertised segment size and hop limit of a route.
abbrev pub normal_nexthop : NexthopInfo → NexthopInfo
normal_nexthop n = record n { gw = normal_ip n.gw; flags = 0; new_dst = none; encap = none }

abbrev pub normal_route : Route → Route
normal_route r = record r {
  dst = normal_net r.dst;
  src = normal_ip r.src;
  gw = normal_ip r.gw;
  multi_path = map normal_nexthop r.multi_path;
  mpls_dst = none;
  new_dst = none;
  encap = none;
  mtu = 0;
  adv_mss = 0;
  hoplimit = 0;
}

nexthop_info_equal_iff :
    (a e : NexthopInfo) → (nexthop_info_equal a e ≡ true) ↔ (normal_nexthop a ≡ normal_nexthop e)
unfolding nexthop_info_equal
nexthop_info_equal_iff a e = ground (arith, ip_equal_iff a.gw e.gw)

nexthops_equal_iff :
    (xs ys : List NexthopInfo)
    → length xs ≡ length ys
    → (nexthops_equal xs ys ≡ true) ↔ (map normal_nexthop xs ≡ map normal_nexthop ys)
unfolding nexthops_equal
nexthops_equal_iff [] [] h = ground arith
nexthops_equal_iff [] (y ∷ ys) h = absurd (omega arith)
nexthops_equal_iff (x ∷ xs) [] h = absurd (omega arith)
nexthops_equal_iff (x ∷ xs) (y ∷ ys) h =
    ground (arith, nexthop_info_equal_iff x y, nexthops_equal_iff xs ys (omega arith))

length-normal :
    (xs ys : List NexthopInfo)
    → map normal_nexthop xs ≡ map normal_nexthop ys
    → length xs ≡ length ys
length-normal [] [] h = refl
length-normal [] (y ∷ ys) h = absurd (cc)
length-normal (x ∷ xs) [] h = absurd (cc)
length-normal (x ∷ xs) (y ∷ ys) h = ground (arith, length-normal xs ys)

-- `routeEqual` tells exactly whether two routes agree, with each address in canonical form, in
-- everything but the fields that it leaves out: MPLSDst, NewDst, Encap, MTU, AdvMSS and Hoplimit,
-- and the Flags, NewDst and Encap of a next hop.
pub route_equal_iff : (a e : Route) → (route_equal a e ≡ true) ↔ (normal_route a ≡ normal_route e)
unfolding route_equal
route_equal_iff a e = ground (
  arith,
  ipnet_equal_iff a.dst e.dst,
  ip_equal_iff a.src e.src,
  ip_equal_iff a.gw e.gw,
  nexthops_equal_iff a.multi_path e.multi_path,
  length-normal a.multi_path e.multi_path,
)

pub route_equal_refl : (a : Route) → route_equal a a ≡ true
route_equal_refl a = (route_equal_iff a a).1 refl

-- A unicast route of the main table to a network, over one link, through a gateway or none.
abbrev pub Leads : ℕ → IpNet → Option Ip → ℕ → Route → Type 0
Leads index net gw flags r =
    (r.link_index ≡ index)
    × (normal_net r.dst ≡ normal_net (some net))
    × (normal_ip r.gw ≡ normal_ip gw)
    × (r.multi_path ≡ [])
    × (r.table ≡ 254)
    × (r.type_of ≡ 1)
    × (r.flags ≡ flags)

normal-nil : (l : List NexthopInfo) → map normal_nexthop l ≡ [] → l ≡ []
normal-nil [] h = refl
normal-nil (x ∷ l) h = absurd (cc)

-- A route that is equal to one that leads somewhere leads there.
pub route_equal-Leads :
    (index : ℕ) (net : IpNet) (gw : Option Ip) (flags : ℕ) (r e : Route)
    → route_equal r e ≡ true
    → Leads index net gw flags e
    → Leads index net gw flags r
route_equal-Leads index net gw flags r e h (over, to, via, one, main, unicast, set) =
    let same = (route_equal_iff r e).0 h in
    (
      ap (λ (x : Route). x.link_index) same ∙ over,
      ap (λ (x : Route). x.dst) same ∙ to,
      ap (λ (x : Route). x.gw) same ∙ via,
      normal-nil r.multi_path (ap (λ (x : Route). x.multi_path) same ∙ ap (map normal_nexthop) one),
      ap (λ (x : Route). x.table) same ∙ main,
      ap (λ (x : Route). x.type_of) same ∙ unicast,
      ap (λ (x : Route). x.flags) same ∙ set,
    )
