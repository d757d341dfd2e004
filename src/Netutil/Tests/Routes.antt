-- ===== src/Netutil/Tests/Routes.antt =====
-- The theorems about pkg/routing/netutil/route_table.go at a table with one route.
use networking.Prelude.{
  ℕ, true, false, none, some, List, [], ◌∷◌, String, Error, ok, err, if◌then◌else◌, nat_eq,
  string_eq, ◌≡◌, ◌↔◌, arith, refl, Option-cases, inl, inr,
}
use networking.Prelude.Dict.{Dict, lookup, lookup-insert, Distinct, RangeOrder}
use networking.Net.{IpNet, bytes_equal, equal, ip_equal, ipnet_equal}
use networking.Netlink.{Route, RouteCalls}
use networking.Netutil.Kernel.{or_else, Keys}
use networking.Netutil.Diff.{when_some, settled}
use networking.Netutil.Routes.{route_equal, nexthops_equal, index_route, index_actual, ensure}
use networking.Netutil.Routes.Planning.{key}
use networking.Netutil.Routes.Equality.{normal_route, route_equal_iff}
use networking.Netutil.Routes.Ensure.{Lists, ensure_exact, ensure_cannot_change}
use networking.Netutil.Routes.Additive.{ensure_again}
use networking.Netutil.Tests.Kernel.{here, table, add, del, add-Adds, add-Refuses, del-Dels}

-- Texts for two networks.
abbrev pub text : IpNet → String
text n = if bytes_equal n.ip (100 ∷ 96 ∷ 1 ∷ 0 ∷ []) then "100.96.1.0/24" else "100.96.2.0/24"

abbrev pub calls : RouteCalls (List Route)
calls = record {
  route_list = λ link w. (ok w, w);
  route_add = add (key text);
  route_del = del (key text);
}

abbrev pub order : RangeOrder String Route
order = record { range = λ m. m; lookup-range = λ k m d. refl; range-Distinct = λ m d. d }

module _ (net_text : IpNet → String) where
  lookup-index_route :
      (k : String) (m : Dict String Route) (a : Route)
      → lookup k (index_route net_text m a) ≡ or_else (here (key net_text) a k) (lookup k m)
  unfolding index_route here
  lookup-index_route k m a = elim (Option-cases a.dst) [
    | inl e ↦ ground (arith, e)
    | inr (c, e) ↦ ground (arith, e, lookup-insert (net_text c) k a m)
  ]

  pub lookup-index_actual :
      (k : String) (m : Dict String Route) (l : List Route)
      → lookup k (index_actual net_text m l) ≡ or_else (table (key net_text) l k) (lookup k m)
  unfolding index_actual table
  lookup-index_actual k m [] = refl
  lookup-index_actual k m (a ∷ l) =
      ground (arith, lookup-index_actual k (index_route net_text m a) l, lookup-index_route k m a)

pub listing : Lists text (table (key text)) calls none
unfolding lookup
listing = record { lists = λ w. (w, refl, λ k. ground (arith, lookup-index_actual text k [] w)) }

abbrev pub pod_net : IpNet
pod_net = record { ip = 100 ∷ 96 ∷ 1 ∷ 0 ∷ []; mask = 255 ∷ 255 ∷ 255 ∷ 0 ∷ [] }

abbrev route : ℕ → Route
route priority = record {
  link_index = 2;
  ilink_index = 0;
  scope = 0;
  dst = some pod_net;
  src = none;
  gw = some (10 ∷ 0 ∷ 0 ∷ 2 ∷ []);
  multi_path = [];
  protocol = 0;
  priority = priority;
  table = 0;
  type_of = 0;
  tos = 0;
  flags = 0;
  mpls_dst = none;
  new_dst = none;
  encap = none;
  mtu = 0;
  adv_mss = 0;
  hoplimit = 0;
}

abbrev wanted : Dict String Route
wanted = ("100.96.1.0/24", route 1) ∷ []

wanted-Distinct : Distinct wanted
unfolding lookup
wanted-Distinct = (refl, tt)

wanted-Keys : Keys (key text) wanted
unfolding lookup bytes_equal
wanted-Keys k v p = ground (arith, p, string_eq.same_iff "100.96.1.0/24" k)

held : table (key text) (route 0 ∷ []) "100.96.1.0/24" ≡ some (route 0)
unfolding table here bytes_equal
held = refl

differs : route_equal (route 0) (route 1) ≡ false
unfolding route_equal
differs = refl

found : lookup "100.96.1.0/24" wanted ≡ some (route 1)
unfolding lookup
found = refl

route_equal_iff_example :
    (route_equal (route 0) (route 1) ≡ true) ↔ (normal_route (route 0) ≡ normal_route (route 1))
route_equal_iff_example = route_equal_iff (route 0) (route 1)

ensure_exact_example :
    (w' : List Route) × (ensure text calls order none (route 1 ∷ []) true (route 0 ∷ [])
      ≡ (ok tt, w'))
    × ((k : String)
        → table (key text) w' k
          ≡ when_some
              (lookup k wanted)
              (λ e. some (settled route_equal (table (key text) (route 0 ∷ []) k) e)))
ensure_exact_example =
    ensure_exact text calls order none (table (key text)) listing (add-Adds (key text))
      (del-Dels (key text)) wanted wanted-Distinct wanted-Keys (route 0 ∷ [])

ensure_cannot_change_example :
    (x : Error) × (w' : List Route) × (ensure text calls order none
        (route 1 ∷ [])
        false
        (route 0 ∷ [])
      ≡ (err x, w'))
    × (table (key text) w' "100.96.1.0/24" ≡ some (route 0))
ensure_cannot_change_example =
    ensure_cannot_change text calls order none (table (key text)) listing (add-Adds (key text))
      (add-Refuses (key text)) wanted wanted-Distinct wanted-Keys (route 0 ∷ []) "100.96.1.0/24"
      (route 1) (route 0) found held differs

-- The kernel with one route, as it should be.
good : route_equal (route 1) (route 1) ≡ true
unfolding route_equal nexthops_equal ip_equal ipnet_equal equal bytes_equal
good = refl

nothing_else : (k : String) → lookup k wanted ≡ none → table (key text) (route 1 ∷ []) k ≡ none
unfolding table here bytes_equal lookup
nothing_else k h = ground (arith, h)

all_there :
    (k : String) (e : Route)
    → lookup k wanted ≡ some e
    → (a : Route) × (table (key text) (route 1 ∷ []) k ≡ some a) × (route_equal a e ≡ true)
unfolding table here bytes_equal lookup
all_there k e h = (route 1, ground (arith, h), ground (arith, h, good))

ensure_again_example :
    ensure text calls order none (route 1 ∷ []) true (route 1 ∷ []) ≡ (ok tt, route 1 ∷ [])
ensure_again_example =
    ensure_again text calls order none (table (key text)) listing wanted wanted-Distinct wanted-Keys
      true (route 1 ∷ []) all_there (λ k on h. nothing_else k h)
