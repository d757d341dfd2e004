-- ===== src/Netutil/Tests/Addresses.antt =====
-- The theorem about pkg/routing/netutil/link_addresses.go at a link with one address.
use networking.Prelude.{
  Bool, true, false, none, some, List, [], ◌∷◌, String, Error, ok, err, if◌then◌else◌, ◌==◌,
  string_eq, ◌≡◌, arith, refl, Option-cases, Bool-cases, inl, inr, subst,
}
use networking.Prelude.Dict.{Dict, lookup, insert, lookup-insert, RangeOrder}
use networking.Net.{IpNet, to4, byte_at, is_link_local_unicast, bytes_equal}
use networking.Prelude.Int.{pos}
use networking.Netlink.{Addr, Link, other_link, AddrCalls}
use networking.Netutil.Kernel.{or_else}
use networking.Netutil.Addresses.{
  addr_equal, index_actual_addr, index_actual_addrs, index_expected_addr, index_expected_addrs,
  ensure_link_addresses,
}
use networking.Netutil.Addresses.Ensure.{key, Lists, addresses_cannot_change}
use networking.Netutil.Addresses.Exact.{Exactly, addresses_exact}
use networking.Netutil.Tests.Kernel.{here, table, add, del, add-Adds, add-Refuses, del-Dels}

-- The texts of one address and of all link-local ones; the others share one here.
abbrev pub text : IpNet → String
text n =
    if is_link_local_unicast n.ip
    then "fe80::/64"
    else if bytes_equal n.ip (10 ∷ 0 ∷ 0 ∷ 2 ∷ [])
    then "10.0.0.2/32"
    else "10.0.0.3/32"

abbrev pub local : String → Bool
local k = k == "fe80::/64"

abbrev pub calls : AddrCalls (List Addr)
calls = record {
  addr_list = λ link w. (ok w, w);
  addr_add = λ link. add (key text);
  addr_del = λ link. del (key text);
}

abbrev pub order : RangeOrder String Addr
order = record { range = λ m. m; lookup-range = λ k m d. refl; range-Distinct = λ m d. d }

-- Only link-local addresses have the text of link-local addresses.
local-text : (n : IpNet) → local (text n) ≡ is_link_local_unicast n.ip
local-text n = elim (Bool-cases (is_link_local_unicast n.ip)) [
  | inl e ↦ rw e refl
  | inr e ↦ elim (Bool-cases (bytes_equal n.ip (10 ∷ 0 ∷ 0 ∷ 2 ∷ []))) [
    | inl f ↦ rw (e, f) refl
    | inr f ↦ rw (e, f) refl
  ]
]

lookup-index_actual_addr :
    (k : String) (m : Dict String Addr) (a : Addr)
    → lookup k (index_actual_addr text m a)
      ≡ (if local k then lookup k m else or_else (here (key text) a k) (lookup k m))
unfolding index_actual_addr here
lookup-index_actual_addr k m a = elim (Option-cases a.ipnet) [
  | inl e ↦ ground (arith, e)
  | inr (c, e) ↦
      ground (arith, e, lookup-insert (text c) k a m, string_eq.same_iff (text c) k, local-text c)
]

lookup-index_actual_addrs :
    (k : String) (m : Dict String Addr) (l : List Addr)
    → lookup k (index_actual_addrs text m l)
      ≡ (if local k then lookup k m else or_else (table (key text) l k) (lookup k m))
unfolding index_actual_addrs table
lookup-index_actual_addrs k m [] = ground arith
lookup-index_actual_addrs k m (a ∷ l) = ground (
  arith,
  lookup-index_actual_addrs k (index_actual_addr text m a) l,
  lookup-index_actual_addr k m a,
)

abbrev link : Link
link = record {
  type_of = "vxlan";
  attrs = record { index = 2; mtu = pos 1450; name = "vxlan1"; hardware_addr = []; flags = 0 };
  body = other_link;
}

pub listing : (l : Link) → Lists text (table (key text)) local calls l
unfolding lookup
listing l = record { lists = λ w. (w, refl, λ k. ground (arith, lookup-index_actual_addrs k [] w)) }

abbrev addr : String → Addr
addr label = record {
  ipnet = some (record { ip = 10 ∷ 0 ∷ 0 ∷ 2 ∷ []; mask = 255 ∷ 255 ∷ 255 ∷ 255 ∷ [] });
  label = label;
  flags = 0;
  scope = 0;
}

found : lookup "10.0.0.2/32" (index_expected_addrs text [] (addr "b" ∷ [])) ≡ some (addr "b")
unfolding lookup insert index_expected_addrs index_expected_addr is_link_local_unicast bytes_equal
    to4 byte_at
found = refl

held : table (key text) (addr "a" ∷ []) "10.0.0.2/32" ≡ some (addr "a")
unfolding table here is_link_local_unicast bytes_equal to4 byte_at
held = refl

differs : addr_equal (addr "a") (addr "b") ≡ false
unfolding addr_equal
differs = refl

addresses_cannot_change_example :
    (x : Error) × (w' : List Addr) × (ensure_link_addresses text calls order link
        (addr "b" ∷ [])
        (addr "a" ∷ [])
      ≡ (err x, w'))
    × (table (key text) w' "10.0.0.2/32" ≡ some (addr "a"))
addresses_cannot_change_example =
    addresses_cannot_change text calls order link (table (key text)) local (listing link)
      (add-Adds (key text)) (add-Refuses (key text)) (addr "b" ∷ []) (addr "a" ∷ []) "10.0.0.2/32"
      (addr "b") (addr "a") found refl held differs

-- On a link without addresses.
none_held : (k : String) (e a : Addr) → table (key text) [] k ≡ some a → addr_equal a e ≡ true
unfolding table
none_held k e a h = absurd (ground (arith, h))

wanted_text :
    (k : String)
    → lookup k (index_expected_addrs text [] (addr "b" ∷ []))
      ≡ (if "10.0.0.2/32" == k then some (addr "b") else none)
unfolding lookup insert index_expected_addrs index_expected_addr is_link_local_unicast bytes_equal
    to4 byte_at
wanted_text k = refl

not_local : local "10.0.0.2/32" ≡ false
not_local = refl

wanted_near :
    (k : String) (e : Addr)
    → lookup k (index_expected_addrs text [] (addr "b" ∷ [])) ≡ some e
    → local k ≡ false
wanted_near k e h =
    let mine : ("10.0.0.2/32" == k) ≡ true = ground (arith, h, wanted_text k) in
    subst (λ n. local n ≡ false) ((string_eq.same_iff "10.0.0.2/32" k).0 mine) not_local

addresses_exact_example :
    (w' : List Addr) × (ensure_link_addresses text calls order link (addr "b" ∷ []) []
      ≡ (ok tt, w'))
    × Exactly text local (addr "b" ∷ []) (table (key text) []) (table (key text) w')
addresses_exact_example =
    addresses_exact text calls order link (table (key text)) local (listing link)
      (add-Adds (key text)) (del-Dels (key text)) (addr "b" ∷ []) [] wanted_near
      (λ k e a h g. none_held k e a g)
