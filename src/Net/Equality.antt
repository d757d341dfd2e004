-- ===== src/Net/Equality.antt =====
-- `Equal` of two addresses is equality of what they stand for.
use networking.Prelude.{
  ℕ, Option, true, none, some, List, [], ◌∷◌, ◌++◌, nat_eq, length, take, drop, ◌≡◌, ◌↔◌, arith,
  take-append-drop, length-drop, sym, ap, ◌∙◌, refl,
}
use networking.Net.{
  ip_equal, ipnet_equal, IpNet, Ip, bytes_equal, v4_in_v6_prefix, is_v4_mapped, to4, equal,
}

pub bytes_equal_iff : (xs ys : List ℕ) → (bytes_equal xs ys ≡ true) ↔ (xs ≡ ys)
unfolding bytes_equal
bytes_equal_iff [] [] = (λ _. refl, λ _. refl)
bytes_equal_iff [] (y ∷ ys) = ground arith
bytes_equal_iff (x ∷ xs) [] = ground arith
bytes_equal_iff (x ∷ xs) (y ∷ ys) = ground (arith, bytes_equal_iff xs ys)

-- The four bytes of an IPv4 address, in whichever form it is held; else the bytes as they are.
unfoldable pub canonical : Ip → Ip
unfolding to4
canonical ip = elim (to4 ip) [ some ip4 ↦ ip4 | none ↦ ip ]

mapped_split : (ip : Ip) → is_v4_mapped ip ≡ true → ip ≡ v4_in_v6_prefix ++ drop 12 ip
unfolding is_v4_mapped
mapped_split ip h =
    sym (take-append-drop 12 ip)
    ∙ ap (λ p. p ++ drop 12 ip) ((bytes_equal_iff (take 12 ip) v4_in_v6_prefix).0 (ground arith))

mapped_length : (ip : Ip) → is_v4_mapped ip ≡ true → length ip ≡ 16
unfolding is_v4_mapped
mapped_length ip h = ground arith

-- `Equal` holds exactly of two forms of one address.
pub equal_iff : (a b : Ip) → (equal a b ≡ true) ↔ (canonical a ≡ canonical b)
unfolding equal canonical
equal_iff a b = ground (
  arith,
  bytes_equal_iff a b,
  bytes_equal_iff a (drop 12 b),
  bytes_equal_iff (drop 12 a) b,
  mapped_split a,
  mapped_split b,
  mapped_length a,
  mapped_length b,
  length-drop 12 a,
  length-drop 12 b,
)

-- An address or a network that may be nil, in canonical form.
abbrev pub normal_ip : Option Ip → Option Ip
normal_ip none = none
normal_ip (some a) = some (canonical a)

abbrev pub normal_net : Option IpNet → Option IpNet
normal_net none = none
normal_net (some n) = some (record { ip = canonical n.ip; mask = n.mask })

pub ip_equal_iff : (a e : Option Ip) → (ip_equal a e ≡ true) ↔ (normal_ip a ≡ normal_ip e)
unfolding ip_equal
ip_equal_iff none none = ground arith
ip_equal_iff none (some e) = ground arith
ip_equal_iff (some a) none = ground arith
ip_equal_iff (some a) (some e) = ground (arith, equal_iff a e)

pub ipnet_equal_iff :
    (a e : Option IpNet) → (ipnet_equal a e ≡ true) ↔ (normal_net a ≡ normal_net e)
unfolding ipnet_equal
ipnet_equal_iff none none = ground arith
ipnet_equal_iff none (some e) = ground arith
ipnet_equal_iff (some a) none = ground arith
ipnet_equal_iff (some a) (some e) =
    ground (arith, equal_iff a.ip e.ip, bytes_equal_iff a.mask e.mask)
