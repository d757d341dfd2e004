-- ===== src/Net.antt =====
-- The part of Go's package `net` that the agent computes with: addresses, networks and their
-- comparison, and the two comparisons of pkg/routing/netutil/helpers.go.
pub mod Equality
pub mod Four
use networking.Prelude.{
  ℕ, zero, suc, ◌<◌, ◌/◌, Bool, true, false, not, ◌&&◌, ◌||◌, Option, none, some, List, [], ◌∷◌,
  ◌++◌, ◌==◌, nat_eq, if◌then◌else◌, is_some, length, take, drop, All,
}

-- A `net.IP` that is not nil: its bytes.
abbrev pub Ip : Type 0
Ip = List ℕ

-- `bytes.Equal`
unfoldable pub bytes_equal : List ℕ → List ℕ → Bool
bytes_equal [] [] = true
bytes_equal [] (y ∷ ys) = false
bytes_equal (x ∷ xs) [] = false
bytes_equal (x ∷ xs) (y ∷ ys) = x == y && bytes_equal xs ys

-- The twelve bytes before an IPv4 address in its sixteen-byte form.
abbrev pub v4_in_v6_prefix : List ℕ
v4_in_v6_prefix = 0 ∷ 0 ∷ 0 ∷ 0 ∷ 0 ∷ 0 ∷ 0 ∷ 0 ∷ 0 ∷ 0 ∷ 0xff ∷ 0xff ∷ []

unfoldable pub is_v4_mapped : Ip → Bool
is_v4_mapped ip = length ip == 16 && bytes_equal (take 12 ip) v4_in_v6_prefix

-- `ip.To4()`
unfoldable pub to4 : Ip → Option Ip
to4 ip = if length ip == 4 then some ip else if is_v4_mapped ip then some (drop 12 ip) else none

-- `ip.Equal(x)`
unfoldable pub equal : Ip → Ip → Bool
equal a b =
    if length a == length b
    then bytes_equal a b
    else if length a == 4 && length b == 16
    then is_v4_mapped b && bytes_equal a (drop 12 b)
    else if length a == 16 && length b == 4
    then is_v4_mapped a && bytes_equal (drop 12 a) b
    else false

-- The method on a `net.IP` that may be nil: nil has no bytes.
abbrev pub bytes : Option Ip → List ℕ
bytes none = []
bytes (some ip) = ip

unfoldable pub equal_nilable : Option Ip → Option Ip → Bool
equal_nilable a b = equal (bytes a) (bytes b)

-- `net.IPv4(a, b, c, d)`
unfoldable pub ipv4 : ℕ → ℕ → ℕ → ℕ → Ip
ipv4 a b c d = v4_in_v6_prefix ++ (a ∷ b ∷ c ∷ d ∷ [])

-- A `*net.IPNet` that is not nil. The code gives each of its networks an address and a mask.
pub record IpNet : Type 0 where
  pub ip : Ip
  pub mask : List ℕ

-- helpers.go
unfoldable pub ip_equal : Option Ip → Option Ip → Bool
ip_equal none e = not (is_some e)
ip_equal (some a) none = false
ip_equal (some a) (some e) = equal a e

unfoldable pub ipnet_equal : Option IpNet → Option IpNet → Bool
ipnet_equal none e = not (is_some e)
ipnet_equal (some a) none = false
ipnet_equal (some a) (some e) =
    if not (bytes_equal a.mask e.mask) then false else if not (equal a.ip e.ip) then false else true

-- The byte at an index, where there is one.
unfoldable pub byte_at : ℕ → List ℕ → ℕ
byte_at n [] = 0
byte_at zero (b ∷ bs) = b
byte_at (suc n) (b ∷ bs) = byte_at n bs

-- `ip.IsLinkLocalUnicast()`: 169.254.0.0/16 and fe80::/10.
unfoldable pub is_link_local_unicast : Ip → Bool
is_link_local_unicast ip = elim (to4 ip) [
  | some ip4 ↦ byte_at 0 ip4 == 169 && byte_at 1 ip4 == 254
  | none ↦ length ip == 16 && byte_at 0 ip == 0xfe && byte_at 1 ip / 64 == 2
]

-- The values of a Go `byte`.
abbrev pub AreBytes : List ℕ → Type 0
AreBytes = All (λ b. b < 256)
