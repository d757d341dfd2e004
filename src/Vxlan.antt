-- ===== src/Vxlan.antt =====
-- `mapToMAC`, of which pkg/routing/vxlan/vxlanrouting.go and pkg/routing/vxlan2/vxlan2routing.go
-- have a copy each.
pub mod Tests
pub mod Link
pub mod Current
pub mod Legacy
pub mod Monitor
pub mod Mtu
pub mod Ensure
pub mod Entries
pub mod Reached
pub mod Device
pub mod Overlay
pub mod First
pub mod Unwatched
use networking.Prelude.{
  ℕ, Option, none, some, List, [], ◌∷◌, Result, ok, err, fatal, ◌≡◌, ◌≢◌, arith, refl, Option-cases,
  inl, inr, length, drop, length-drop, ap, ◌∙◌, sym, if◌then◌else◌, Bool-cases,
}
use networking.Net.{Ip, to4, byte_at, is_v4_mapped}
use networking.Net.Equality.{canonical}
use networking.Net.Four.{length-to4, four_bytes}

unfoldable pub map_to_mac : Ip → Result (List ℕ)
map_to_mac ip = elim (to4 ip) [
  | none ↦ fatal "unexpected non-ipv4 IP"
  | some ip4 ↦ ok (0x00 ∷ 0x53 ∷ byte_at 0 ip4 ∷ byte_at 1 ip4 ∷ byte_at 2 ip4 ∷ byte_at 3 ip4 ∷ [])
]

-- What a successful call says of the address.
mac_lem :
    (ip : Ip) (mac : List ℕ)
    → map_to_mac ip ≡ ok mac
    → (mac ≡ 0x00 ∷ 0x53 ∷ canonical ip) × (length mac ≡ 6)
unfolding map_to_mac canonical
mac_lem ip mac h = elim (Option-cases (to4 ip)) [
  | inl e ↦ absurd (ground (arith, e, h))
  | inr (ip4, e) ↦
      let four = four_bytes ip4 (length-to4 ip ip4 e) in
      let said : mac ≡ 0x00 ∷ 0x53 ∷ ip4 = ground (arith, e, h, four) in
      (rw (e, canonical) said, ground (arith, said, length-to4 ip ip4 e))
]

-- The hardware address of the device of a node's network.
abbrev pub mac_for : Ip → List ℕ
mac_for ip = 0x00 ∷ 0x53 ∷ canonical ip

pub map_to_mac-mac_for : (ip : Ip) → to4 ip ≢ none → map_to_mac ip ≡ ok (mac_for ip)
unfolding map_to_mac canonical
map_to_mac-mac_for ip h = elim (Option-cases (to4 ip)) [
  | inl e ↦ absurd (h e)
  | inr (ip4, e) ↦ let four = four_bytes ip4 (length-to4 ip ip4 e) in ground (arith, e, sym four)
]

-- Two addresses of nodes' networks that are mapped to one hardware address are two forms of one
-- address, and a hardware address has six bytes.
map_to_mac_unique :
    (a b : Ip) (mac : List ℕ)
    → map_to_mac a ≡ ok mac
    → map_to_mac b ≡ ok mac
    → (canonical a ≡ canonical b) × (length mac ≡ 6)
map_to_mac_unique a b mac p q =
    let from_a = mac_lem a mac p in
    let from_b = mac_lem b mac q in (ground (arith, from_a.0, from_b.0), from_a.1)
