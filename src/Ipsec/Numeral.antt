-- ===== src/Ipsec/Numeral.antt =====
-- `computeNodeNumeral` of pkg/routing/ipsec/ipsecrouting.go, and the numbers made of it (`spi`).
use Prim.Native.Nat.{bit_and, bit_or}
use networking.Prelude.{
  ℕ, ◌+◌, ◌-◌, ◌*◌, ◌/◌, ◌%◌, ◌^◌, Bool, true, ◌&&◌, Option, none, some, List, [], ◌∷◌, Result, ok,
  err, errorf, if◌then◌else◌, ◌==◌, nat_eq, length,
}
use networking.Net.{IpNet, to4}

-- The ones that a byte of a mask starts with, if no one follows a zero.
unfoldable pub byte_ones : ℕ → Option ℕ
byte_ones v =
    if v == 0xfe
    then some 7
    else if v == 0xfc
    then some 6
    else if v == 0xf8
    then some 5
    else if v == 0xf0
    then some 4
    else if v == 0xe0
    then some 3
    else if v == 0xc0
    then some 2
    else if v == 0x80
    then some 1
    else if v == 0
    then some 0
    else none

unfoldable pub all_zero : List ℕ → Bool
all_zero [] = true
all_zero (b ∷ rest) = b == 0 && all_zero rest

unfoldable pub mask_length : List ℕ → Option ℕ
mask_length [] = some 0
mask_length (v ∷ rest) =
    let more = mask_length rest in
    if v == 0xff
    then elim more [ none ↦ none | some n ↦ some (8 + n) ]
    else if all_zero rest
    then byte_ones v
    else none

-- `Mask.Size()` of package `net`: ones and bits, or 0 and 0.
unfoldable pub mask_size : List ℕ → ℕ × ℕ
mask_size mask = elim (mask_length mask) [ none ↦ (0, 0) | some n ↦ (n, 8 * length mask) ]

-- `binary.BigEndian.Uint32`, of four bytes.
unfoldable pub big_endian : ℕ → List ℕ → ℕ
big_endian acc [] = acc
big_endian acc (b ∷ rest) = big_endian (acc * 256 + b) rest

unfoldable pub compute_node_numeral : IpNet → Result ℕ
compute_node_numeral pod_cidr = elim (to4 pod_cidr.ip) [
  | none ↦ err (errorf "expected IPv4 PodCidr")
  | some pod_cidr_v4 ↦
      let (ones, bits) = mask_size pod_cidr.mask in
      ok (bit_and (big_endian 0 pod_cidr_v4 / 2 ^ (bits - ones)) 0x3fff)
]

-- `uint32(0xc0000000)` and its three `|=`: the shifts are those of a uint32.
unfoldable pub spi : ℕ → ℕ → ℕ → ℕ
spi src dst low =
    bit_or (bit_or (bit_or 0xc0000000 ((src * 2 ^ 16) % 2 ^ 32)) ((dst * 2 ^ 2) % 2 ^ 32)) low
