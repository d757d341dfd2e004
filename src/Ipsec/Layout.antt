-- ===== src/Ipsec/Layout.antt =====
-- The bits of `spi`: two ones, two numbers of fourteen bits, and two bits for the protocol.
use networking.Prelude.{ℕ, ◌+◌, ◌-◌, ◌*◌, ◌/◌, ◌^◌, ◌<◌, ok, ◌≡◌, arith, Option-cases, inl, inr}
use networking.Prelude.Bits.{bit_or_disjoint, bit_and_fourteen_ones}
use networking.Net.{IpNet, to4}
use networking.Ipsec.Numeral.{big_endian, mask_size, compute_node_numeral, spi}

-- A number that `computeNodeNumeral` gives to a node has at most fourteen bits.
pub numeral_bound : (n : IpNet) (v : ℕ) → compute_node_numeral n ≡ ok v → v < 2 ^ 14
unfolding compute_node_numeral
numeral_bound n v h = elim (Option-cases (to4 n.ip)) [
  | inl e ↦ absurd (cc)
  | inr (a, e) ↦
      let m = big_endian 0 a / 2 ^ ((mask_size n.mask).1 - (mask_size n.mask).0) in
      ground (arith, bit_and_fourteen_ones m)
]

-- For numbers of fourteen bits and two low bits, the `|=`s add parts that do not overlap.
pub spi_sum :
    (src dst low : ℕ)
    → src < 2 ^ 14
    → dst < 2 ^ 14
    → low < 4
    → spi src dst low ≡ 0xc0000000 + src * 2 ^ 16 + dst * 4 + low
unfolding spi
spi_sum src dst low p q r = ground (
  arith,
  bit_or_disjoint 30 3 (src * 2 ^ 16) (omega arith),
  bit_or_disjoint 16 (0xc000 + src) (dst * 4) (omega arith),
  bit_or_disjoint 2 (0x30000000 + src * 2 ^ 14 + dst) low (omega arith),
)

-- Two SPIs made of numbers of fourteen bits are equal only if the source, the destination and the
-- protocol's bits are, and each of them is a 32-bit number.
pub spi_unique :
    (src dst low src' dst' low' : ℕ)
    → src < 2 ^ 14
    → dst < 2 ^ 14
    → low < 4
    → src' < 2 ^ 14
    → dst' < 2 ^ 14
    → low' < 4
    → (spi src dst low < 2 ^ 32)
      × (spi src dst low ≡ spi src' dst' low' → (src ≡ src') × (dst ≡ dst') × (low ≡ low'))
spi_unique src dst low src' dst' low' p q r p' q' r' =
    ground (arith, spi_sum src dst low p q r, spi_sum src' dst' low' p' q' r')
