-- ===== src/Ipsec/Distinct.antt =====
-- The SPIs for a list of nodes, given by their numbers, are different.
use networking.Prelude.{ℕ, ◌<◌, ◌^◌, List, [], ◌∷◌, All, ◌≡◌, ◌≢◌, sym, arith}
use networking.Ipsec.Numeral.{spi}
use networking.Ipsec.Layout.{spi_sum, spi_unique}

-- Each of a list is different from the others.
abbrev pub Apart : List ℕ → Type 0
Apart [] = Unit
Apart (x ∷ xs) = All (λ y. x ≢ y) xs × Apart xs

-- The SPIs of the states between a node and each of a list, in the order of the code's loops.
unfoldable pub peer_spis : ℕ → List ℕ → List ℕ
peer_spis m [] = []
peer_spis m (n ∷ ns) = spi n m 0 ∷ spi n m 1 ∷ spi m n 0 ∷ spi m n 1 ∷ peer_spis m ns

unique :
    (src dst l src' dst' l' : ℕ)
    → src < 2 ^ 14
    → dst < 2 ^ 14
    → l < 4
    → src' < 2 ^ 14
    → dst' < 2 ^ 14
    → l' < 4
    → spi src dst l ≡ spi src' dst' l'
    → (src ≡ src') × (dst ≡ dst') × (l ≡ l')
unique src dst l src' dst' l' a b c d e f = (spi_unique src dst l src' dst' l' a b c d e f).1

module _ (m n : ℕ) (small_m : m < 2 ^ 14) (small_n : n < 2 ^ 14) (differ : m ≢ n) where
  -- An SPI of one pair is none of those of another.
  pair_apart :
      (low low' x : ℕ)
      → low < 4
      → low' < 4
      → x < 2 ^ 14
      → m ≢ x
      → n ≢ x
      → ((spi n m low ≢ spi x m low') × (spi n m low ≢ spi m x low'))
        × ((spi m n low ≢ spi x m low') × (spi m n low ≢ spi m x low'))
  pair_apart low low' x h h' small other fresh = (
    (
      λ e. let same = unique n m low x m low' small_n small_m h small small_m h' e in fresh same.0,
      λ e.
          let same = unique n m low m x low' small_n small_m h small_m small h' e in
          differ (sym (same.0)),
    ),
    (
      λ e. let same = unique m n low x m low' small_m small_n h small small_m h' e in other same.0,
      λ e. let same = unique m n low m x low' small_m small_n h small_m small h' e in fresh same.1,
    ),
  )

  -- Nor any of those of a list of other nodes.
  list_apart :
      (low : ℕ) (ns : List ℕ)
      → low < 4
      → All (λ x. x < 2 ^ 14) ns
      → All (λ x. m ≢ x) ns
      → All (λ x. n ≢ x) ns
      → All (λ k. spi n m low ≢ k) (peer_spis m ns) × All (λ k. spi m n low ≢ k) (peer_spis m ns)
  unfolding peer_spis
  list_apart low [] h small others fresh = (tt, tt)
  list_apart low (x ∷ ns) h small others fresh =
      let zero_bits = pair_apart low 0 x h (omega arith) small.0 others.0 fresh.0 in
      let one_bit = pair_apart low 1 x h (omega arith) small.0 others.0 fresh.0 in
      let rest = list_apart low ns h small.1 others.1 fresh.1 in
      (
        (zero_bits.0.0, (one_bit.0.0, (zero_bits.0.1, (one_bit.0.1, rest.0)))),
        (zero_bits.1.0, (one_bit.1.0, (zero_bits.1.1, (one_bit.1.1, rest.1)))),
      )

-- The SPIs for nodes of different numbers are different.
pub peer_spis-Apart :
    (m : ℕ) (ns : List ℕ)
    → m < 2 ^ 14
    → All (λ x. x < 2 ^ 14) ns
    → Apart (m ∷ ns)
    → Apart (peer_spis m ns)
unfolding peer_spis
peer_spis-Apart m [] small bounds apart = tt
peer_spis-Apart m (n ∷ ns) small bounds apart =
    let (m_apart, n_apart) = apart in
    let rest = peer_spis-Apart m ns small bounds.1 (m_apart.1, n_apart.1) in
    let with_zero =
      list_apart m n small bounds.0 m_apart.0 0 ns (omega arith) bounds.1 m_apart.1 n_apart.0 in
    let with_one =
      list_apart m n small bounds.0 m_apart.0 1 ns (omega arith) bounds.1 m_apart.1 n_apart.0 in
    let bounds_n = bounds.0 in
    let differ = m_apart.0 in
    let s00 = spi_sum n m 0 bounds_n small (omega arith) in
    let s01 = spi_sum n m 1 bounds_n small (omega arith) in
    let s10 = spi_sum m n 0 small bounds_n (omega arith) in
    let s11 = spi_sum m n 1 small bounds_n (omega arith) in
    (
      (
        ground (arith, s00, s01),
        (ground (arith, s00, s10), (ground (arith, s00, s11), with_zero.0)),
      ),
      (
        (ground (arith, s01, s10), (ground (arith, s01, s11), with_one.0)),
        ((ground (arith, s10, s11), with_zero.1), (with_one.1, rest)),
      ),
    )
