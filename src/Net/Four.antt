-- ===== src/Net/Four.antt =====
-- The four bytes of an IPv4 address.
use networking.Prelude.{
  ℕ, zero, suc, some, List, [], ◌∷◌, ◌==◌, nat_eq, length, drop, length-drop, Bool-cases, inl, inr,
  ◌≡◌, arith, refl, subst,
}
use networking.Net.{Ip, to4, byte_at, is_v4_mapped, AreBytes}
use networking.Net.Equality.{canonical}

-- `To4` gives four bytes.
pub length-to4 : (ip ip4 : Ip) → to4 ip ≡ some ip4 → length ip4 ≡ 4
unfolding to4 is_v4_mapped
length-to4 ip ip4 h = ground (arith, h, length-drop 12 ip)

-- A list of four is its four entries.
pub four_bytes :
    (xs : List ℕ)
    → length xs ≡ 4
    → xs ≡ byte_at 0 xs ∷ byte_at 1 xs ∷ byte_at 2 xs ∷ byte_at 3 xs ∷ []
unfolding byte_at
four_bytes [] h = absurd (omega arith)
four_bytes (a ∷ []) h = absurd (omega arith)
four_bytes (a ∷ b ∷ []) h = absurd (omega arith)
four_bytes (a ∷ b ∷ c ∷ []) h = absurd (omega arith)
four_bytes (a ∷ b ∷ c ∷ d ∷ []) h = refl
four_bytes (a ∷ b ∷ c ∷ d ∷ e ∷ rest) h = absurd (omega arith)

All-drop : (n : ℕ) (xs : List ℕ) → AreBytes xs → AreBytes (drop n xs)
All-drop zero xs h = h
All-drop (suc n) [] h = tt
All-drop (suc n) (x ∷ xs) h = All-drop n xs h.1

pub to4-AreBytes : (ip ip4 : Ip) → AreBytes ip → to4 ip ≡ some ip4 → AreBytes ip4
unfolding to4
to4-AreBytes ip ip4 h e = elim (Bool-cases (length ip == 4)) [
  | inl short ↦ let same : ip ≡ ip4 = ground (arith, e, short) in subst AreBytes same h
  | inr long ↦ elim (Bool-cases (is_v4_mapped ip)) [
    | inl q ↦
        let same : drop 12 ip ≡ ip4 = ground (arith, e, long, q) in
        subst AreBytes same (All-drop 12 ip h)
    | inr q ↦ absurd (ground (arith, e, long, q))
  ]
]

pub canonical-to4 : (ip ip4 : Ip) → to4 ip ≡ some ip4 → canonical ip ≡ ip4
unfolding canonical
canonical-to4 ip ip4 e = rw (e, canonical)
