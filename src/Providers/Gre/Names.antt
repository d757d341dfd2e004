-- ===== src/Providers/Gre/Names.antt =====
-- The names that `buildTunnelName` of pkg/routing/gre/provider.go gives to tunnels.
use Prim.Native.Char.{Char, code, len_utf8}
use Prim.Native.String.{len}
use Prim.Native.String.len
use networking.Prelude.{
  ℕ, zero, suc, ◌+◌, ◌-◌, ◌/◌, ◌%◌, ◌<◌, Bool, true, ◌&&◌, none, some, [], ◌∷◌, String,
  if◌then◌else◌, ltb, ◌==◌, nat_eq, string_eq, ◌≡◌, ◌≢◌, arith, refl, sym, ap, ◌∙◌, Option-cases,
  inl, inr,
}
use networking.Net.{Ip, to4, byte_at, AreBytes}
use networking.Net.Equality.{canonical}
use networking.Net.Four.{length-to4, four_bytes, to4-AreBytes, canonical-to4}
use networking.Providers.Gre.{dash, hex_digit, hex_byte, tunnel_text, build_tunnel_name}

-- A test of all numbers below a bound.
all_below : ℕ → (ℕ → Bool) → Bool
all_below zero test = true
all_below (suc n) test = test n && all_below n test

all_below_lem : (n : ℕ) (test : ℕ → Bool) (d : ℕ) → all_below n test ≡ true → d < n → test d ≡ true
unfolding all_below
all_below_lem zero test d h p = absurd (omega arith)
all_below_lem (suc n) test d h p = ground (arith, all_below_lem n test d)

-- The number that a digit stands for.
abbrev digit_value : Char → ℕ
digit_value c = if ltb (code c) 58 then code c - 48 else code c - 87

digit_table :
    all_below 16 (λ d. digit_value (hex_digit d) == d && len_utf8 (hex_digit d) == 1) ≡ true
unfolding all_below hex_digit
digit_table = refl

digit_lem : (d : ℕ) → d < 16 → (digit_value (hex_digit d) ≡ d) × (len_utf8 (hex_digit d) ≡ 1)
digit_lem d h = let both = all_below_lem 16 _ d digit_table h in ground (arith, both)

len-cons : (c : Char) (s : String) → len (String.◌∷◌ c s) ≡ len_utf8 c + len s
len-cons c s = len.cons c s

len-hex_byte : (b : ℕ) (rest : String) → b < 256 → len (hex_byte b rest) ≡ 2 + len rest
unfolding hex_byte
len-hex_byte b rest h = omega (
  arith,
  len-cons (hex_digit (b / 16)) (String.◌∷◌ (hex_digit (b % 16)) rest),
  len-cons (hex_digit (b % 16)) rest,
  (digit_lem (b / 16) (omega arith)).1,
  (digit_lem (b % 16) (omega arith)).1,
)

-- A byte can be read off its digits.
hex_byte_unique :
    (a b : ℕ) (s t : String) → a < 256 → b < 256 → hex_byte a s ≡ hex_byte b t → (a ≡ b) × (s ≡ t)
unfolding hex_byte
hex_byte_unique a b s t p q h =
    let high : hex_digit (a / 16) ≡ hex_digit (b / 16) = cc in
    let low : hex_digit (a % 16) ≡ hex_digit (b % 16) = cc in
    let rest : s ≡ t = cc in
    (
      omega (
        arith,
        ap digit_value high,
        ap digit_value low,
        (digit_lem (a / 16) (omega arith)).0,
        (digit_lem (a % 16) (omega arith)).0,
        (digit_lem (b / 16) (omega arith)).0,
        (digit_lem (b % 16) (omega arith)).0,
      ),
      rest,
    )

byte_bound : (n : ℕ) (ip : Ip) → AreBytes ip → byte_at n ip < 256
unfolding byte_at
byte_bound n [] h = omega arith
byte_bound zero (b ∷ bs) h = h.0
byte_bound (suc n) (b ∷ bs) h = byte_bound n bs h.1

-- What follows the first, the second and the third dash.
abbrev fourth_part : Ip → String
fourth_part ip4 = hex_byte (byte_at 3 ip4) ""

abbrev third_part : Ip → String
third_part ip4 = hex_byte (byte_at 2 ip4) (dash (fourth_part ip4))

abbrev second_part : Ip → String
second_part ip4 = hex_byte (byte_at 1 ip4) (dash (third_part ip4))

abbrev first_part : Ip → String
first_part ip4 = hex_byte (byte_at 0 ip4) (dash (second_part ip4))

len-dash : (rest : String) → len (dash rest) ≡ 1 + len rest
len-dash rest = len-cons "-" rest

len-tunnel_text : (ip4 : Ip) → AreBytes ip4 → len (tunnel_text ip4) ≡ 15
unfolding tunnel_text
len-tunnel_text ip4 h = omega (
  arith,
  len-cons "k" (String.◌∷◌ "8" (String.◌∷◌ "s" (dash (first_part ip4)))),
  len-cons "8" (String.◌∷◌ "s" (dash (first_part ip4))),
  len-cons "s" (dash (first_part ip4)),
  len-dash (first_part ip4),
  len-hex_byte (byte_at 0 ip4) (dash (second_part ip4)) (byte_bound 0 ip4 h),
  len-dash (second_part ip4),
  len-hex_byte (byte_at 1 ip4) (dash (third_part ip4)) (byte_bound 1 ip4 h),
  len-dash (third_part ip4),
  len-hex_byte (byte_at 2 ip4) (dash (fourth_part ip4)) (byte_bound 2 ip4 h),
  len-dash (fourth_part ip4),
  len-hex_byte (byte_at 3 ip4) "" (byte_bound 3 ip4 h),
)

-- Two texts are of the same four bytes.
tunnel_text_unique :
    (a b : Ip)
    → AreBytes a
    → AreBytes b
    → tunnel_text a ≡ tunnel_text b
    → (byte_at 0 a ≡ byte_at 0 b)
      × (byte_at 1 a ≡ byte_at 1 b)
      × (byte_at 2 a ≡ byte_at 2 b)
      × (byte_at 3 a ≡ byte_at 3 b)
unfolding tunnel_text
tunnel_text_unique a b ha hb h =
    let one : first_part a ≡ first_part b = cc in
    let first = hex_byte_unique _ _ _ _ (byte_bound 0 a ha) (byte_bound 0 b hb) one in
    let two : second_part a ≡ second_part b = cc (first.1) in
    let second = hex_byte_unique _ _ _ _ (byte_bound 1 a ha) (byte_bound 1 b hb) two in
    let three : third_part a ≡ third_part b = cc (second.1) in
    let third = hex_byte_unique _ _ _ _ (byte_bound 2 a ha) (byte_bound 2 b hb) three in
    let four : fourth_part a ≡ fourth_part b = cc (third.1) in
    let fourth = hex_byte_unique _ _ _ _ (byte_bound 3 a ha) (byte_bound 3 b hb) four in
    (first.0, second.0, third.0, fourth.0)

-- The limit on the length never strikes.
build_tunnel_name-to4 :
    (ip ip4 : Ip) → AreBytes ip4 → to4 ip ≡ some ip4 → build_tunnel_name ip ≡ tunnel_text ip4
unfolding build_tunnel_name
build_tunnel_name-to4 ip ip4 h e =
    let size = len-tunnel_text ip4 h in rw (e, build_tunnel_name) (ground (arith, size))

build_tunnel_name-none : (ip : Ip) → to4 ip ≡ none → build_tunnel_name ip ≡ ""
unfolding build_tunnel_name
build_tunnel_name-none ip e = rw (e, build_tunnel_name)

-- An IPv4 network gets a name of exactly fifteen bytes, which is not empty, and two networks of one
-- name have the same address.
pub build_tunnel_name_unique :
    (a b : Ip)
    → AreBytes a
    → AreBytes b
    → to4 a ≢ none
    → build_tunnel_name a ≡ build_tunnel_name b
    → (len (build_tunnel_name a) ≡ 15) × (canonical a ≡ canonical b)
build_tunnel_name_unique a b ha hb v4 same = elim (Option-cases (to4 a)) [
  | inl e ↦ absurd (v4 e)
  | inr (a4, e) ↦
      let bytes_a = to4-AreBytes a a4 ha e in
      let text_a = build_tunnel_name-to4 a a4 bytes_a e in
      let size = ap len text_a ∙ len-tunnel_text a4 bytes_a in
      elim (Option-cases (to4 b)) [
        | inl f ↦
            let empty = ap len (same ∙ build_tunnel_name-none b f) in
            absurd (omega (arith, size, empty))
        | inr (b4, f) ↦
            let bytes_b = to4-AreBytes b b4 hb f in
            let (p0, p1, p2, p3) =
              tunnel_text_unique a4 b4 bytes_a bytes_b
                (sym text_a ∙ same ∙ build_tunnel_name-to4 b b4 bytes_b f) in
            let four_a = four_bytes a4 (length-to4 a a4 e) in
            let four_b = four_bytes b4 (length-to4 b b4 f) in
            let equal : a4 ≡ b4 = cc (four_a, four_b, p0, p1, p2, p3) in
            (size, canonical-to4 a a4 e ∙ equal ∙ sym (canonical-to4 b b4 f))
      ]
]
