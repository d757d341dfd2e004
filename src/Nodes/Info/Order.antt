-- ===== src/Nodes/Info/Order.antt =====
-- `sort.Strings`: the order of Go's strings, and a sort by it. Any sort by a total order gives the
-- list that this one gives.
use Prim.Native.Char.{code}
use text.Mathlib.TextEquality.{Char-path}
use mathlib.Core.Logic.{∥∥₁_elim}
use mathlib.Core.HLevel.{hedberg}
use mathlib.Core.List
use text.Mathlib.TextEquality.{eq_iff}
use mathlib.Core.List.{Perm, Permᴰ}
use networking.Prelude.{
  ℕ, Bool, true, false, ◌&&◌, ◌||◌, String, List, [], ◌∷◌, if◌then◌else◌, ltb, ◌==◌, nat_eq, ◌≡◌,
  arith, ◌⊎◌, inl, inr, refl, ap₂, ◌∙◌, Bool-cases, string_eq,
}

-- The code points of a text. Go compares the bytes of the UTF-8 forms, which gives the same order.
abbrev pub codes : String → List ℕ
codes String.[] = []
codes (String.◌∷◌ c s) = code c ∷ codes s

codes_le : List ℕ → List ℕ → Bool
codes_le [] ys = true
codes_le (x ∷ xs) [] = false
codes_le (x ∷ xs) (y ∷ ys) = ltb x y || (x == y && codes_le xs ys)

-- `s <= t` on Go's strings
pub string_le : String → String → Bool
unfolding codes_le
string_le s t = codes_le (codes s) (codes t)

insert_sorted : String → List String → List String
insert_sorted s [] = s ∷ []
insert_sorted s (t ∷ ts) = if string_le s t then s ∷ t ∷ ts else t ∷ insert_sorted s ts

unfoldable pub sort_strings : List String → List String
unfolding insert_sorted string_le
sort_strings [] = []
sort_strings (s ∷ ss) = insert_sorted s (sort_strings ss)

codes-injective : (s t : String) → codes s ≡ codes t → s ≡ t
codes-injective String.[] String.[] h = refl
codes-injective String.[] (String.◌∷◌ d t) h = cc
codes-injective (String.◌∷◌ c s) String.[] h = cc
codes-injective (String.◌∷◌ c s) (String.◌∷◌ d t) h =
    ap₂ String.◌∷◌ (Char-path c d (cc)) (codes-injective s t (cc))

codes_le_antisymm : (xs ys : List ℕ) → codes_le xs ys ≡ true → codes_le ys xs ≡ true → xs ≡ ys
unfolding codes_le
codes_le_antisymm [] [] h k = refl
codes_le_antisymm [] (y ∷ ys) h k = cc
codes_le_antisymm (x ∷ xs) [] h k = cc
codes_le_antisymm (x ∷ xs) (y ∷ ys) h k = ground (arith, codes_le_antisymm xs ys)

codes_le_total : (xs ys : List ℕ) → (codes_le xs ys ≡ true) ⊎ (codes_le ys xs ≡ true)
unfolding codes_le
codes_le_total [] ys = inl refl
codes_le_total (x ∷ xs) [] = inr refl
codes_le_total (x ∷ xs) (y ∷ ys) = ground (arith, codes_le_total xs ys)

codes_le_trans :
    (xs ys zs : List ℕ) → codes_le xs ys ≡ true → codes_le ys zs ≡ true → codes_le xs zs ≡ true
unfolding codes_le
codes_le_trans [] ys zs h k = refl
codes_le_trans (x ∷ xs) [] zs h k = cc
codes_le_trans (x ∷ xs) (y ∷ ys) [] h k = cc
codes_le_trans (x ∷ xs) (y ∷ ys) (z ∷ zs) h k = ground (arith, codes_le_trans xs ys zs)

string_le_antisymm : (s t : String) → string_le s t ≡ true → string_le t s ≡ true → s ≡ t
unfolding string_le
string_le_antisymm s t h k = codes-injective s t (codes_le_antisymm (codes s) (codes t) h k)

string_le_total : (s t : String) → (string_le s t ≡ true) ⊎ (string_le t s ≡ true)
unfolding string_le
string_le_total s t = codes_le_total (codes s) (codes t)

string_le_trans :
    (s t u : String) → string_le s t ≡ true → string_le t u ≡ true → string_le s u ≡ true
unfolding string_le
string_le_trans s t u = codes_le_trans (codes s) (codes t) (codes u)

insert_sorted_comm :
    (s t : String) (us : List String)
    → insert_sorted s (insert_sorted t us) ≡ insert_sorted t (insert_sorted s us)
unfolding insert_sorted
insert_sorted_comm s t [] =
    ground (arith, string_le_total s t, string_le_antisymm s t, string_le_antisymm t s)
insert_sorted_comm s t (u ∷ us) = ground (
  arith,
  string_le_total s t,
  string_le_antisymm s t,
  string_le_trans s t u,
  string_le_trans t s u,
  insert_sorted_comm s t us,
)

sort_strings-Permᴰ : (ss ts : List String) → Permᴰ ss ts → sort_strings ss ≡ sort_strings ts
unfolding sort_strings
sort_strings-Permᴰ [] [] Permᴰ.nil = refl
sort_strings-Permᴰ (s ∷ ss) (t ∷ ts) (Permᴰ.cons e p) = cc (e, sort_strings-Permᴰ ss ts p)
sort_strings-Permᴰ (s ∷ t ∷ us) (t' ∷ s' ∷ us') (Permᴰ.swap e f) =
    cc (e, f, insert_sorted_comm s t (sort_strings us))
sort_strings-Permᴰ ss ts (Permᴰ.trans {l₂ = us} p q) =
    sort_strings-Permᴰ ss us p ∙ sort_strings-Permᴰ us ts q

string_discrete : Discrete String
string_discrete s t = elim (Bool-cases (s == t)) [
  | inl e ↦ yes ((eq_iff s t).0 e)
  | inr e ↦ no (λ p. cc ((eq_iff s t).1 p, e))
]

-- The sorted list depends on the strings alone, and not on the order that they come in.
pub sort_strings-perm : (ss ts : List String) → Perm ss ts → sort_strings ss ≡ sort_strings ts
sort_strings-perm ss ts p =
    ∥∥₁_elim p (List.is_set (hedberg string_discrete) _ _) (sort_strings-Permᴰ ss ts)
