-- ===== src/Prelude/Outcome.antt =====
-- What a Go function that returns an error, or that ends the process, comes back with; and code
-- that calls the outside world, whose state `W` is passed along.
use Prim.Native.String.{String}
use mathlib.Core.Path.{◌≡◌, refl}
use mathlib.Core.Logic.{◌⊎◌, inl, inr}
use mathlib.Core.List.{List, [], ◌∷◌}

-- `errors.New` and the `%v` or `%w` of `fmt.Errorf`.
pub data Error : Type 0 where
  errorf : String → Error
  wrap : String → Error → Error

-- `fatal` is `klog.Fatalf`: the process ends.
pub data Result {ℓ} (A : Type ℓ) : Type ℓ where
  ok : A → Result A
  err : Error → Result A
  fatal : String → Result A

pub Result-cases {ℓ} :
    {A : Type ℓ} (r : Result A)
    → ((a : A) × (r ≡ ok a)) ⊎ (((x : Error) × (r ≡ err x)) ⊎ ((x : String) × (r ≡ fatal x)))
Result-cases (ok a) = inl (a, refl)
Result-cases (err x) = inr (inl (x, refl))
Result-cases (fatal x) = inr (inr (x, refl))

-- What was written before an error stays written, so the world comes back beside an error too.
abbrev pub Exec {ℓ} : Type ℓ → Type ℓ → Type ℓ
Exec W A = W → Result A × W

abbrev pub and_then {ℓ} : {W A B : Type ℓ} → Result A × W → (A → Exec W B) → Result B × W
and_then (ok a, w) f = f a w
and_then (err e, w) f = (err e, w)
and_then (fatal s, w) f = (fatal s, w)

infixl 10 ◌>>=◌ ◌>>◌
abbrev pub ◌>>=◌ {ℓ} : {W A B : Type ℓ} → Exec W A → (A → Exec W B) → Exec W B
m >>= f = λ w. and_then (m w) f

abbrev pub ◌>>◌ {ℓ} : {W A B : Type ℓ} → Exec W A → Exec W B → Exec W B
m >> n = m >>= λ _. n

abbrev pub pure {ℓ} : {W A : Type ℓ} → A → Exec W A
pure a w = (ok a, w)

abbrev pub raise {ℓ} : {W A : Type ℓ} → Error → Exec W A
raise e w = (err e, w)

abbrev pub exit {ℓ} : {W A : Type ℓ} → String → Exec W A
exit s w = (fatal s, w)

abbrev pub lift {ℓ} : {W A : Type ℓ} → Result A → Exec W A
lift r w = (r, w)

-- `if err != nil { return fmt.Errorf(message, err) }`
abbrev pub wrapping {ℓ} : {W A : Type ℓ} → String → Result A × W → Result A × W
wrapping message (ok a, w) = (ok a, w)
wrapping message (err e, w) = (err (wrap message e), w)
wrapping message (fatal s, w) = (fatal s, w)

abbrev pub context {ℓ} : {W A : Type ℓ} → String → Exec W A → Exec W A
context message m w = wrapping message (m w)

-- `for _, x := range xs { if err := f(x); err != nil { return err } }`
unfoldable pub for_each {ℓ} : {W A : Type ℓ} → (A → Exec W (Unit {ℓ})) → List A → Exec W (Unit {ℓ})
for_each f [] = pure tt
for_each f (x ∷ xs) = f x >>= λ _. for_each f xs

module _ {ℓ} {W A : Type ℓ} (f : A → Exec W (Unit {ℓ})) (x : A) (xs : List A) (w w' : W) where
  pub for_each-cons_ok : f x w ≡ (ok tt, w') → for_each f (x ∷ xs) w ≡ for_each f xs w'
  unfolding for_each
  for_each-cons_ok h = rw (h, for_each)

  pub for_each-cons_err : (e : Error) → f x w ≡ (err e, w') → for_each f (x ∷ xs) w ≡ (err e, w')
  unfolding for_each
  for_each-cons_err e h = rw (h, for_each)

module _ {ℓ} {W A B : Type ℓ} (m : Exec W A) (f : A → Exec W B) (w w' : W) where
  pub bind_ok : (a : A) → m w ≡ (ok a, w') → (m >>= f) w ≡ f a w'
  bind_ok a h = rw h

  pub bind_err : (e : Error) → m w ≡ (err e, w') → (m >>= f) w ≡ (err e, w')
  bind_err e h = rw h

module _ {ℓ} {W B : Type ℓ} (m : Exec W (Unit {ℓ})) (n : Exec W B) (w w' : W) where
  pub seq_ok : {r : Result B × W} → m w ≡ (ok tt, w') → n w' ≡ r → (m >> n) w ≡ r
  seq_ok h k = rw h k
