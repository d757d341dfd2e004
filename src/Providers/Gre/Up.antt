-- ===== src/Providers/Gre/Up.antt =====
-- What the loop of `EnsureCIDRs` of pkg/routing/gre/provider.go that brings the tunnels up makes of
-- the kernel's links.
use Prim.Native.Nat.{bit_and}
use networking.Prelude.{
  ℕ, Bool, true, false, Option, none, some, [], ◌∷◌, String, ok, for_each, for_each-cons_ok,
  string_eq, nat_eq, ◌==◌, if◌then◌else◌, ◌≡◌, arith, refl, ap, ◌∙◌, subst, sym, Bool-cases, inl,
  inr,
}
use networking.Prelude.Dict.{Dict, lookup, Distinct, RangeOrder}
use networking.Net.{IpNet}
use networking.Netlink.{Route, Link, RouteCalls, LinkCalls}
use networking.Netutil.Kernel.{values, lookup-cons}
use networking.Providers.Gre.{bring_up}

-- `net.FlagUp`
abbrev pub IsUp : Link → Type 0
IsUp l = (bit_and l.attrs.flags 1 == 0) ≡ false

-- The link that is up now is the one that was there.
abbrev pub Raises : Link → Link → Type 0
Raises x x' = IsUp x' × (x'.attrs.index ≡ x.attrs.index) × (x'.body ≡ x.body)

-- The kernel brings the link of a name up, and no other.
pub record SetsUp {W : Type 0} (calls : LinkCalls W) (table : W → String → Option Link)
    : Type 0 where
  pub sets_up :
      (w : W) (l x : Link)
      → table w l.attrs.name ≡ some x
      → (x' : Link) × (w' : W) × (calls.link_set_up l w ≡ (ok tt, w'))
        × Raises x x'
        × ((j : String) → table w' j ≡ (if l.attrs.name == j then some x' else table w j))

-- A link of the map is in the kernel, and up there if the map has it so.
abbrev pub Listed : String → Link → Option Link → Type 0
Listed k a held = (a.attrs.name ≡ k) × (x : Link) × (held ≡ some x) × (IsUp a → IsUp x)

-- What becomes of a name: the link of the map, and what the kernel held and holds.
abbrev pub Raised : Option Link → Option Link → Option Link → Type 0
Raised none held held' = held' ≡ held
Raised (some a) held held' =
    (x : Link) × (x' : Link) × (held ≡ some x) × (held' ≡ some x') × Raises x x'

pub Raised-none : (o held held' : Option Link) → o ≡ none → Raised o held held' → held' ≡ held
Raised-none none held held' e r = r
Raised-none (some a) held held' e r = absurd (cc)

pub Raised-some :
    (o held held' : Option Link) (a x : Link)
    → o ≡ some a
    → held ≡ some x
    → Raised o held held'
    → (x' : Link) × (held' ≡ some x') × Raises x x'
Raised-some none held held' a x e f r = absurd (cc)
Raised-some (some b) held held' a x e f (y, x', g, t, up) =
    let same : y ≡ x = cc in (x', t, subst (λ z. Raises z x') same up)

Raised-cons :
    (b : Bool) (a x x' : Link) (o held held1 held' : Option Link)
    → (b ≡ true → held ≡ some x)
    → Raises x x'
    → held1 ≡ (if b then some x' else held)
    → (b ≡ true → o ≡ none)
    → Raised o held1 held'
    → Raised (if b then some a else o) held held'
Raised-cons true a x x' o held held1 held' here up t alone r =
    (x, x', here refl, Raised-none o held1 held' (alone refl) r ∙ t, up)
Raised-cons false a x x' o held held1 held' here up t alone r = subst (λ z. Raised o z held') t r

module _ {W : Type 0} (text : IpNet → String) (has_prefix : String → String → Bool)
    (gre_type : String) (routes : RouteCalls W) (links : LinkCalls W)
    (range_routes : RangeOrder String Route) (range_links : RangeOrder String Link)
    (range_nodes : RangeOrder String ℕ) (table : W → String → Option Link)
    (raising : SetsUp links table) where
  -- A link that is up is left alone.
  bring_up-Raises :
      (a x : Link) (k : String) (w : W)
      → a.attrs.name ≡ k
      → table w k ≡ some x
      → (IsUp a → IsUp x)
      → (x' : Link) × (w' : W) × (bring_up text has_prefix gre_type routes links range_routes
            range_links range_nodes a w
          ≡ (ok tt, w'))
        × Raises x x'
        × ((j : String) → table w' j ≡ (if k == j then some x' else table w j))
  unfolding bring_up
  bring_up-Raises a x k w named held known = elim (Bool-cases (bit_and a.attrs.flags 1 == 0)) [
    | inl e ↦
        let (x', w', run, up, t) = raising.sets_up w a x (ap (table w) named ∙ held) in
        (
          x',
          w',
          rw (e, run) refl,
          up,
          subst (λ n. (j : String) → table w' j ≡ (if n == j then some x' else table w j)) named t,
        )
    | inr e ↦ (
      x,
      w,
      rw e refl,
      (known e, refl, refl),
      λ j. ground (arith, held, ap (table w), string_eq.same_iff k j),
    )
  ]

  -- The loop succeeds, and afterwards every link of the map is up.
  pub for_each-bring_up :
      (m : Dict String Link) (w : W)
      → Distinct m
      → ((k : String) (a : Link) → lookup k m ≡ some a → Listed k a (table w k))
      → (w' : W) × (for_each
            (bring_up text has_prefix gre_type routes links range_routes range_links range_nodes)
            (values m)
            w
          ≡ (ok tt, w'))
        × ((k : String) → Raised (lookup k m) (table w k) (table w' k))
  unfolding for_each lookup
  for_each-bring_up [] w dm there = (w, refl, λ k. refl)
  for_each-bring_up ((j, a) ∷ m) w dm there =
      let (named, x, held, known) = there j a (lookup-cons j a m) in
      let (x', w1, run, up, t1) = bring_up-Raises a x j w named held known in
      let (w2, ran, t2) = for_each-bring_up m w1 dm.1 (λ k b p.
        let far : (j == k) ≡ false = ground (arith, dm.0, p, string_eq.same_iff j k) in
        let kept : table w k ≡ table w1 k = ground (arith, t1 k, far) in
        subst (Listed k b) kept (there k b (ground (arith, far, p)))) in
      (
        w2,
        for_each-cons_ok _ a (values m) w w1 run ∙ ran,
        λ k.
            Raised-cons (j == k) a x x' (lookup k m) (table w k) (table w1 k) (table w2 k)
              (λ q. ap (table w) (sym ((string_eq.same_iff j k).0 q)) ∙ held) up (t1 k)
              (λ q. ground (arith, dm.0, q, string_eq.same_iff j k)) (t2 k),
      )
