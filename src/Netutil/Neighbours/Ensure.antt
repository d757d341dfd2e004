-- ===== src/Netutil/Neighbours/Ensure.antt =====
-- What `NeighTable.Ensure` makes of the kernel's neighbour entries.
use networking.Prelude.{
  Option, none, some, List, [], ◌∷◌, String, Exec, ok, for_each, for_each-cons_ok, string_eq, ◌≡◌,
  arith, refl, sym, ap, Option-cases, Bool-cases, inl, inr, ◌∙◌,
}
use networking.Prelude.Dict.{
  Dict, lookup, insert, lookup-insert, insert-Distinct, Distinct, RangeOrder,
}
use networking.Net.{Ip}
use networking.Netlink.{Neigh, Link, NeighCalls}
use networking.Netutil.Kernel.{Keys, Keys-tail, lookup-cons, Sets, Sets-context}
use networking.Netutil.Diff.{settled}
use networking.Netutil.Neighbours.{
  neigh_equal, index_neigh, index_neighs, upsert_one, upserts, set_neighs, ensure,
}

-- The text that an entry is kept under: that of its address.
abbrev pub key : (Ip → String) → Neigh → Option String
key text n = elim n.ip [ none ↦ none | some a ↦ some (text a) ]

-- What an address has afterwards, from what was expected of it and what it had.
abbrev pub brought : Option Neigh → Option Neigh → Option Neigh
brought none held = held
brought (some e) held = some (settled neigh_equal held e)

module _ (text : Ip → String) where
  index_neigh-Distinct :
      (m : Dict String Neigh) (a : Neigh) → Distinct m → Distinct (index_neigh text m a)
  unfolding index_neigh
  index_neigh-Distinct m a d =
      elim a.ip as (λ o. Distinct (elim o [ none ↦ m | some c ↦ insert (text c) a m ])) [
        | none ↦ d
        | some c ↦ insert-Distinct (text c) a m d
      ]

  index_neigh-Keys :
      (m : Dict String Neigh) (a : Neigh)
      → Keys (key text) m
      → Keys (key text) (index_neigh text m a)
  unfolding index_neigh
  index_neigh-Keys m a h k v p = elim (Option-cases a.ip) [
    | inl e ↦ h k v (rw (e, index_neigh) at p)
    | inr (c, e) ↦
        ground (arith, lookup-insert (text c) k a m, string_eq.same_iff (text c) k, h k v)
  ]

  pub index_neighs-Distinct :
      (m : Dict String Neigh) (l : List Neigh) → Distinct m → Distinct (index_neighs text m l)
  unfolding index_neighs
  index_neighs-Distinct m [] d = d
  index_neighs-Distinct m (a ∷ rest) d =
      index_neighs-Distinct (index_neigh text m a) rest (index_neigh-Distinct m a d)

  pub index_neighs-Keys :
      (m : Dict String Neigh) (l : List Neigh)
      → Keys (key text) m
      → Keys (key text) (index_neighs text m l)
  unfolding index_neighs
  index_neighs-Keys m [] h = h
  index_neighs-Keys m (a ∷ rest) h =
      index_neighs-Keys (index_neigh text m a) rest (index_neigh-Keys m a h)

  none_keyed : Keys (key text) []
  unfolding lookup
  none_keyed k v p = cc

module _ {W : Type 0} (text : Ip → String) (table : W → String → Option Neigh)
    (set : Neigh → Exec W Unit) (law : Sets table (key text) set) (act : Dict String Neigh) where
  set_lem :
      (m : Dict String Neigh) (w : W)
      → Distinct m
      → Keys (key text) m
      → ((k : String) (v : Neigh) → lookup k m ≡ some v → lookup k act ≡ table w k)
      → (w' : W) × (for_each set (upserts text act m) w ≡ (ok tt, w'))
        × ((j : String) → table w' j ≡ brought (lookup j m) (table w j))
  unfolding upserts upsert_one for_each lookup
  set_lem [] w d h read = (w, refl, λ j. refl)
  set_lem ((k, e) ∷ m) w d h read =
      let (w1, run1, t1) = law.sets w e k (h k e (lookup-cons k e m)) in
      let told = read k e (lookup-cons k e m) in
      let tail = Keys-tail (key text) k e m d h in
      let (w2, run2, t2) =
        set_lem m w1 d.1 tail
          (λ j u p. ground (arith, t1 j, d.0, p, string_eq.same_iff k j, read j u)) in
      let (w3, run3, t3) =
        set_lem m w d.1 tail (λ j u p. ground (arith, d.0, p, string_eq.same_iff k j, read j u)) in
      let set_run = for_each-cons_ok set e (upserts text act m) w w1 run1 ∙ run2 in
      elim (Option-cases (lookup k act)) [
        | inl q ↦ (
          w2,
          rw (q, upsert_one) set_run,
          λ j. ground (arith, told, q, t1 j, t2 j, d.0, string_eq.same_iff k j),
        )
        | inr (a, q) ↦ elim (Bool-cases (neigh_equal a e)) [
          | inl r ↦ (
            w3,
            rw (q, upsert_one, r) run3,
            λ j. ground (arith, told, q, r, t3 j, d.0, string_eq.same_iff k j),
          )
          | inr r ↦ (
            w2,
            rw (q, upsert_one, r) set_run,
            λ j. ground (arith, told, q, r, t1 j, t2 j, d.0, string_eq.same_iff k j),
          )
        ]
      ]

-- The kernel lists the entries of the link.
pub record Lists {W : Type 0} (text : Ip → String) (table : W → String → Option Neigh)
    (calls : NeighCalls W) (link : Link) : Type 0 where
  pub lists :
      (w : W)
      → (l : List Neigh) × (calls.neigh_list link.attrs.index w ≡ (ok l, w))
        × ((k : String) → lookup k (index_neighs text [] l) ≡ table w k)

-- On a kernel that lists its entries and whose requests to set one succeed, `Ensure` succeeds, and
-- afterwards every address that an expected entry names has the last entry that was expected for
-- it (the one that was there, if that is equal), and every other address keeps what it had.
pub ensure_brings :
    {W : Type 0} (text : Ip → String) (calls : NeighCalls W) (order : RangeOrder String Neigh)
    (link : Link) (table : W → String → Option Neigh)
    → Lists text table calls link
    → Sets table (key text) calls.neigh_set
    → (expected : List Neigh) (w : W)
    → (w' : W) × (ensure text calls order link expected w ≡ (ok tt, w'))
      × ((k : String) → table w' k ≡ brought (lookup k (index_neighs text [] expected)) (table w k))
unfolding ensure set_neighs
ensure_brings text calls order link table listing law expected w =
    let (l, run, read) = listing.lists w in
    let m = index_neighs text [] expected in
    let d = index_neighs-Distinct text [] expected tt in
    let (w', ran, t) =
      set_lem text table _
        (Sets-context table (key text) "error doing `ip neigh replace`" calls.neigh_set law)
        (index_neighs text [] l) (order.range m) w (order.range-Distinct m d)
        (λ k v p.
          index_neighs-Keys text [] expected (none_keyed text) k v
            (sym (order.lookup-range k m d) ∙ p))
        (λ k v p. read k) in
    (w', rw run ran, λ k. t k ∙ ap (λ o. brought o (table w k)) (order.lookup-range k m d))
