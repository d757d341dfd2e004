-- ===== src/Netutil/Xfrm/States/Ensure.antt =====
-- What `XfrmStateTable.Ensure` makes of the kernel's states.
use networking.Prelude.{
  ℕ, true, Option, none, some, List, [], ◌∷◌, Exec, ok, ◌>>◌, seq_ok, context, for_each, nat_eq,
  if◌then◌else◌, is_some, ◌≡◌, arith, refl, sym, ap, ◌∙◌, Option-cases, inl, inr,
}
use networking.Prelude.Dict.{
  Dict, lookup, insert, lookup-insert, insert-Distinct, Distinct, RangeOrder,
}
use networking.Netlink.{XfrmState, XfrmStateCalls}
use networking.Netutil.Kernel.{
  or_else, values, Keys, Keys-tail, lookup-cons, Adds, Dels, Adds-context, Dels-context,
  for_each-add, for_each-del,
}
use networking.Netutil.Diff.{
  when_some, missing, insert_all, lookup-insert_all, lookup-missing, missing-Distinct,
}
use networking.Netutil.Xfrm.{xfrm_state_equal}
use networking.Netutil.Xfrm.States.{
  index_states, index_expected_states, states_to_create, states_to_update, create_states,
  update_states, remove_states, ensure_states,
}

-- A state is kept under its SPI.
abbrev pub key : XfrmState → Option ℕ
key s = some s.spi

index_states-Distinct :
    (m : Dict ℕ XfrmState) (l : List XfrmState) → Distinct m → Distinct (index_states m l)
unfolding index_states
index_states-Distinct m [] d = d
index_states-Distinct m (a ∷ rest) d =
    index_states-Distinct (insert a.spi a m) rest (insert-Distinct a.spi a m d)

index_states-Keys :
    (m : Dict ℕ XfrmState) (l : List XfrmState) → Keys key m → Keys key (index_states m l)
unfolding index_states
index_states-Keys m [] h = h
index_states-Keys m (a ∷ rest) h =
    index_states-Keys (insert a.spi a m) rest
      (λ k v p. ground (arith, lookup-insert a.spi k a m, h k v, p))

none_keyed : Keys key []
unfolding lookup
none_keyed k v p = cc

-- States of distinct SPIs are accepted.
index_expected_states_lem :
    (m expected : Dict ℕ XfrmState)
    → Distinct expected
    → Keys key expected
    → ((k : ℕ) (v : XfrmState) → lookup k expected ≡ some v → lookup k m ≡ none)
    → index_expected_states m (values expected) ≡ ok (insert_all m expected)
unfolding index_expected_states insert_all lookup
index_expected_states_lem m [] d h apart = refl
index_expected_states_lem m ((k, e) ∷ rest) d h apart =
    let spi = h k e (lookup-cons k e rest) in
    let free = apart k e (lookup-cons k e rest) in
    let more =
      index_expected_states_lem (insert k e m) rest d.1 (Keys-tail key k e rest d h)
        (λ j u p. ground (arith, lookup-insert k j e m, apart j u, d.0, p)) in
    ground (arith, spi, free, more)

lookup-create :
    (act m : Dict ℕ XfrmState) (k : ℕ)
    → Distinct m
    → lookup k (states_to_create act m) ≡ (if is_some (lookup k act) then none else lookup k m)
unfolding states_to_create lookup
lookup-create act [] k d = ground arith
lookup-create act ((j, e) ∷ m) k d = elim (Option-cases (lookup j act)) [
  | inl q ↦ ground (arith, q, lookup-create act m k d.1, d.0)
  | inr (a, q) ↦ ground (arith, q, lookup-create act m k d.1, d.0)
]

create-Distinct : (act m : Dict ℕ XfrmState) → Distinct m → Distinct (states_to_create act m)
unfolding states_to_create lookup
create-Distinct act [] d = tt
create-Distinct act ((j, e) ∷ m) d = elim (Option-cases (lookup j act)) [
  | inl q ↦ ground (arith, q, lookup-create act m j d.1, create-Distinct act m d.1, d.0)
  | inr (a, q) ↦ ground (arith, q, create-Distinct act m d.1)
]

-- Where the states that are there are as they are expected, no update is sent.
no_update :
    (act m : Dict ℕ XfrmState)
    → ((k : ℕ) (e a : XfrmState)
        → lookup k m ≡ some e
        → lookup k act ≡ some a
        → xfrm_state_equal a e ≡ true)
    → Distinct m
    → states_to_update act m ≡ []
unfolding states_to_update lookup
no_update act [] fits d = refl
no_update act ((j, e) ∷ m) fits d =
    let rest =
      no_update act m (λ k u a p. fits k u a (ground (arith, p, d.0, nat_eq.same_iff j k))) d.1 in
    elim (Option-cases (lookup j act)) [
      | inl q ↦ ground (arith, q, rest)
      | inr (a, q) ↦ ground (arith, q, rest, fits j e a (lookup-cons j e m) q)
    ]

lookup-nil : (k : ℕ) → lookup {V = XfrmState} k [] ≡ none
unfolding lookup
lookup-nil k = refl

lookup-all : (k : ℕ) (m : Dict ℕ XfrmState) → Distinct m → lookup k (insert_all [] m) ≡ lookup k m
lookup-all k m d = ground (arith, lookup-insert_all k [] m d, lookup-nil k)

insert_all-Distinct : (m n : Dict ℕ XfrmState) → Distinct m → Distinct (insert_all m n)
unfolding insert_all
insert_all-Distinct m [] d = d
insert_all-Distinct m ((k, v) ∷ n) d =
    insert_all-Distinct (insert k v m) n (insert-Distinct k v m d)

-- The kernel lists its states.
pub record Lists {W : Type 0} (table : W → ℕ → Option XfrmState) (calls : XfrmStateCalls W)
    : Type 0 where
  pub lists :
      (w : W)
      → (l : List XfrmState) × (calls.xfrm_state_list w ≡ (ok l, w))
        × ((k : ℕ) → lookup k (index_states [] l) ≡ table w k)

three_ok :
    {W : Type 0} (m n o : Exec W (Unit {0})) (w w1 w2 w3 : W)
    → m w ≡ (ok tt, w1)
    → n w1 ≡ (ok tt, w2)
    → o w2 ≡ (ok tt, w3)
    → (m >> (n >> o)) w ≡ (ok tt, w3)
three_ok m n o w w1 w2 w3 p q r = seq_ok m (n >> o) w w1 p (seq_ok n o w1 w2 q r)

module _ {W : Type 0} (table : W → ℕ → Option XfrmState) (calls : XfrmStateCalls W)
    (adding : Adds table key calls.xfrm_state_add) (deleting : Dels table key calls.xfrm_state_del)
    (act ranged gone : Dict ℕ XfrmState) (distinct : Distinct ranged) (keys : Keys key ranged)
    (act_keys : Keys key act) (gone_distinct : Distinct gone)
    (is_gone : (k : ℕ) → lookup k gone ≡ (if is_some (lookup k ranged) then none else lookup k act))
    (w : W) (read : (k : ℕ) → lookup k act ≡ table w k)
    (fits : (k : ℕ) (e a : XfrmState)
      → lookup k ranged ≡ some e
      → lookup k act ≡ some a
      → xfrm_state_equal a e ≡ true) where
  abbrev creates : Exec W (Unit {0})
  creates =
      for_each (λ p. context "error creating state" (calls.xfrm_state_add p))
        (values (states_to_create act ranged))

  abbrev updates : Exec W (Unit {0})
  updates =
      for_each (λ p. context "error updating state" (calls.xfrm_state_update p))
        (values (states_to_update act ranged))

  abbrev removes : Exec W (Unit {0})
  removes = for_each (λ p. context "error removing state" (calls.xfrm_state_del p)) (values gone)

  -- The three series of calls, one after the other.
  three_series :
      (w' : W) × ((creates >> (updates >> removes)) w ≡ (ok tt, w'))
      × ((k : ℕ) → table w' k ≡ when_some (lookup k ranged) (λ e. or_else (table w k) (some e)))
  unfolding for_each
  three_series =
      let (w1, run1, t1) =
        for_each-add table key _
          (Adds-context table key "error creating state" calls.xfrm_state_add adding)
          (states_to_create act ranged) w
          (λ k v p. ground (arith, lookup-create act ranged k distinct, keys k v, p))
          (create-Distinct act ranged distinct)
          (λ k v p. ground (arith, lookup-create act ranged k distinct, read k, p)) in
      let quiet = no_update act ranged fits distinct in
      let (w3, run3, t3) =
        for_each-del table key _
          (Dels-context table key "error removing state" calls.xfrm_state_del deleting) gone w1
          (λ k v p. ground (arith, is_gone k, act_keys k v, p)) gone_distinct
          (λ k v p q.
            ground (arith, is_gone k, lookup-create act ranged k distinct, read k, t1 k, p, q)) in
      (
        w3,
        three_ok creates updates removes w w1 w1 w3 run1 (rw (quiet, for_each) refl) run3,
        λ k.
            ground
              (arith, is_gone k, fits k, lookup-create act ranged k distinct, read k, t1 k, t3 k),
      )

-- On a kernel that lists its states and has at most one of each SPI, where a state of a new SPI can
-- be added and one that is there deleted; for expected states of distinct SPIs; and if each state
-- that is there under an expected SPI is equal to the one that is expected: `Ensure` succeeds without
-- an update, and afterwards each expected SPI has the state that it had, or else the expected one,
-- and no other SPI has a state.
pub ensure_states_exact :
    {W : Type 0} (calls : XfrmStateCalls W) (order : RangeOrder ℕ XfrmState)
    (table : W → ℕ → Option XfrmState)
    → Lists table calls
    → Adds table key calls.xfrm_state_add
    → Dels table key calls.xfrm_state_del
    → (expected : Dict ℕ XfrmState) → Distinct expected
    → Keys key expected
    → (w : W)
    → ((k : ℕ) (e a : XfrmState)
        → lookup k expected ≡ some e
        → table w k ≡ some a
        → xfrm_state_equal a e ≡ true)
    → (w' : W) × (ensure_states calls order (values expected) w ≡ (ok tt, w'))
      × ((k : ℕ) → table w' k ≡ when_some (lookup k expected) (λ e. or_else (table w k) (some e)))
unfolding ensure_states create_states update_states remove_states
ensure_states_exact calls order table listing adding deleting expected d h w fits =
    let (l, run, read) = listing.lists w in
    let act = index_states [] l in
    let act_d = index_states-Distinct [] l tt in
    let m = insert_all [] expected in
    let m_d : Distinct m = insert_all-Distinct [] expected tt in
    let held : (k : ℕ) → lookup k (order.range m) ≡ lookup k expected =
      λ k. order.lookup-range k m m_d ∙ lookup-all k expected d in
    let act' = order.range act in
    let gone = missing act' m in
    let (w', ran, t) =
      three_series table calls adding deleting act (order.range m) gone (order.range-Distinct m m_d)
        (λ k v p. h k v (sym (held k) ∙ p)) (index_states-Keys [] l none_keyed)
        (missing-Distinct act' m (order.range-Distinct act act_d))
        (λ k. ground (
          arith,
          lookup-missing act' m k (order.range-Distinct act act_d),
          order.lookup-range k act act_d,
          held k,
          lookup-all k expected d,
        ))
        w read (λ k e a p q. fits k e a (sym (held k) ∙ p) (sym (read k) ∙ q)) in
    (
      w',
      rw run (rw (index_expected_states_lem [] expected d h (λ k v p. lookup-nil k)) ran),
      λ k. t k ∙ ap (λ o. when_some o (λ e. or_else (table w k) (some e))) (held k),
    )
