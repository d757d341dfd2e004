-- ===== src/Netutil/Addresses/Exact.antt =====
-- What `EnsureLinkAddresses` of pkg/routing/netutil/link_addresses.go makes of the addresses of a
-- link where none of them has to change.
use networking.Prelude.{
  Bool, true, false, Option, none, some, List, [], ◌∷◌, ◌++◌, String, ok, string_eq, if◌then◌else◌,
  is_some, ◌≡◌, arith, ◌∙◌, Option-cases, inl, inr,
}
use networking.Prelude.Dict.{Dict, lookup, lookup-insert, insert-Distinct, Distinct, RangeOrder}
use networking.Net.{IpNet}
use networking.Netlink.{Addr, Link, AddrCalls}
use networking.Netutil.Kernel.{
  or_else, Keys, Adds, Dels, Adds-context, Dels-context, for_each-add, for_each-del,
}
use networking.Netutil.Diff.{
  when_some, settled, created, removed, missing, values-append, lookup-append, append-Distinct,
  lookup-created, lookup-removed, lookup-missing, created-Distinct, removed-Distinct,
  missing-Distinct,
}
use networking.Netutil.Addresses.{
  addr_equal, index_actual_addr, index_actual_addrs, index_expected_addrs, add_addrs, del_addrs,
  ensure_link_addresses,
}
use networking.Netutil.Addresses.Ensure.{
  key, Lists, none_keyed, index_expected_addrs-Distinct, index_expected_addrs-Keys,
}

module _ (text : IpNet → String) (local : String → Bool) (expected : List Addr) where
  -- A link-local address stays, and every other one is what was expected.
  abbrev pub Exactly : (String → Option Addr) → (String → Option Addr) → Type 0
  Exactly held held' =
      (k : String)
      → held' k ≡ (
          if local k
          then held k
          else when_some (lookup k (index_expected_addrs text [] expected))
              (λ e. some (settled addr_equal (held k) e)))

module _ (text : IpNet → String) where
  index_actual_addr-Distinct :
      (m : Dict String Addr) (a : Addr) → Distinct m → Distinct (index_actual_addr text m a)
  unfolding index_actual_addr
  index_actual_addr-Distinct m a d = elim (Option-cases a.ipnet) [
    | inl e ↦ ground (arith, e, d)
    | inr (n, e) ↦ ground (arith, e, d, insert-Distinct (text n) a m d)
  ]

  index_actual_addrs-Distinct :
      (m : Dict String Addr) (l : List Addr) → Distinct m → Distinct (index_actual_addrs text m l)
  unfolding index_actual_addrs
  index_actual_addrs-Distinct m [] d = d
  index_actual_addrs-Distinct m (a ∷ rest) d =
      index_actual_addrs-Distinct (index_actual_addr text m a) rest
        (index_actual_addr-Distinct m a d)

  index_actual_addr-Keys :
      (m : Dict String Addr) (a : Addr)
      → Keys (key text) m
      → Keys (key text) (index_actual_addr text m a)
  unfolding index_actual_addr
  index_actual_addr-Keys m a h k v p = elim (Option-cases a.ipnet) [
    | inl e ↦ ground (arith, e, h k v, p)
    | inr (n, e) ↦
        ground (arith, e, lookup-insert (text n) k a m, string_eq.same_iff (text n) k, h k v, p)
  ]

  index_actual_addrs-Keys :
      (m : Dict String Addr) (l : List Addr)
      → Keys (key text) m
      → Keys (key text) (index_actual_addrs text m l)
  unfolding index_actual_addrs
  index_actual_addrs-Keys m [] h = h
  index_actual_addrs-Keys m (a ∷ rest) h =
      index_actual_addrs-Keys (index_actual_addr text m a) rest (index_actual_addr-Keys m a h)

-- The two maps, where no address that is there differs from the one expected for it.
module _ (text : IpNet → String) (order : RangeOrder String Addr) (local : String → Bool)
    (held : String → Option Addr) (act : Dict String Addr) (expected : List Addr)
    (distinct : Distinct act)
    (read : (k : String) → lookup k act ≡ (if local k then none else held k))
    (near : (k : String) (e : Addr)
      → lookup k (index_expected_addrs text [] expected) ≡ some e
      → local k ≡ false)
    (fits : (k : String) (e a : Addr)
      → lookup k (index_expected_addrs text [] expected) ≡ some e
      → held k ≡ some a
      → addr_equal a e ≡ true) where
  abbrev wanted : Dict String Addr
  wanted = index_expected_addrs text [] expected

  abbrev fresh : Dict String Addr
  fresh = created addr_equal act (order.range wanted)

  abbrev stale : Dict String Addr
  stale = removed addr_equal act (order.range wanted) ++ missing (order.range act) wanted

  wanted-Distinct : Distinct wanted
  wanted-Distinct = index_expected_addrs-Distinct text [] expected tt

  ranged-Distinct : Distinct (order.range wanted)
  ranged-Distinct = order.range-Distinct wanted wanted-Distinct

  -- For an address that is expected: it is created if it is not there.
  fresh-wanted :
      (k : String) (e : Addr)
      → lookup k wanted ≡ some e
      → lookup k fresh ≡ (if is_some (held k) then none else some e)
  fresh-wanted k e q =
      let at = lookup-created addr_equal act (order.range wanted) k ranged-Distinct in
      let there = order.lookup-range k wanted wanted-Distinct in
      elim (Option-cases (held k)) [
        | inl h ↦ ground (arith, at, there, q, h, read k, near k e q)
        | inr (a, h) ↦ ground (arith, at, there, q, h, read k, near k e q, fits k e a q h)
      ]

  lookup-fresh :
      (k : String) → lookup k fresh ≡ (if is_some (held k) then none else lookup k wanted)
  lookup-fresh k = elim (Option-cases (lookup k wanted)) [
    | inl q ↦ ground (
      arith,
      lookup-created addr_equal act (order.range wanted) k ranged-Distinct,
      order.lookup-range k wanted wanted-Distinct,
      q,
    )
    | inr (e, q) ↦ fresh-wanted k e q ∙ ground (arith, q)
  ]

  -- None that is there differs.
  none-removed : (k : String) → lookup k (removed addr_equal act (order.range wanted)) ≡ none
  none-removed k =
      let at = lookup-removed addr_equal act (order.range wanted) k ranged-Distinct in
      let there = order.lookup-range k wanted wanted-Distinct in
      elim (Option-cases (lookup k wanted)) [
        | inl q ↦ ground (arith, at, there, q)
        | inr (e, q) ↦ elim (Option-cases (held k)) [
          | inl h ↦ ground (arith, at, there, q, h, read k)
          | inr (a, h) ↦ ground (arith, at, there, q, h, read k, near k e q, fits k e a q h)
        ]
      ]

  lookup-stale :
      (k : String)
      → lookup k stale
        ≡ (if local k then none else if is_some (lookup k wanted) then none else held k)
  lookup-stale k = ground (
    arith,
    lookup-append k (removed addr_equal act (order.range wanted))
        (missing (order.range act) wanted),
    none-removed k,
    lookup-missing (order.range act) wanted k (order.range-Distinct act distinct),
    order.lookup-range k act distinct,
    read k,
  )

  stale-Distinct : Distinct stale
  stale-Distinct =
      append-Distinct _ _ (removed-Distinct addr_equal act (order.range wanted) ranged-Distinct)
        (missing-Distinct (order.range act) wanted (order.range-Distinct act distinct))
        (λ k v p. absurd (ground (arith, p, none-removed k)))

  exactly :
      (held1 held2 : String → Option Addr)
      → ((k : String) → held1 k ≡ or_else (lookup k fresh) (held k))
      → ((k : String) → held2 k ≡ (if is_some (lookup k stale) then none else held1 k))
      → Exactly text local expected held held2
  exactly held1 held2 t1 t2 k = elim (Option-cases (lookup k wanted)) [
    | inl q ↦ ground (arith, t1 k, t2 k, lookup-fresh k, lookup-stale k, q)
    | inr (e, q) ↦ elim (Option-cases (held k)) [
      | inl h ↦ ground (arith, t1 k, t2 k, lookup-fresh k, lookup-stale k, q, h, near k e q)
      | inr (a, h) ↦
          ground
            (arith, t1 k, t2 k, lookup-fresh k, lookup-stale k, q, h, near k e q, fits k e a q h)
    ]
  ]

module _ {W : Type 0} (text : IpNet → String) (calls : AddrCalls W) (order : RangeOrder String Addr)
    (link : Link) (table : W → String → Option Addr) (local : String → Bool)
    (listing : Lists text table local calls link) where
  -- On a kernel that lists the addresses of the link, adds one whose key is free and deletes one
  -- that is there: if no expected address is link-local, and each that is there already is as good
  -- as the expected one, then `EnsureLinkAddresses` succeeds, and afterwards the link has the
  -- expected addresses, its link-local ones, and no others.
  pub addresses_exact :
      Adds table (key text) (calls.addr_add link)
      → Dels table (key text) (calls.addr_del link)
      → (expected : List Addr) (w : W)
      → ((k : String) (e : Addr)
          → lookup k (index_expected_addrs text [] expected) ≡ some e
          → local k ≡ false)
      → ((k : String) (e a : Addr)
          → lookup k (index_expected_addrs text [] expected) ≡ some e
          → table w k ≡ some a
          → addr_equal a e ≡ true)
      → (w' : W) × (ensure_link_addresses text calls order link expected w ≡ (ok tt, w'))
        × Exactly text local expected (table w) (table w')
  unfolding ensure_link_addresses add_addrs del_addrs
  addresses_exact adding deleting expected w near fits =
      let (l, run, read) = listing.lists w in
      let act = index_actual_addrs text [] l in
      let d = index_actual_addrs-Distinct text [] l tt in
      let new = fresh text order local (table w) act expected d read near fits in
      let old = stale text order local (table w) act expected d read near fits in
      let fresh_at = lookup-fresh text order local (table w) act expected d read near fits in
      let stale_at = lookup-stale text order local (table w) act expected d read near fits in
      let ranged = ranged-Distinct text order local (table w) act expected d read near fits in
      let keyed = index_expected_addrs-Keys text [] expected (none_keyed text) in
      let act_keyed = index_actual_addrs-Keys text [] l (none_keyed text) in
      let (w1, added, t1) =
        for_each-add table (key text) _
          (Adds-context table (key text) "error doing `ip addr add`" (calls.addr_add link) adding)
          new w (λ k v p. ground (arith, p, fresh_at k, keyed k v))
          (created-Distinct addr_equal act _ ranged) (λ k v p. ground (arith, p, fresh_at k)) in
      let (w2, deleted, t2) =
        for_each-del table (key text) _
          (Dels-context table (key text) "error doing `ip addr del`" (calls.addr_del link) deleting)
          old w1 (λ k v p. ground (arith, p, stale_at k, read k, act_keyed k v))
          (stale-Distinct text order local (table w) act expected d read near fits)
          (λ k v p q. ground (arith, p, q, stale_at k, t1 k, fresh_at k)) in
      (
        w2,
        rw (run, added) (rw (values-append _ _) at deleted),
        exactly text order local (table w) act expected d read near fits (table w1) (table w2) t1
            t2,
      )
