-- ===== src/Netutil/Addresses/Ensure.antt =====
-- What `EnsureLinkAddresses` makes of the addresses of a link.
use networking.Prelude.{
  Bool, false, Option, none, some, List, [], ◌∷◌, String, Error, ok, err, string_eq, if◌then◌else◌,
  ◌≡◌, arith, Option-cases, inl, inr,
}
use networking.Prelude.Dict.{
  Dict, lookup, insert, lookup-insert, insert-Distinct, Distinct, RangeOrder,
}
use networking.Net.{IpNet}
use networking.Netlink.{Addr, Link, AddrCalls}
use networking.Netutil.Kernel.{Keys, Adds, Refuses, Adds-context, Refuses-context, for_each-refused}
use networking.Netutil.Diff.{created, lookup-created, created-Distinct}
use networking.Netutil.Addresses.{
  addr_equal, index_actual_addrs, index_expected_addr, index_expected_addrs, add_addrs,
  ensure_link_addresses,
}

-- The text that an address is kept under.
abbrev pub key : (IpNet → String) → Addr → Option String
key text a = elim a.ipnet [ none ↦ none | some n ↦ some (text n) ]

module _ (text : IpNet → String) where
  index_expected_addr-Distinct :
      (m : Dict String Addr) (a : Addr) → Distinct m → Distinct (index_expected_addr text m a)
  unfolding index_expected_addr
  index_expected_addr-Distinct m a d =
      elim a.ipnet as (λ o. Distinct (elim o [ none ↦ m | some c ↦ insert (text c) a m ])) [
        | none ↦ d
        | some c ↦ insert-Distinct (text c) a m d
      ]

  index_expected_addr-Keys :
      (m : Dict String Addr) (a : Addr)
      → Keys (key text) m
      → Keys (key text) (index_expected_addr text m a)
  unfolding index_expected_addr
  index_expected_addr-Keys m a h k v p = elim (Option-cases a.ipnet) [
    | inl e ↦ h k v (rw (e, index_expected_addr) at p)
    | inr (c, e) ↦
        ground (arith, lookup-insert (text c) k a m, string_eq.same_iff (text c) k, h k v)
  ]

  pub index_expected_addrs-Distinct :
      (m : Dict String Addr) (l : List Addr) → Distinct m → Distinct (index_expected_addrs text m l)
  unfolding index_expected_addrs
  index_expected_addrs-Distinct m [] d = d
  index_expected_addrs-Distinct m (a ∷ rest) d =
      index_expected_addrs-Distinct (index_expected_addr text m a) rest
        (index_expected_addr-Distinct m a d)

  pub index_expected_addrs-Keys :
      (m : Dict String Addr) (l : List Addr)
      → Keys (key text) m
      → Keys (key text) (index_expected_addrs text m l)
  unfolding index_expected_addrs
  index_expected_addrs-Keys m [] h = h
  index_expected_addrs-Keys m (a ∷ rest) h =
      index_expected_addrs-Keys (index_expected_addr text m a) rest (index_expected_addr-Keys m a h)

  pub none_keyed : Keys (key text) []
  unfolding lookup
  none_keyed k v p = cc

-- The kernel lists the addresses of the link, among them link-local ones, which the code skips.
pub record Lists {W : Type 0} (text : IpNet → String) (table : W → String → Option Addr)
    (local : String → Bool) (calls : AddrCalls W) (link : Link) : Type 0 where
  pub lists :
      (w : W)
      → (l : List Addr) × (calls.addr_list link w ≡ (ok l, w))
        × ((k : String)
            → lookup k (index_actual_addrs text [] l) ≡ (if local k then none else table w k))

module _ {W : Type 0} (text : IpNet → String) (calls : AddrCalls W) (order : RangeOrder String Addr)
    (link : Link) (table : W → String → Option Addr) (local : String → Bool)
    (listing : Lists text table local calls link) where
  -- Because new addresses are added first, an address cannot be changed: if an expected address
  -- that is not link-local is there with another label, scope or flags, and the kernel lists its
  -- addresses and refuses to add one a second time, `EnsureLinkAddresses` fails, and the old entry
  -- stays.
  pub addresses_cannot_change :
      Adds table (key text) (calls.addr_add link)
      → Refuses table (key text) (calls.addr_add link)
      → (expected : List Addr) (w : W) (k : String) (e a : Addr)
      → lookup k (index_expected_addrs text [] expected) ≡ some e
      → local k ≡ false
      → table w k ≡ some a
      → addr_equal a e ≡ false
      → (x : Error) × (w' : W) × (ensure_link_addresses text calls order link expected w
          ≡ (err x, w'))
        × (table w' k ≡ some a)
  unfolding ensure_link_addresses add_addrs
  addresses_cannot_change adding refusing expected w k e a p near q differs =
      let (l, run, read) = listing.lists w in
      let act = index_actual_addrs text [] l in
      let m = index_expected_addrs text [] expected in
      let d = index_expected_addrs-Distinct text [] expected tt in
      let dr = order.range-Distinct m d in
      let (x, w', ran, t) =
        for_each-refused table (key text) _
          (Adds-context table (key text) "error doing `ip addr add`" (calls.addr_add link) adding)
          (Refuses-context table (key text) "error doing `ip addr add`" (calls.addr_add link)
            refusing)
          (created addr_equal act (order.range m)) w k e a
          (λ j u r. ground (
            arith,
            lookup-created addr_equal act (order.range m) j dr,
            order.lookup-range j m d,
            index_expected_addrs-Keys text [] expected (none_keyed text) j u,
            r,
          ))
          (created-Distinct addr_equal act (order.range m) dr)
          (ground (
            arith,
            lookup-created addr_equal act (order.range m) k dr,
            order.lookup-range k m d,
            p,
            read k,
            q,
            near,
            differs,
          ))
          q in
      (x, w', rw (run, ran), t)
