-- ===== src/Netutil/Neighbours/Brought.antt =====
-- What `NeighTable.Ensure` of pkg/routing/netutil/neigh_table.go makes of entries for different
-- addresses.
use networking.Prelude.{
  ℕ, true, Option, none, some, List, [], ◌∷◌, String, ok, string_eq, nat_eq, ◌≡◌, arith, refl, ap,
  ◌∙◌, Option-cases, Bool-cases, inl, inr,
}
use networking.Prelude.Dict.{Dict, lookup, insert, Distinct, RangeOrder}
use networking.Net.{Ip}
use networking.Net.Equality.{bytes_equal_iff}
use networking.Netlink.{Neigh, Link, NeighCalls}
use networking.Netutil.Kernel.{Keys, Keys-tail, lookup-cons, values, Sets}
use networking.Netutil.Diff.{settled, insert_all, lookup-insert_all}
use networking.Netutil.Neighbours.{neigh_equal, index_neigh, index_neighs, ensure}
use networking.Netutil.Neighbours.Ensure.{key, brought, Lists, ensure_brings}
use networking.Netutil.Xfrm.Equality.{seen_ip, seen_iff}

-- What an entry says: for an address, on a link, a hardware address.
abbrev pub Says : ℕ → ℕ → ℕ → ℕ → ℕ → Ip → List ℕ → Neigh → Type 0
Says index family state type_of flags ip mac n =
    (n.link_index ≡ index)
    × (n.family ≡ family)
    × (n.state ≡ state)
    × (n.type_of ≡ type_of)
    × (n.flags ≡ flags)
    × (seen_ip n.ip ≡ seen_ip (some ip))
    × (n.hardware_addr ≡ mac)

neigh_equal-fields :
    (a e : Neigh)
    → neigh_equal a e ≡ true
    → (a.link_index ≡ e.link_index)
      × (a.family ≡ e.family)
      × (a.state ≡ e.state)
      × (a.type_of ≡ e.type_of)
      × (a.flags ≡ e.flags)
      × (seen_ip a.ip ≡ seen_ip e.ip)
      × (a.hardware_addr ≡ e.hardware_addr)
unfolding neigh_equal
neigh_equal-fields a e h =
    ground (arith, h, seen_iff a.ip e.ip, bytes_equal_iff a.hardware_addr e.hardware_addr)

-- What is brought says what was expected.
pub settled-Says :
    (index family state type_of flags : ℕ) (ip : Ip) (mac : List ℕ) (held : Option Neigh)
    (e : Neigh)
    → Says index family state type_of flags ip mac e
    → Says index family state type_of flags ip mac (settled neigh_equal held e)
settled-Says index family state type_of flags ip mac none e s = s
settled-Says index family state type_of flags ip mac (some a) e (l, f, t, y, g, i, m) =
    elim (Bool-cases (neigh_equal a e)) [
      | inr q ↦ rw q (l, f, t, y, g, i, m)
      | inl q ↦
          let (l', f', t', y', g', i', m') = neigh_equal-fields a e q in
          rw q (l' ∙ l, f' ∙ f, t' ∙ t, y' ∙ y, g' ∙ g, i' ∙ i, m' ∙ m)
    ]

module _ (text : Ip → String) where
  index_neigh-keyed :
      (m : Dict String Neigh) (k : String) (v : Neigh)
      → key text v ≡ some k
      → index_neigh text m v ≡ insert k v m
  unfolding index_neigh
  index_neigh-keyed m k v h = elim (Option-cases v.ip) [
    | inl q ↦ absurd (ground (arith, q, h))
    | inr (a, q) ↦ ground (arith, q, h)
  ]

  -- Entries that stand under their own keys are indexed by them.
  index_neighs_lem :
      (m d : Dict String Neigh)
      → Distinct d
      → Keys (key text) d
      → index_neighs text m (values d) ≡ insert_all m d
  unfolding index_neighs insert_all
  index_neighs_lem m [] s h = refl
  index_neighs_lem m ((k, v) ∷ d) s h =
      ap (λ z. index_neighs text z (values d)) (index_neigh-keyed m k v (h k v (lookup-cons k v d)))
      ∙ index_neighs_lem (insert k v m) d s.1 (Keys-tail (key text) k v d s h)

  pub lookup-index_neighs :
      (d : Dict String Neigh) (k : String)
      → Distinct d
      → Keys (key text) d
      → lookup k (index_neighs text [] (values d)) ≡ lookup k d
  unfolding lookup
  lookup-index_neighs d k s h =
      ap (lookup k) (index_neighs_lem [] d s h) ∙ ground (arith, lookup-insert_all k [] d s)

-- Entries with different keys are all brought, and the others stay as they are.
pub ensure_brings_all :
    {W : Type 0} (text : Ip → String) (calls : NeighCalls W) (order : RangeOrder String Neigh)
    (link : Link) (table : W → String → Option Neigh)
    → Lists text table calls link
    → Sets table (key text) calls.neigh_set
    → (d : Dict String Neigh) → Distinct d
    → Keys (key text) d
    → (w : W)
    → (w' : W) × (ensure text calls order link (values d) w ≡ (ok tt, w'))
      × ((k : String) → table w' k ≡ brought (lookup k d) (table w k))
ensure_brings_all text calls order link table listing law d s h w =
    let (w', run, t) = ensure_brings text calls order link table listing law (values d) w in
    (w', run, λ k. t k ∙ ap (λ o. brought o (table w k)) (lookup-index_neighs text d k s h))
