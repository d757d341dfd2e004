-- ===== src/Vxlan/Mtu.antt =====
-- The MTU that `NewVxlanRoutingProvider` of pkg/routing/vxlan2/vxlan2routing.go chooses.
use networking.Prelude.{
  ℕ, ◌≤◌, ◌<◌, Option, some, List, [], ◌∷◌, String, ok, nat_eq, if◌then◌else◌, ltb, All, ◌≡◌, ◌⊎◌,
  arith, refl, Bool-cases, inl, inr, In, ◌∙◌, ap,
}
use networking.Prelude.Int.{ℤ, pos, int_eq, sub_int}
use networking.Net.{IpNet}
use networking.Netlink.{Link, found}
use networking.Vxlan.Link.{Environment, fresh_provider, target_link}
use networking.Vxlan.Current.{lower_mtu, min_mtu_from, new_vxlan_routing_provider}

lower_positive : (a b : ℕ) → 0 < a → lower_mtu (pos a) (pos b) ≡ pos (if ltb b a then b else a)
unfolding lower_mtu
lower_positive a b h = ground (arith, h)

lower_first : (b : ℕ) → lower_mtu (pos 0) (pos b) ≡ pos b
unfolding lower_mtu
lower_first b = refl

module _ {W : Type 0} (e : Environment W) (w : W) (mtu_of : String → ℕ) where
  -- The kernel has a device of the name, with that MTU, which is not 0.
  abbrev pub HasDevice : String → Type 0
  HasDevice name =
      (l : Link) × (e.links.link_by_name name w ≡ (found (some l), w))
      × ((l.attrs.mtu ≡ pos (mtu_of name)) × (0 < mtu_of name))

  step_mtu :
      (min_mtu : ℤ) (name : String) (rest : List String)
      → HasDevice name
      → min_mtu_from e min_mtu (name ∷ rest) w
        ≡ min_mtu_from e (lower_mtu min_mtu (pos (mtu_of name))) rest w
  unfolding min_mtu_from target_link
  step_mtu min_mtu name rest (l, looked, (mtu, positive)) = ground (arith, looked, mtu)

  -- The result is the smallest of the MTUs and of the number that the loop starts with.
  Smallest : ℕ → List String → ℕ → Type 0
  Smallest k names m =
      (m ≤ k)
      × (All (λ name. m ≤ mtu_of name) names)
      × ((m ≡ k) ⊎ ((name : String) × In name names × (m ≡ mtu_of name)))

  min_mtu_from-Smallest :
      (k : ℕ) (names : List String)
      → 0 < k
      → All HasDevice names
      → (m : ℕ) × (min_mtu_from e (pos k) names w ≡ (ok (pos m), w)) × Smallest k names m
  unfolding Smallest min_mtu_from
  min_mtu_from-Smallest k [] h devices = (k, refl, (omega arith, tt, inl refl))
  min_mtu_from-Smallest k (name ∷ rest) h (device, devices) =
      elim (Bool-cases (ltb (mtu_of name) k)) [
        | inl lower ↦
            let (m, run, (least, all, attained)) =
              min_mtu_from-Smallest (mtu_of name) rest device.2.1 devices in
            (
              m,
              step_mtu (pos k) name rest device
                  ∙ ground (arith, lower_positive k (mtu_of name) h, lower, run),
              (
                ground (arith, least, lower),
                (least, all),
                elim attained [
                  | inl q ↦ inr (name, inl refl, q)
                  | inr (x, i, q) ↦ inr (x, inr i, q)
                ],
              ),
            )
        | inr kept ↦
            let (m, run, (least, all, attained)) = min_mtu_from-Smallest k rest h devices in
            (
              m,
              step_mtu (pos k) name rest device
                  ∙ ground (arith, lower_positive k (mtu_of name) h, kept, run),
              (
                least,
                (ground (arith, least, kept), all),
                elim attained [ inl q ↦ inl q | inr (x, i, q) ↦ inr (x, inr i, q) ],
              ),
            )
      ]

  -- For devices that the kernel has, with MTUs that are not 0, the provider's MTU is the smallest
  -- of theirs, which is that of one of them, less 100.
  pub new_provider_mtu :
      (cidr : Option IpNet) (name : String) (rest : List String)
      → All HasDevice (name ∷ rest)
      → (m : ℕ) × (new_vxlan_routing_provider e cidr (name ∷ rest) w
          ≡ (ok (fresh_provider cidr (sub_int (pos m) 100)), w))
        × (All (λ n. m ≤ mtu_of n) (name ∷ rest))
        × ((n : String) × In n (name ∷ rest) × (m ≡ mtu_of n))
  unfolding new_vxlan_routing_provider Smallest
  new_provider_mtu cidr name rest (device, devices) =
      let (m, run, (least, all, attained)) =
        min_mtu_from-Smallest (mtu_of name) rest device.2.1 devices in
      let first =
        step_mtu (pos 0) name rest device
        ∙ ap (λ z. min_mtu_from e z rest w) (lower_first (mtu_of name))
        ∙ run in
      (
        m,
        ground (arith, first),
        (least, all),
        elim attained [ inl q ↦ (name, inl refl, q) | inr (x, i, q) ↦ (x, inr i, q) ],
      )
