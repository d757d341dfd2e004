-- ===== src/Vxlan/Device/Steps.antt =====
-- The steps of `EnsureLink` of pkg/routing/vxlan2/vxlan2routing.go on the device.
use Prim.Native.Nat.{bit_and}
use networking.Prelude.{
  ℕ, Bool, false, not, Option, none, some, List, [], ◌∷◌, String, Error, ok, pure, context,
  string_eq, nat_eq, ◌==◌, if◌then◌else◌, ◌≡◌, arith, refl, ap, sym, subst, ◌∙◌, Option-cases,
  Bool-cases, inl, inr,
}
use networking.Prelude.Int.{ℤ, int_eq}
use networking.Net.{Ip, IpNet, bytes_equal}
use networking.Net.Equality.{bytes_equal_iff}
use networking.Netlink.{Addr, Link, found, not_found}
use networking.Netutil.Addresses.{ensure_link_addresses}
use networking.Vxlan.{map_to_mac}
use networking.Vxlan.Link.{
  Environment, VxlanRoutingProvider, link_name, wanted_link, link_addr, not_nil,
}
use networking.Vxlan.Current.{existing_link, created_link, actual_link, ensure_link}
use networking.Vxlan.Device.{with_mac, with_mtu, IsUp, Undisturbed, DeviceLaws, Made}

module _ {W : Type 0} (e : Environment W) (name : String) (device : W → Option Link)
    (addr_table : W → String → Option Addr) (local : String → Bool)
    (laws : DeviceLaws device addr_table local e.links name) where
  looked :
      (l : Link) (w : W)
      → e.links.link_by_name name w ≡ (found (some l), w)
      → (existing_link e name w ≡ (ok (some l), w)) × (created_link e name w ≡ (ok (some l), w))
  unfolding existing_link created_link
  looked l w h = (ground (arith, h), ground (arith, h))

  none_looked :
      (x : Error) (w : W)
      → e.links.link_by_name name w ≡ (not_found x, w)
      → existing_link e name w ≡ (ok none, w)
  unfolding existing_link
  none_looked x w h = ground (arith, h)

  newly :
      (wanted made l : Link) (w w' : W)
      → wanted.attrs.name ≡ name
      → e.links.link_add wanted w ≡ (ok made, w')
      → created_link e name w' ≡ (ok (some l), w')
      → actual_link e none wanted w ≡ (ok l, w')
  unfolding actual_link not_nil
  newly wanted made l w w' known run there =
      let found_there : created_link e wanted.attrs.name w' ≡ (ok (some l), w') =
        ap (λ n. created_link e n w') known ∙ there in
      rw run (rw found_there refl)

  pub obtained :
      (wanted : Link) (w : W)
      → wanted.attrs.name ≡ name
      → (o : Option Link) × (l : Link) × (w' : W) × (existing_link e name w ≡ (ok o, w))
        × (actual_link e o wanted w ≡ (ok l, w'))
        × (device w' ≡ some l)
        × Made (device w) wanted l
        × Undisturbed device addr_table local w w'
  unfolding actual_link
  obtained wanted w known = elim (Option-cases (device w)) [
    | inr (l, there) ↦ (
      some l,
      l,
      w,
      (looked l w (laws.looked_up w l there)).0,
      refl,
      there,
      subst (λ o. Made o wanted l) (sym there) refl,
      λ k h. refl,
    )
    | inl gone ↦
        let (x, absent) = laws.absent w gone in
        let (made, l, w', run, there, body, same) = laws.added w wanted known gone in
        (
          none,
          l,
          w',
          none_looked x w absent,
          newly wanted made l w w' known run (looked l w' (laws.looked_up w' l there)).1,
          there,
          subst (λ o. Made o wanted l) (sym gone) body,
          same,
        )
  ]

  -- The three settings, each made only where it is needed.
  pub address_step :
      (l : Link) (mac : List ℕ) (w : W)
      → device w ≡ some l
      → (x : Link) × (w' : W) × ((if not (bytes_equal l.attrs.hardware_addr mac)
              then context "failed to `ip link set address`" (e.links.link_set_hardware_addr l mac)
              else pure tt)
            w
          ≡ (ok tt, w'))
        × (device w' ≡ some x)
        × (x.attrs.hardware_addr ≡ mac)
        × (x.attrs.mtu ≡ l.attrs.mtu)
        × (x.attrs.flags ≡ l.attrs.flags)
        × (x.body ≡ l.body)
        × Undisturbed device addr_table local w w'
  address_step l mac w there = elim (Bool-cases (bytes_equal l.attrs.hardware_addr mac)) [
    | inl q ↦ (
      l,
      w,
      rw q refl,
      there,
      (bytes_equal_iff l.attrs.hardware_addr mac).0 q,
      refl,
      refl,
      refl,
      λ k h. refl,
    )
    | inr q ↦
        let (w', run, now, same) = laws.address_set w l l mac (laws.named w l there) there in
        (with_mac mac l, w', rw (q, run) refl, now, refl, refl, refl, refl, same)
  ]

  pub mtu_step :
      (l x : Link) (mtu : ℤ) (w : W)
      → l.attrs.name ≡ name
      → device w ≡ some x
      → x.attrs.mtu ≡ l.attrs.mtu
      → (x' : Link) × (w' : W) × ((if not (l.attrs.mtu == mtu)
              then context "failed to `ip link set mtu`" (e.links.link_set_mtu l mtu)
              else pure tt)
            w
          ≡ (ok tt, w'))
        × (device w' ≡ some x')
        × (x'.attrs.mtu ≡ mtu)
        × (x'.attrs.hardware_addr ≡ x.attrs.hardware_addr)
        × (x'.attrs.flags ≡ x.attrs.flags)
        × (x'.body ≡ x.body)
        × Undisturbed device addr_table local w w'
  mtu_step l x mtu w known there mine = elim (Bool-cases (l.attrs.mtu == mtu)) [
    | inl q ↦ (
      x,
      w,
      rw q refl,
      there,
      mine ∙ (int_eq.same_iff l.attrs.mtu mtu).0 q,
      refl,
      refl,
      refl,
      λ k h. refl,
    )
    | inr q ↦
        let (w', run, now, same) = laws.mtu_set w l x mtu known there in
        (with_mtu mtu x, w', rw (q, run) refl, now, refl, refl, refl, refl, same)
  ]

  pub up_step :
      (l x : Link) (w : W)
      → l.attrs.name ≡ name
      → device w ≡ some x
      → x.attrs.flags ≡ l.attrs.flags
      → (x' : Link) × (w' : W) × ((if bit_and l.attrs.flags 1 == 0
              then context "failed to `ip link set up`" (e.links.link_set_up l)
              else pure tt)
            w
          ≡ (ok tt, w'))
        × (device w' ≡ some x')
        × IsUp x'
        × (x'.attrs.mtu ≡ x.attrs.mtu)
        × (x'.attrs.hardware_addr ≡ x.attrs.hardware_addr)
        × (x'.body ≡ x.body)
        × Undisturbed device addr_table local w w'
  up_step l x w known there mine = elim (Bool-cases (bit_and l.attrs.flags 1 == 0)) [
    | inr q ↦ (
      x,
      w,
      rw q refl,
      there,
      subst (λ n. (bit_and n 1 == 0) ≡ false) (sym mine) q,
      refl,
      refl,
      refl,
      λ k h. refl,
    )
    | inl q ↦
        let (x', w', run, now, up, mtu, mac, body, same) = laws.brought_up w l x known there in
        (x', w', rw (q, run) refl, now, up, mtu, mac, body, same)
  ]

module _ {W : Type 0} (e : Environment W) (p : VxlanRoutingProvider) where
  -- `EnsureLink` from what its parts do.
  pub ensure_link_run :
      (me : Ip) (cidr : IpNet) (mac : List ℕ) (o : Option Link) (l : Link) (w w1 w2 w3 w4 w5 : W)
      → map_to_mac cidr.ip ≡ ok mac
      → existing_link e (link_name p) w ≡ (ok o, w)
      → actual_link e o (wanted_link e.vxlan_type p me mac) w ≡ (ok l, w1)
      → (if not (bytes_equal l.attrs.hardware_addr mac)
            then context "failed to `ip link set address`" (e.links.link_set_hardware_addr l mac)
            else pure tt)
          w1
        ≡ (ok tt, w2)
      → (if not (l.attrs.mtu == p.mtu)
            then context "failed to `ip link set mtu`" (e.links.link_set_mtu l p.mtu)
            else pure tt)
          w2
        ≡ (ok tt, w3)
      → ensure_link_addresses e.net_text e.addrs e.range_addrs l
          (link_addr (link_name p) (record { ip = cidr.ip; mask = 255 ∷ 255 ∷ 255 ∷ 255 ∷ [] })
            ∷ [])
          w3
        ≡ (ok tt, w4)
      → (if bit_and l.attrs.flags 1 == 0
            then context "failed to `ip link set up`" (e.links.link_set_up l)
            else pure tt)
          w4
        ≡ (ok tt, w5)
      → ensure_link e p me cidr w ≡ (ok l, w5)
  unfolding ensure_link
  ensure_link_run me cidr mac o l w w1 w2 w3 w4 w5 v4 looking making run2 run3 run4 run5 =
      rw v4 (rw looking (rw making (rw run2 (rw run3 (rw run4 (rw run5 refl))))))
