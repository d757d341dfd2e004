-- ===== src/Vxlan/Device/Ensure.antt =====
-- What `EnsureLink` of pkg/routing/vxlan2/vxlan2routing.go makes of the device and its addresses.
use networking.Prelude.{
  ℕ, Bool, true, false, Option, none, some, List, [], ◌∷◌, String, Result, ok, string_eq, nat_eq,
  ◌==◌, if◌then◌else◌, ◌≡◌, arith, refl, ap, sym, subst, ◌∙◌,
}
use networking.Prelude.Int.{int_eq}
use networking.Prelude.Dict.{lookup, insert}
use networking.Net.{Ip, IpNet}
use networking.Netlink.{Addr, Link}
use networking.Netutil.Kernel.{Adds, Dels}
use networking.Netutil.Diff.{settled}
use networking.Netutil.Frame.{ensure_link_addresses-Keeps}
use networking.Netutil.Addresses.{
  addr_equal, index_expected_addr, index_expected_addrs, ensure_link_addresses,
}
use networking.Netutil.Addresses.Ensure.{key, Lists}
use networking.Netutil.Addresses.Exact.{addresses_exact}
use networking.Vxlan.{map_to_mac}
use networking.Vxlan.Link.{Environment, VxlanRoutingProvider, link_name, wanted_link, link_addr}
use networking.Vxlan.Current.{ensure_link}
use networking.Vxlan.Device.{IsUp, Undisturbed, DeviceLaws, AddrsApart, Made}
use networking.Vxlan.Device.Steps.{obtained, address_step, mtu_step, up_step, ensure_link_run}

Made-body :
    (o : Option Link) (wanted l x : Link) → Made o wanted l → x.body ≡ l.body → Made o wanted x
Made-body (some old) wanted l x m h = h ∙ m
Made-body none wanted l x m h = h ∙ m

module _ {W : Type 0} (e : Environment W) (device : W → Option Link)
    (addr_table : W → String → Option Addr) (local : String → Bool) where
  -- The address that the device is to have.
  abbrev pub address_for : VxlanRoutingProvider → IpNet → Addr
  address_for p cidr =
      link_addr (link_name p) (record { ip = cidr.ip; mask = 255 ∷ 255 ∷ 255 ∷ 255 ∷ [] })

  abbrev pub text_for : IpNet → String
  text_for cidr = e.net_text (record { ip = cidr.ip; mask = 255 ∷ 255 ∷ 255 ∷ 255 ∷ [] })

  -- The device has what the provider wants, and its one address.
  abbrev pub Ready : VxlanRoutingProvider → Ip → IpNet → List ℕ → W → W → Type 0
  Ready p me cidr mac w w' =
      (x : Link) × (device w' ≡ some x)
      × IsUp x
      × (x.attrs.mtu ≡ p.mtu)
      × (x.attrs.hardware_addr ≡ mac)
      × Made (device w) (wanted_link e.vxlan_type p me mac) x
      × ((k : String)
          → local k ≡ false
          → addr_table w' k ≡ (
              if text_for cidr == k
              then some (settled addr_equal (addr_table w k) (address_for p cidr))
              else none))

  wanted_address :
      (p : VxlanRoutingProvider) (cidr : IpNet) (k : String)
      → lookup k (index_expected_addrs e.net_text [] (address_for p cidr ∷ []))
        ≡ (if text_for cidr == k then some (address_for p cidr) else none)
  unfolding index_expected_addrs index_expected_addr link_addr insert lookup
  wanted_address p cidr k = refl

  module _ (p : VxlanRoutingProvider)
      (laws : DeviceLaws device addr_table local e.links (link_name p))
      (apart : AddrsApart device addr_table local e.addrs)
      (listing : (l : Link)
        → l.attrs.name ≡ link_name p
        → Lists e.net_text addr_table local e.addrs l)
      (adding : (l : Link)
        → l.attrs.name ≡ link_name p
        → Adds addr_table (key e.net_text) (e.addrs.addr_add l))
      (deleting : (l : Link)
        → l.attrs.name ≡ link_name p
        → Dels addr_table (key e.net_text) (e.addrs.addr_del l)) where
    -- The address of the device, which is not touched by it.
    address_set :
        (l : Link) (cidr : IpNet) (w0 w : W)
        → l.attrs.name ≡ link_name p
        → Undisturbed device addr_table local w0 w
        → local (text_for cidr) ≡ false
        → ((a : Addr)
            → addr_table w0 (text_for cidr) ≡ some a
            → addr_equal a (address_for p cidr) ≡ true)
        → (w' : W) × (ensure_link_addresses e.net_text e.addrs e.range_addrs l
              (address_for p cidr ∷ [])
              w
            ≡ (ok tt, w'))
          × (device w' ≡ device w)
          × ((k : String)
              → local k ≡ false
              → addr_table w' k ≡ (
                  if text_for cidr == k
                  then some (settled addr_equal (addr_table w0 k) (address_for p cidr))
                  else none))
    address_set l cidr w0 w known same near fits =
        let at = wanted_address p cidr in
        let (w', run, exactly) =
          addresses_exact e.net_text e.addrs e.range_addrs l addr_table local (listing l known)
            (adding l known) (deleting l known) (address_for p cidr ∷ []) w
            (λ k a q. ground (arith, at k, q, string_eq.same_iff (text_for cidr) k, near))
            (λ k a b q h.
              let mine : (text_for cidr == k) ≡ true = ground (arith, at k, q) in
              let named = (string_eq.same_iff (text_for cidr) k).0 mine in
              let asked : address_for p cidr ≡ a = ground (arith, at k, q, mine) in
              let far = subst (λ n. local n ≡ false) named near in
              let old = ap (addr_table w0) named ∙ sym (same k far) ∙ h in
              subst (λ z. addr_equal b z ≡ true) asked (fits b old)) in
        (
          w',
          run,
          subst (λ (z : Result {0} Unit × W). device z.1 ≡ device w) run
              (ensure_link_addresses-Keeps (λ z. device z ≡ device w) e.net_text e.addrs
                e.range_addrs l (λ z h. apart.listed l z ∙ h) (λ a z h. apart.added l a z ∙ h)
                (λ a z h. apart.deleted l a z ∙ h) (address_for p cidr ∷ []) w refl),
          λ k far. ground (arith, exactly k, at k, far, same k far),
        )

    -- For a local network of IPv4, on a kernel that keeps one link for each name and lists the
    -- addresses of the provider's, whose calls on links leave all but link-local addresses alone and whose calls on
    -- addresses leave links alone; and if the device does not have its address yet, or as it is
    -- wanted: `EnsureLink` succeeds, and afterwards the device is up and has the provider's MTU, the
    -- hardware address of the network and, beside link-local ones, exactly its address; a device
    -- that was there keeps its kind, and a new one is a tunnel of the provider's identifier and
    -- port from the local address.
    pub ensure_link-Ready :
        (me : Ip) (cidr : IpNet) (mac : List ℕ) (w : W)
        → map_to_mac cidr.ip ≡ ok mac
        → local (text_for cidr) ≡ false
        → ((a : Addr)
            → addr_table w (text_for cidr) ≡ some a
            → addr_equal a (address_for p cidr) ≡ true)
        → (l : Link) × (w' : W) × (ensure_link e p me cidr w ≡ (ok l, w'))
          × (l.attrs.name ≡ link_name p)
          × Made (device w) (wanted_link e.vxlan_type p me mac) l
          × Ready p me cidr mac w w'
    unfolding wanted_link
    ensure_link-Ready me cidr mac w v4 near fits =
        let name = link_name p in
        let (o, l, w1, looking, making, there, made, same1) =
          obtained e name device addr_table local laws (wanted_link e.vxlan_type p me mac) w refl in
        let known = laws.named w1 l there in
        let (x2, w2, run2, now2, mac2, mtu2, flags2, body2, same2) =
          address_step e name device addr_table local laws l mac w1 there in
        let (x3, w3, run3, now3, mtu3, mac3, flags3, body3, same3) =
          mtu_step e name device addr_table local laws l x2 p.mtu w2 known now2 mtu2 in
        let (w4, run4, kept, addresses) =
          address_set l cidr w w3 known (λ k h. same3 k h ∙ same2 k h ∙ same1 k h) near fits in
        let (x5, w5, run5, now5, up, mtu5, mac5, body5, same5) =
          up_step e name device addr_table local laws l x3 w4 known (kept ∙ now3)
            (flags3 ∙ flags2) in
        (
          l,
          w5,
          ensure_link_run e p me cidr mac o l w w1 w2 w3 w4 w5 v4 looking making run2 run3 run4
              run5,
          known,
          made,
          (
            x5,
            now5,
            up,
            mtu5 ∙ mtu3,
            mac5 ∙ mac3 ∙ mac2,
            Made-body (device w) _ l x5 made (body5 ∙ body3 ∙ body2),
            λ k h. same5 k h ∙ addresses k h,
          ),
        )
