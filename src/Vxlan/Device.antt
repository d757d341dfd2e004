-- ===== src/Vxlan/Device.antt =====
-- The device of the providers of vxlan in the kernel: what `EnsureLink` of
-- pkg/routing/vxlan2/vxlan2routing.go makes of it, and what it relies on.
pub mod Steps
pub mod Ensure
use Prim.Native.Nat.{bit_and}
use networking.Prelude.{
  ℕ, Bool, true, false, not, Option, none, some, List, [], ◌∷◌, String, Exec, Error, Result, ok,
  err, pure, context, ◌>>=◌, ◌>>◌, bind_ok, string_eq, nat_eq, ◌==◌, if◌then◌else◌, ◌≡◌, ◌≢◌, arith,
  refl, ap, sym, subst, ◌∙◌, Option-cases, Bool-cases, inl, inr,
}
use networking.Prelude.Int.{ℤ, int_eq}
use networking.Prelude.Dict.{Dict, lookup, insert}
use networking.Net.{Ip, IpNet, bytes_equal}
use networking.Net.Equality.{bytes_equal_iff}
use networking.Netlink.{
  Addr, Link, LinkBody, vxlan, LinkCalls, AddrCalls, LinkLookup, found, not_found,
}
use networking.Netutil.Kernel.{Adds, Dels}
use networking.Netutil.Diff.{settled}
use networking.Netutil.Frame.{ensure_link_addresses-Keeps}
use networking.Netutil.Addresses.{
  addr_equal, index_expected_addr, index_expected_addrs, ensure_link_addresses,
}
use networking.Netutil.Addresses.Ensure.{key, Lists}
use networking.Netutil.Addresses.Exact.{Exactly, addresses_exact}
use networking.Vxlan.{map_to_mac}
use networking.Vxlan.Link.{
  Environment, VxlanRoutingProvider, link_name, wanted_link, link_addr, not_nil,
}
use networking.Vxlan.Current.{existing_link, created_link, actual_link, ensure_link}

abbrev pub with_mac : List ℕ → Link → Link
with_mac mac l = record l { attrs = record l.attrs { hardware_addr = mac } }

abbrev pub with_mtu : ℤ → Link → Link
with_mtu mtu l = record l { attrs = record l.attrs { mtu = mtu } }

-- `net.FlagUp`
abbrev pub IsUp : Link → Type 0
IsUp l = (bit_and l.attrs.flags 1 == 0) ≡ false

module _ {W : Type 0} (device : W → Option Link) (addr_table : W → String → Option Addr)
    (local : String → Bool) where
  -- The addresses of the device are as they were, but for link-local ones.
  abbrev pub Undisturbed : W → W → Type 0
  Undisturbed w w' = (k : String) → local k ≡ false → addr_table w' k ≡ addr_table w k

  -- The calls on the device of one name. `device` is what the kernel holds under that name.
  pub record DeviceLaws (links : LinkCalls W) (name : String) : Type 0 where
    pub named : (w : W) (x : Link) → device w ≡ some x → x.attrs.name ≡ name
    pub looked_up :
        (w : W) (x : Link) → device w ≡ some x → links.link_by_name name w ≡ (found (some x), w)
    pub absent :
        (w : W) → device w ≡ none → (e : Error) × (links.link_by_name name w ≡ (not_found e, w))
    pub added :
        (w : W) (l : Link)
        → l.attrs.name ≡ name
        → device w ≡ none
        → (made : Link) × (x : Link) × (w' : W) × (links.link_add l w ≡ (ok made, w'))
          × (device w' ≡ some x)
          × (x.body ≡ l.body)
          × Undisturbed w w'
    pub address_set :
        (w : W) (l x : Link) (mac : List ℕ)
        → l.attrs.name ≡ name
        → device w ≡ some x
        → (w' : W) × (links.link_set_hardware_addr l mac w ≡ (ok tt, w'))
          × (device w' ≡ some (with_mac mac x))
          × Undisturbed w w'
    pub mtu_set :
        (w : W) (l x : Link) (mtu : ℤ)
        → l.attrs.name ≡ name
        → device w ≡ some x
        → (w' : W) × (links.link_set_mtu l mtu w ≡ (ok tt, w'))
          × (device w' ≡ some (with_mtu mtu x))
          × Undisturbed w w'
    pub brought_up :
        (w : W) (l x : Link)
        → l.attrs.name ≡ name
        → device w ≡ some x
        → (x' : Link) × (w' : W) × (links.link_set_up l w ≡ (ok tt, w'))
          × (device w' ≡ some x')
          × IsUp x'
          × (x'.attrs.mtu ≡ x.attrs.mtu)
          × (x'.attrs.hardware_addr ≡ x.attrs.hardware_addr)
          × (x'.body ≡ x.body)
          × Undisturbed w w'

  -- The calls on addresses leave the device alone.
  pub record AddrsApart (addrs : AddrCalls W) : Type 0 where
    pub listed : (l : Link) (w : W) → device (addrs.addr_list l w).1 ≡ device w
    pub added : (l : Link) (a : Addr) (w : W) → device (addrs.addr_add l a w).1 ≡ device w
    pub deleted : (l : Link) (a : Addr) (w : W) → device (addrs.addr_del l a w).1 ≡ device w

-- What the device is: the one that was there, or a new one as it was wanted.
abbrev pub Made : Option Link → Link → Link → Type 0
Made (some old) wanted x = x.body ≡ old.body
Made none wanted x = x.body ≡ wanted.body
