-- ===== src/Netutil/Addresses.antt =====
-- pkg/routing/netutil/link_addresses.go.
pub mod Ensure
pub mod Exact
use networking.Prelude.{
  ℕ, Bool, true, false, not, ◌||◌, Option, none, some, List, [], ◌∷◌, ◌++◌, String, Exec, ◌>>=◌,
  ◌>>◌, pure, context, for_each, if◌then◌else◌, is_some, ◌==◌, nat_eq, string_eq,
}
use networking.Prelude.Dict.{Dict, lookup, insert, RangeOrder}
use networking.Net.{IpNet, ipnet_equal, is_link_local_unicast}
use networking.Netlink.{Addr, Link, AddrCalls}
use networking.Netutil.Kernel.{values}
use networking.Netutil.Diff.{created, removed, missing}

unfoldable pub addr_equal : Addr → Addr → Bool
addr_equal a e =
    if not (a.label == e.label) || not (a.flags == e.flags) || not (a.scope == e.scope)
    then false
    else if not (ipnet_equal a.ipnet e.ipnet)
    then false
    else true

-- `text` is the method `String` of `net.IPNet`.
module _ (text : IpNet → String) where
  -- The loop that fills `actualMap`: link-local addresses are left out.
  unfoldable pub index_actual_addr : Dict String Addr → Addr → Dict String Addr
  index_actual_addr m a = elim a.ipnet [
    | none ↦ m
    | some n ↦ if is_link_local_unicast n.ip then m else insert (text n) a m
  ]

  unfoldable pub index_actual_addrs : Dict String Addr → List Addr → Dict String Addr
  index_actual_addrs m [] = m
  index_actual_addrs m (a ∷ rest) = index_actual_addrs (index_actual_addr m a) rest

  -- The loop that fills `expectedMap`.
  unfoldable pub index_expected_addr : Dict String Addr → Addr → Dict String Addr
  index_expected_addr m e = elim e.ipnet [ none ↦ m | some n ↦ insert (text n) e m ]

  unfoldable pub index_expected_addrs : Dict String Addr → List Addr → Dict String Addr
  index_expected_addrs m [] = m
  index_expected_addrs m (e ∷ rest) = index_expected_addrs (index_expected_addr m e) rest

  module _ {W : Type 0} (calls : AddrCalls W) (order : RangeOrder String Addr) where
    open calls use {addr_list, addr_add, addr_del}

    unfoldable pub add_addrs : Link → List Addr → Exec W Unit
    add_addrs link = for_each (λ r. context "error doing `ip addr add`" (addr_add link r))

    unfoldable pub del_addrs : Link → List Addr → Exec W Unit
    del_addrs link = for_each (λ r. context "error doing `ip addr del`" (addr_del link r))

    -- `EnsureLinkAddresses`: new addresses are added before old ones are removed.
    unfoldable pub ensure_link_addresses : Link → List Addr → Exec W Unit
    ensure_link_addresses link expected = do
      actual_list ← context "error listing link addresses" (addr_list link)
      let actual_map = index_actual_addrs [] actual_list
      let expected_map = index_expected_addrs [] expected
      let ranged = order.range expected_map
      add_addrs link (values (created addr_equal actual_map ranged))
      del_addrs link (
          values (removed addr_equal actual_map ranged)
          ++ values (missing (order.range actual_map) expected_map))
