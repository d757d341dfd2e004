-- ===== src/Netutil/Neighbours.antt =====
-- pkg/routing/netutil/neigh_table.go.
pub mod Ensure
pub mod Brought
use networking.Prelude.{
  ℕ, Bool, true, false, not, ◌||◌, Option, none, some, List, [], ◌∷◌, String, Exec, ◌>>=◌, ◌>>◌,
  pure, context, for_each, if◌then◌else◌, ◌==◌, nat_eq, string_eq,
}
use networking.Prelude.Dict.{Dict, lookup, insert, RangeOrder}
use networking.Net.{Ip, bytes_equal, equal_nilable}
use networking.Netlink.{Neigh, Link, NeighCalls}

unfoldable pub neigh_equal : Neigh → Neigh → Bool
neigh_equal a e =
    if not (a.type_of == e.type_of)
      || not (a.family == e.family)
      || not (a.flags == e.flags)
      || not (a.link_index == e.link_index)
      || not (a.state == e.state)
    then false
    else if not (equal_nilable a.ip e.ip)
    then false
    else if not (bytes_equal a.hardware_addr e.hardware_addr)
    then false
    else true

-- `text` is the method `String` of `net.IP`.
module _ (text : Ip → String) where
  -- The body of the loops that fill `actualMap` and `expectedMap`.
  unfoldable pub index_neigh : Dict String Neigh → Neigh → Dict String Neigh
  index_neigh m a = elim a.ip [ none ↦ m | some ip ↦ insert (text ip) a m ]

  unfoldable pub index_neighs : Dict String Neigh → List Neigh → Dict String Neigh
  index_neighs m [] = m
  index_neighs m (a ∷ rest) = index_neighs (index_neigh m a) rest

  -- The body of `for k, e := range expectedMap`.
  unfoldable pub upsert_one : Option Neigh → Neigh → List Neigh → List Neigh
  upsert_one none e rest = e ∷ rest
  upsert_one (some a) e rest = if not (neigh_equal a e) then e ∷ rest else rest

  unfoldable pub upserts : Dict String Neigh → Dict String Neigh → List Neigh
  upserts actual_map [] = []
  upserts actual_map ((k, e) ∷ rest) = upsert_one (lookup k actual_map) e (upserts actual_map rest)

  module _ {W : Type 0} (calls : NeighCalls W) (order : RangeOrder String Neigh) where
    open calls use {neigh_list, neigh_set}

    unfoldable pub set_neighs : List Neigh → Exec W Unit
    set_neighs = for_each (λ r. context "error doing `ip neigh replace`" (neigh_set r))

    -- `NeighTable.Ensure`
    unfoldable pub ensure : Link → List Neigh → Exec W Unit
    ensure link expected = do
      actual_list ← context "error listing layer2 config" (neigh_list link.attrs.index)
      let actual_map = index_neighs [] actual_list
      set_neighs (upserts actual_map (order.range (index_neighs [] expected)))
