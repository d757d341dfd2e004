-- ===== src/Netutil/Links.antt =====
-- pkg/routing/netutil/links.go.
pub mod Compare
pub mod Create
pub mod Ensure
use networking.Prelude.{
  Bool, true, false, not, none, some, List, [], ◌∷◌, String, Exec, ◌>>=◌, ◌>>◌, pure, context,
  for_each, if◌then◌else◌, ◌==◌, string_eq,
}
use networking.Prelude.Dict.{Dict, lookup, insert, RangeOrder}
use networking.Netlink.{Link, LinkCalls}
use networking.Netutil.Kernel.{values}
use networking.Netutil.Diff.{missing}

-- The `switch` has a `default` only, which answers true.
unfoldable pub link_equal : Link → Link → Bool
link_equal a e =
    if not (a.type_of == e.type_of)
    then false
    else if not (a.attrs.name == e.attrs.name)
    then false
    else true

-- `has_prefix` is `strings.HasPrefix`, of the text and the prefix.
module _ (has_prefix : String → String → Bool) where
  -- The loop over `netlink.LinkList` that fills `actualMap`.
  unfoldable pub index_actual_links : String → Dict String Link → List Link → Dict String Link
  index_actual_links prefix m [] = m
  index_actual_links prefix m (l ∷ rest) =
      if has_prefix l.attrs.name prefix
      then index_actual_links prefix (insert l.attrs.name l m) rest
      else index_actual_links prefix m rest

  unfoldable pub index_expected_links : Dict String Link → List Link → Dict String Link
  index_expected_links m [] = m
  index_expected_links m (e ∷ rest) = index_expected_links (insert e.attrs.name e m) rest

  -- The links that the loop over `expectedMap` creates; one that differs is only warned about.
  unfoldable pub create_list : Dict String Link → Dict String Link → List Link
  create_list actual_map [] = []
  create_list actual_map ((k, e) ∷ rest) =
      let others = create_list actual_map rest in
      elim (lookup k actual_map) [ none ↦ e ∷ others | some a ↦ others ]

  -- What that loop puts into `retMap`.
  unfoldable pub kept_links :
      Dict String Link → Dict String Link → Dict String Link → Dict String Link
  kept_links actual_map ret_map [] = ret_map
  kept_links actual_map ret_map ((k, e) ∷ rest) = elim (lookup k actual_map) [
    | none ↦ kept_links actual_map ret_map rest
    | some a ↦ kept_links actual_map (insert k a ret_map) rest
  ]

  unfoldable pub add_created : Dict String Link → List Link → Dict String Link
  add_created ret_map [] = ret_map
  add_created ret_map (l ∷ rest) = add_created (insert l.attrs.name l ret_map) rest

  module _ {W : Type 0} (calls : LinkCalls W) (order : RangeOrder String Link) where
    open calls use {link_list, link_add, link_del}

    unfoldable pub remove_links : List Link → Exec W Unit
    remove_links = for_each (λ l. context "error removing link" (link_del l))

    -- The links as the calls leave them.
    unfoldable pub create_links : List Link → Exec W (List Link)
    create_links [] = pure []
    create_links (l ∷ rest) = do
      l' ← context "error creating link" (link_add l)
      others ← create_links rest
      pure (l' ∷ others)

    -- `Links.Ensure`
    unfoldable pub ensure : List Link → String → Exec W (Dict String Link)
    ensure expected prefix = do
      all_links ← context "error doing `ip route show`" link_list
      let actual_map = index_actual_links prefix [] all_links
      let expected_map = index_expected_links [] expected
      let ranged = order.range expected_map
      remove_links (values (missing (order.range actual_map) expected_map))
      created ← create_links (create_list actual_map ranged)
      pure (add_created (kept_links actual_map [] ranged) created)
