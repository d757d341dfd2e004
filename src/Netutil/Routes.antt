-- ===== src/Netutil/Routes.antt =====
-- pkg/routing/netutil/route_table.go.
pub mod Equality
pub mod Planning
pub mod Ensure
pub mod Additive
use networking.Prelude.{
  ℕ, Bool, true, false, not, ◌&&◌, ◌||◌, Option, none, some, List, [], ◌∷◌, ◌++◌, String, Exec,
  Result, ok, err, fatal, errorf, ◌>>=◌, ◌>>◌, pure, lift, context, for_each, if◌then◌else◌,
  is_some, ◌==◌, nat_eq, string_eq, length,
}
use networking.Prelude.Dict.{Dict, lookup, insert, RangeOrder}
use networking.Net.{Ip, IpNet, ip_equal, ipnet_equal}
use networking.Netlink.{NexthopInfo, Route, Link, RouteCalls}

unfoldable pub nexthop_info_equal : NexthopInfo → NexthopInfo → Bool
nexthop_info_equal a e =
    if not (a.link_index == e.link_index) || not (a.hops == e.hops)
    then false
    else if not (ip_equal a.gw e.gw)
    then false
    else true

-- `for i := range a.MultiPath`, after the test that the lengths agree.
unfoldable pub nexthops_equal : List NexthopInfo → List NexthopInfo → Bool
nexthops_equal [] es = true
nexthops_equal (a ∷ as') [] = true
nexthops_equal (a ∷ as') (e ∷ es) =
    let rest = nexthops_equal as' es in if not (nexthop_info_equal a e) then false else rest

unfoldable pub route_equal : Route → Route → Bool
route_equal a e =
    if not (a.link_index == e.link_index)
      || not (a.ilink_index == e.ilink_index)
      || not (a.scope == e.scope)
      || not (a.protocol == e.protocol)
      || not (a.priority == e.priority)
      || not (a.table == e.table)
      || not (a.type_of == e.type_of)
      || not (a.tos == e.tos)
      || not (a.flags == e.flags)
    then false
    else if not (ipnet_equal a.dst e.dst)
    then false
    else if not (ip_equal a.src e.src)
    then false
    else if not (ip_equal a.gw e.gw)
    then false
    else if not (length a.multi_path == length e.multi_path)
    then false
    else nexthops_equal a.multi_path e.multi_path

-- What the loop over `expected` finds out: `expectedMap`, `create` and `remove`.
pub record Plan : Type 0 where
  pub expected_map : Dict String Route
  pub create : List Route
  pub remove : List Route

-- `text` is the method `String` of `net.IPNet`, by which the code keys its maps; `order` is the
-- order of `range` over `actualMap`.
module _ (text : IpNet → String) where
  -- `actualMap`: routes without a destination are left out, and the last of one key stays.
  unfoldable pub index_route : Dict String Route → Route → Dict String Route
  index_route m a = elim a.dst [ none ↦ m | some d ↦ insert (text d) a m ]

  unfoldable pub index_actual : Dict String Route → List Route → Dict String Route
  index_actual m [] = m
  index_actual m (a ∷ rest) = index_actual (index_route m a) rest

  -- The body of the loop: whether `e` is created, and what is removed for it.
  unfoldable pub compare_route : Option Route → Route → Plan → Plan
  compare_route none e p = record p { create = e ∷ p.create }
  compare_route (some a) e p =
      if not (route_equal a e) then record p { create = e ∷ p.create; remove = a ∷ p.remove } else p

  unfoldable pub plan_expected : Dict String Route → Dict String Route → List Route → Result Plan
  plan_expected actual_map expected_map [] =
      ok (record { expected_map = expected_map; create = []; remove = [] })
  plan_expected actual_map expected_map (e ∷ rest) = elim e.dst [
    | none ↦ err (errorf "expected route did not have dst")
    | some d ↦ elim (plan_expected actual_map (insert (text d) e expected_map) rest) [
      | ok p ↦ ok (compare_route (lookup (text d) actual_map) e p)
      | err x ↦ err x
      | fatal s ↦ fatal s
    ]
  ]

  -- `for k, a := range actualMap`: what is not expected.
  unfoldable pub extra : Dict String Route → Dict String Route → List Route
  extra expected_map [] = []
  extra expected_map ((k, a) ∷ rest) =
      let others = extra expected_map rest in
      if is_some (lookup k expected_map) then others else a ∷ others

  module _ {W : Type 0} (calls : RouteCalls W) (order : RangeOrder String Route) where
    open calls use {route_list, route_add, route_del}

    unfoldable pub remove_routes : List Route → Exec W Unit
    remove_routes = for_each (λ r. context "error removing route" (route_del r))

    unfoldable pub create_routes : List Route → Exec W Unit
    create_routes = for_each (λ r. context "error creating route" (route_add r))

    -- What is done once the kernel's routes have been read.
    unfoldable pub apply_plan : Dict String Route → Bool → Plan → Exec W Unit
    apply_plan actual_map delete_extra_routes p = do
      if delete_extra_routes
          then remove_routes (p.remove ++ extra p.expected_map (order.range actual_map))
          else pure tt
      create_routes p.create

    -- `RouteTable.Ensure`
    unfoldable pub ensure : Option Link → List Route → Bool → Exec W Unit
    ensure link expected delete_extra_routes = do
      actual_list ← context "error doing `ip route show`" (route_list link)
      let actual_map = index_actual [] actual_list
      p ← lift (plan_expected actual_map [] expected)
      apply_plan actual_map delete_extra_routes p
