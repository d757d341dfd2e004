-- ===== src/Netutil/Frame.antt =====
-- What calls of the outside world leave alone: a property of the world that every step of a piece
-- of code keeps, the code keeps.
use networking.Prelude.{
  ℕ, List, [], ◌∷◌, String, Exec, Result, ok, err, fatal, and_then, ◌>>=◌, pure, wrapping, context,
  for_each, lift, Bool, true, false, Option, if◌then◌else◌, string_eq,
}
use networking.Prelude.Dict.{RangeOrder}
use networking.Net.{Ip, IpNet}
use networking.Netutil.Neighbours
use networking.Netutil.Neighbours.{set_neighs}
use networking.Netlink.{NeighCalls, Neigh, Route, Link, Addr, RouteCalls, LinkCalls, AddrCalls}
use networking.Netutil.Addresses.{add_addrs, del_addrs, ensure_link_addresses}
use networking.Netutil.Links
use networking.Netutil.Links.{create_links, remove_links}
use networking.Netutil.Routes.{
  index_actual, plan_expected, remove_routes, create_routes, apply_plan, ensure,
}

module _ {W : Type 0} (Holds : W → Type 0) where
  abbrev pub Keeps : {A : Type 0} → Exec W A → Type 0
  Keeps m = (w : W) → Holds w → Holds (m w).1

  bound :
      {A B : Type 0} (f : A → Exec W B)
      → ((a : A) → Keeps (f a))
      → (r : Result A × W) → Holds r.1
      → Holds (and_then r f).1
  bound f k (ok a, w) h = k a w h
  bound f k (err x, w) h = h
  bound f k (fatal x, w) h = h

  pub bind-Keeps :
      {A B : Type 0} (m : Exec W A) (f : A → Exec W B)
      → Keeps m
      → ((a : A) → Keeps (f a))
      → Keeps (m >>= f)
  bind-Keeps m f k l w h = bound f l (m w) (k w h)

  wrapped :
      {A : Type 0} (message : String) (r : Result A × W) → Holds r.1 → Holds (wrapping message r).1
  wrapped message (ok a, w) h = h
  wrapped message (err x, w) h = h
  wrapped message (fatal x, w) h = h

  pub context-Keeps :
      {A : Type 0} (message : String) (m : Exec W A) → Keeps m → Keeps (context message m)
  context-Keeps message m k w h = wrapped message (m w) (k w h)

  pub for_each-Keeps :
      {A : Type 0} (f : A → Exec W Unit) (xs : List A)
      → ((a : A) → Keeps (f a))
      → Keeps (for_each f xs)
  unfolding for_each
  for_each-Keeps f [] k w h = h
  for_each-Keeps f (x ∷ xs) k w h =
      bind-Keeps (f x) (λ u. for_each f xs) (k x) (λ u. for_each-Keeps f xs k) w h

  either-Keeps : (b : Bool) (m : Exec W Unit) → Keeps m → Keeps (if b then m else pure tt)
  either-Keeps true m k w h = k w h
  either-Keeps false m k w h = h

  pub unless-Keeps : (b : Bool) (m : Exec W Unit) → Keeps m → Keeps (if b then pure tt else m)
  unless-Keeps true m k w h = h
  unless-Keeps false m k w h = k w h

  -- `RouteTable.Ensure` keeps what the calls on routes keep.
  pub routes_ensure-Keeps :
      (text : IpNet → String) (calls : RouteCalls W) (order : RangeOrder String Route)
      → ((link : Option Link) → Keeps (calls.route_list link))
      → ((r : Route) → Keeps (calls.route_add r))
      → ((r : Route) → Keeps (calls.route_del r))
      → (link : Option Link) (expected : List Route) (b : Bool)
      → Keeps (ensure text calls order link expected b)
  unfolding ensure apply_plan remove_routes create_routes
  routes_ensure-Keeps text calls order listed added deleted link expected b =
      bind-Keeps (context "error doing `ip route show`" (calls.route_list link)) _
        (context-Keeps "error doing `ip route show`" (calls.route_list link) (listed link))
        (λ actual_list.
          bind-Keeps (lift (plan_expected text (index_actual text [] actual_list) [] expected)) _
            (λ w h. h)
            (λ p.
              bind-Keeps _ _
                (either-Keeps b _ (
                  for_each-Keeps (λ r. context "error removing route" (calls.route_del r)) _
                    (λ r. context-Keeps "error removing route" (calls.route_del r) (deleted r))))
                (λ u.
                  for_each-Keeps (λ r. context "error creating route" (calls.route_add r)) _
                    (λ r. context-Keeps "error creating route" (calls.route_add r) (added r)))))

  create_links-Keeps :
      (has_prefix : String → String → Bool) (calls : LinkCalls W) (order : RangeOrder String Link)
      → ((l : Link) → Keeps (calls.link_add l))
      → (l : List Link) → Keeps (create_links has_prefix calls order l)
  unfolding create_links
  create_links-Keeps has_prefix calls order added [] w h = h
  create_links-Keeps has_prefix calls order added (l ∷ rest) w h =
      bind-Keeps (context "error creating link" (calls.link_add l)) _
        (context-Keeps "error creating link" (calls.link_add l) (added l))
        (λ a.
          bind-Keeps (create_links has_prefix calls order rest) _
            (create_links-Keeps has_prefix calls order added rest) (λ others w' h'. h'))
        w h

  -- `Links.Ensure` keeps what the calls on links keep.
  pub links_ensure-Keeps :
      (has_prefix : String → String → Bool) (calls : LinkCalls W) (order : RangeOrder String Link)
      → Keeps calls.link_list
      → ((l : Link) → Keeps (calls.link_add l))
      → ((l : Link) → Keeps (calls.link_del l))
      → (expected : List Link) (prefix : String)
      → Keeps (Links.ensure has_prefix calls order expected prefix)
  unfolding Links.ensure remove_links
  links_ensure-Keeps has_prefix calls order listed added deleted expected prefix =
      bind-Keeps (context "error doing `ip route show`" calls.link_list) _
        (context-Keeps "error doing `ip route show`" calls.link_list listed)
        (λ all_links.
          bind-Keeps (remove_links has_prefix calls order _) _
            (for_each-Keeps (λ l. context "error removing link" (calls.link_del l)) _
              (λ l. context-Keeps "error removing link" (calls.link_del l) (deleted l)))
            (λ u.
              bind-Keeps (create_links has_prefix calls order _) _
                (create_links-Keeps has_prefix calls order added _) (λ made w h. h)))

  -- `EnsureLinkAddresses` keeps what the calls on addresses keep.
  pub ensure_link_addresses-Keeps :
      (text : IpNet → String) (calls : AddrCalls W) (order : RangeOrder String Addr) (l : Link)
      → Keeps (calls.addr_list l)
      → ((a : Addr) → Keeps (calls.addr_add l a))
      → ((a : Addr) → Keeps (calls.addr_del l a))
      → (expected : List Addr) → Keeps (ensure_link_addresses text calls order l expected)
  unfolding ensure_link_addresses add_addrs del_addrs
  ensure_link_addresses-Keeps text calls order l listed added deleted expected =
      bind-Keeps (context "error listing link addresses" (calls.addr_list l)) _
        (context-Keeps "error listing link addresses" (calls.addr_list l) listed)
        (λ actual_list.
          bind-Keeps (add_addrs text calls order l _) _
            (for_each-Keeps (λ r. context "error doing `ip addr add`" (calls.addr_add l r)) _
              (λ r. context-Keeps "error doing `ip addr add`" (calls.addr_add l r) (added r)))
            (λ u.
              for_each-Keeps (λ r. context "error doing `ip addr del`" (calls.addr_del l r)) _
                (λ r. context-Keeps "error doing `ip addr del`" (calls.addr_del l r) (deleted r))))

  -- `NeighTable.Ensure` keeps what the calls on neighbours keep.
  pub neighs_ensure-Keeps :
      (text : Ip → String) (calls : NeighCalls W) (order : RangeOrder String Neigh) (l : Link)
      → ((i : ℕ) → Keeps (calls.neigh_list i))
      → ((n : Neigh) → Keeps (calls.neigh_set n))
      → (expected : List Neigh) → Keeps (Neighbours.ensure text calls order l expected)
  unfolding Neighbours.ensure set_neighs
  neighs_ensure-Keeps text calls order l listed set expected =
      bind-Keeps (context "error listing layer2 config" (calls.neigh_list l.attrs.index)) _
        (context-Keeps "error listing layer2 config" (calls.neigh_list l.attrs.index)
          (listed l.attrs.index))
        (λ actual_list.
          for_each-Keeps (λ r. context "error doing `ip neigh replace`" (calls.neigh_set r)) _
            (λ r. context-Keeps "error doing `ip neigh replace`" (calls.neigh_set r) (set r)))
