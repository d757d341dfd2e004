-- ===== src/Vxlan/First.antt =====
-- The first `EnsureCIDRs` of pkg/routing/vxlan2/vxlan2routing.go, which makes the device.
use networking.Prelude.{ℕ, Option, String, string_eq, nat_eq, ◌≡◌}
use networking.Netlink.{Route, Neigh, Addr, Link}
use networking.Netutil.Routes
use networking.Netutil.Neighbours
use networking.Netutil.Addresses.Ensure as AddrEnsure
use networking.Netutil.Routes.Planning
use networking.Netutil.Routes.Ensure
use networking.Netutil.Neighbours.Ensure as NeighEnsure
use networking.Vxlan.Link.{Environment}

module _ {W : Type 0} (e : Environment W) (device : W → Option Link)
    (addr_table : W → String → Option Addr) where
  -- A call leaves the device and its addresses alone.
  abbrev pub SameDevice : W → W → Type 0
  SameDevice w w' = (device w' ≡ device w) × ((k : String) → addr_table w' k ≡ addr_table w k)

  -- So do the calls on routes and on neighbours.
  pub record TablesApart : Type 0 where
    pub routes_listed : (l : Option Link) (w : W) → SameDevice w (e.routes.route_list l w).1
    pub route_added : (r : Route) (w : W) → SameDevice w (e.routes.route_add r w).1
    pub route_deleted : (r : Route) (w : W) → SameDevice w (e.routes.route_del r w).1
    pub neighs_listed : (i : ℕ) (w : W) → SameDevice w (e.neighs.neigh_list i w).1
    pub neigh_set : (n : Neigh) (w : W) → SameDevice w (e.neighs.neigh_set n w).1
