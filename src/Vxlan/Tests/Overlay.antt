-- ===== src/Vxlan/Tests/Overlay.antt =====
-- The theorem about `EnsureCIDRs` of vxlan-legacy on a kernel whose world is a table of routes and a
-- table of neighbours.
use networking.Prelude.{List, ℕ, err, some, [], ok, ◌≡◌, arith, refl, nat_eq, string_eq}
use networking.Prelude.Dict.{lookup, Distinct}
use networking.Providers.Peers.{peers, peer}
use networking.Vxlan.Legacy.{Watching, ensure_cidrs}
use networking.Nodes.Map.{NodeMap}
use networking.Vxlan.Link.{VxlanRoutingProvider}
use networking.Vxlan.Unwatched.{calls, never_watched}
use networking.Vxlan.Overlay.{forwarding, Covered, ensure_cidrs-Covered}
use networking.Vxlan.Tests.Devices.{
  environment, broken, provider, made, refused, device, network, address,
}
use networking.Vxlan.Tests.Tables.{
  World, kernel, route_table, neigh_table, routes_listed, adding, deleting, neighs_listed, setting,
  apart, node_map, node_named, nodes, seen, fresh, v4, ready, done,
}

abbrev watching : Watching World
watching = record { write_file = λ path text w. (ok tt, w); start_monitor = λ i w. (ok tt, w) }

addresses : Distinct (forwarding kernel watching 3 (peers (node_named "a") nodes))
unfolding peers peer forwarding lookup
addresses = (refl, tt)

ensure_cidrs-Covered_example :
    (w' : World) × (ensure_cidrs kernel watching ready node_map ([], []) ≡ (ok tt, done, w'))
    × Covered kernel watching
        (device "vxlan1")
        network
        route_table
        neigh_table
        (peers (node_named "a") nodes)
        ([], [])
        w'
    × (ensure_cidrs kernel watching done node_map w' ≡ (ok tt, done, w'))
ensure_cidrs-Covered_example =
    ensure_cidrs-Covered kernel watching (device "vxlan1") network route_table neigh_table
      (routes_listed (some (device "vxlan1"))) adding deleting (neighs_listed (device "vxlan1"))
      setting apart ready node_map (node_named "a") nodes network address ([], []) refl refl seen
      refl refl fresh (λ h. ground (arith, h)) v4 addresses

-- After a first call that cannot write the file.
abbrev unwatched : VxlanRoutingProvider
unwatched = record provider { link = some (device "vxlan1") }

never_watched_example :
    (ensure_cidrs environment broken provider node_map 0 ≡ (err refused.0, unwatched, 0))
    × ((other : Watching ℕ) (maps : List NodeMap)
        → calls environment broken maps unwatched 0 ≡ calls environment other maps unwatched 0)
never_watched_example =
    never_watched environment broken provider node_map (node_named "a") nodes address network 0 0 0
      (device "vxlan1") refused.0 refl seen refl refl fresh made refused.1
