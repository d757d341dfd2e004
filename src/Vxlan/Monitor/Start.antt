-- ===== src/Vxlan/Monitor/Start.antt =====
-- `NewNetlinkMonitor` and `Start` of pkg/routing/vxlan/netlink_monitor.go. The subscription is of
-- github.com/vishvananda/netlink.
use networking.Prelude.{ℕ, Option, none, some, String, Exec, Result, ok, err, fatal, wrap}
use networking.Vxlan.Legacy.{Watching}

-- `Socket` is `nl.NetlinkSocket`.
pub record NetlinkMonitor (Socket : Type 0) : Type 0 where
  pub socket : Option Socket
  pub link_index : ℕ

unfoldable pub new_netlink_monitor : {Socket : Type 0} → ℕ → NetlinkMonitor Socket
new_netlink_monitor link_index = record { socket = none; link_index = link_index }

-- `subscribe` is `nl.Subscribe`, of a family and a group; `spawn` is `go m.watch()`.
module _ {W Socket : Type 0} (subscribe : ℕ → ℕ → Exec W Socket)
    (spawn : NetlinkMonitor Socket → W → W) where
  -- `Start`: NETLINK_ROUTE is 0, RTNLGRP_NEIGH is 3.
  unfoldable pub start : NetlinkMonitor Socket → W → Result {0} Unit × NetlinkMonitor Socket × W
  start m w =
      let (r, w') = subscribe 0 3 w in
      elim r [
        | err x ↦ (err (wrap "Failed to subscribe to (NETLINK_ROUTE,RTNLGRP_NEIGH)" x), m, w')
        | fatal x ↦ (fatal x, m, w')
        | ok s ↦ let m' = record m { socket = some s } in (ok tt, m', spawn m' w')
      ]

  -- What the provider of vxlan-legacy calls. It keeps the monitor, but reads it nowhere.
  unfoldable pub watching_with : (String → String → Exec W Unit) → Watching W
  watching_with write_file = record {
    write_file = write_file;
    start_monitor =
        λ link_index w. let (r, m, w') = start (new_netlink_monitor link_index) w in (r, w');
  }
