-- ===== src/Lib.antt =====
-- The networking agent of kopeio: a model of its watch of the cluster's nodes, of its node map, of
-- the routing providers with the tables of the kernel that they keep, and of the controller that
-- runs them, with the theorems that make them correct.
--
-- How the program works. The agent (cmd/networking-agent) reads its options, finds out how to tell
-- the local node from the others and which devices to use, and builds a provider. A watcher
-- (pkg/watchers) feeds the nodes of the cluster to a `NodeMap` (pkg/routing/nodes.go), which counts
-- its changes in a version. A controller (pkg/routing/providercontroller.go) waits for the map to be
-- ready and then calls the provider again and again; when the version has moved, the provider
-- computes the links, routes, neighbours, states and policies that the nodes ask for, and the tables
-- of pkg/routing/netutil compare them with what the kernel lists and send the difference. After that
-- the controller writes the CNI configuration (pkg/cni) and marks the node as available.
--
-- What models what:
--  - Prelude: tests, lists, results and the monad `Exec` of code that calls the outside world;
--    Prelude/Dict: Go's maps as association lists, with the order of `range` as a parameter
--    (`RangeOrder`); Prelude/Bits: two facts about `|` and `&`; Prelude/Int: Go's `int`.
--  - Net: the part of Go's package net that is used, and pkg/routing/netutil/helpers.go.
--  - Nodes: the node objects of the API server, cut to the fields that are read; Nodes/Info:
--    `NodeInfo.update`, in its three parts; Nodes/Map: the methods of `NodeMap`, with pointers as
--    addresses of cells, so that `me` can point at a record that the map has dropped.
--  - Watcher: `runOnce` and `runWatcher` of pkg/watchers/nodecontroller.go; Watcher/Cluster is the
--    abstract cluster that the signals tell of, Watcher/Loop the rounds,
--    Watcher/Snapshot what a provider then reads from the node map.
--  - Controller: `runWatcher` of pkg/routing/providercontroller.go as a machine of phases;
--    Controller/Reach lets calls on the node map come between its steps, Controller/Safety is about
--    all that can be reached so, Controller/Round about getting on; Controller/Condition is
--    `setNodeCondition`.
--  - Cni: `WriteCNIConfig` of pkg/cni/simpleconfigwriter.go.
--  - Netlink: the records and calls of github.com/vishvananda/netlink, which are parameters.
--  - Netutil: Routes (route_table.go), Neighbours (neigh_table.go), Addresses (link_addresses.go),
--    Links (links.go), Xfrm (the comparisons of xfrm_policy_table.go and xfrm_state_table.go) with
--    Xfrm/States and Xfrm/Policies (their tables; of the latter, Plan and Changed are about the lists,
--    Ensure about the requests). Neighbours has Ensure and Brought (entries for different addresses).
--    Kernel states the laws of a table of the kernel
--    that keeps one entry for each key; Diff and Sync are about differences of maps, Frame about
--    what calls leave alone. Links has Compare (its maps by name), Create (what it creates) and
--    Ensure; Addresses has Ensure (where one differs) and Exact (where none does).
--  - Providers: Peers (the loops over the nodes that all providers have), Routed (a route for each
--    peer), Layer2 (pkg/routing/layer2/provider.go) and Gre (pkg/routing/gre/provider.go, with
--    `buildTunnelName` in Names; Up is its loop that brings links up, Tunnels the tunnels and routes
--    that it asks for, Built, Reached and Ensure what it makes of the kernel).
--  - Vxlan: `mapToMAC` of pkg/routing/vxlan and pkg/routing/vxlan2; Link (what the two providers have
--    in common), Current (vxlan2/vxlan2routing.go) with Mtu, Ensure (`EnsureCIDRs`), Entries
--    (what it makes for each peer), Reached (how the peers are reached then), Device
--    (`EnsureLink`) and First (the two together), Legacy (vxlan/vxlanrouting.go) with Overlay
--    (`EnsureCIDRs`) and Unwatched, Monitor (vxlan/netlink_monitor.go) with Answers and Start.
--  - Ipsec: Numeral (`computeNodeNumeral` and the SPI), Strategies (the three files of strategies),
--    States and Policies (what `EnsureCIDRs` of pkg/routing/ipsec/ipsecrouting.go expects),
--    Provider (`EnsureCIDRs` and `Flush`), Layout, Distinct and Accepted (the bits of the SPIs, and
--    the lists made of them), Socket (`SadbXPolicy.Encode` of esp_listener.go), Listener (the rest of
--    that file, and the constructor and `Close` of the provider).
--  - Agent: Options (cmd/networking-agent/options.go, and how main.go fills them), Matcher (how the
--    local node is told from others), Targets (`findTargetLinks`), Choice (which provider is built),
--    Dispatch (the call of `EnsureCIDRs` through the interface), Run (`main` and the rest of `run`),
--    Round (the controller, the provider of vxlan2 and the writer together).
--  - Operator: `rbacModeTransform` of operator/controllers/networking_controller.go, with Setup
--    (`SetupWithManager`, and `main` of operator/main.go) and Networking (its type and methods, of
--    operator/api/v1alpha1/networking_types.go).
--
-- Conventions. Numbers are natural numbers; the version wraps at 2 ^ 64 and the shifts of the SPI
-- at 2 ^ 32. Loops over lists are structural recursion. The endless loops of the two controllers
-- take the number of rounds or steps as an argument, and their theorems are for every number, or say
-- which number is enough; `%d` takes fuel of one more than the number that it prints, which has
-- fewer digits than that. A log line and a sleep are left out; `klog.Fatalf`, a nil pointer that is
-- read and a type assertion that fails are the result `fatal` or a phase of its own. The code keys
-- its maps by the text of a network or address, a parameter `text`. `net.ParseCIDR` and
-- `net.ParseIP` are the parameter `Parsers`. An IPv4 address has two forms; `canonical` is the short
-- one. The methods of `NodeMap` hold a mutex from their start to their end, so a run is a list of
-- calls. The controller reads `me` without the mutex: each read is a step of its own. `EnsureCIDRs`
-- asks the node map twice, for its version and for a snapshot; here it is given one node map for
-- both. A hardware address without bytes stands for nil.
--
-- Not modelled: the registration of the operator's types with a scheme, its generated deep copies,
-- and logging, which are calls of libraries or generated code.
pub mod Agent
pub mod Cni
pub mod Controller
pub mod Ipsec
pub mod Net
pub mod Netlink
pub mod Netutil
pub mod Nodes
pub mod Operator
pub mod Prelude
pub mod Providers
pub mod Vxlan
pub mod Watcher
