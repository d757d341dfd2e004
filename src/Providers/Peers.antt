-- ===== src/Providers/Peers.antt =====
-- What the loops of the routing providers of pkg/routing have in common: they go over the nodes of
-- a snapshot and skip the local node and the nodes without an address or a pod network.
use networking.Prelude.{
  ℕ, Bool, not, ◌&&◌, Option, none, some, List, [], ◌∷◌, String, if◌then◌else◌, ◌==◌, nat_eq,
  string_eq,
}
use networking.Net.{Ip, IpNet}
use networking.Nodes.Info.{NodeInfo}
use networking.Nodes.Map.{NodeMap, is_version}

-- A node that a provider routes to.
pub record Peer : Type 0 where
  pub name : String
  pub address : Ip
  pub pod_cidr : IpNet

-- The guards of a loop's body, with their `continue`s.
unfoldable pub peer : NodeInfo → NodeInfo → Option Peer
peer me remote = if remote.name == me.name then none else elim remote.address [
  | none ↦ none
  | some address ↦ elim remote.pod_cidr [
    | none ↦ none
    | some pod_cidr ↦ some (record { name = remote.name; address = address; pod_cidr = pod_cidr })
  ]
]

-- The nodes that a loop goes on with.
unfoldable pub peers : NodeInfo → List NodeInfo → List Peer
peers me [] = []
peers me (remote ∷ rest) =
    let others = peers me rest in elim (peer me remote) [ none ↦ others | some p ↦ p ∷ others ]

-- `p.lastVersionApplied != 0 && nodeMap.IsVersion(p.lastVersionApplied)`
unfoldable pub is_applied : NodeMap → ℕ → Bool
is_applied node_map last_version_applied =
    not (last_version_applied == 0) && is_version node_map last_version_applied
