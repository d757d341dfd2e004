-- ===== src/Ipsec/Policies.antt =====
-- The policies that `EnsureCIDRs` of pkg/routing/ipsec/ipsecrouting.go expects.
use networking.Prelude.{
  ℕ, none, some, List, [], ◌∷◌, ◌++◌, if◌then◌else◌, ◌==◌, nat_eq, string_eq, map,
}
use networking.Net.{Ip, IpNet, ipv4}
use networking.Netlink.{XfrmPolicyTmpl, XfrmPolicy}
use networking.Nodes.Info.{NodeInfo}
use networking.Ipsec.States.{Constants}

unfoldable pub ipnet_all : IpNet
ipnet_all = record { ip = ipv4 0 0 0 0; mask = 0 ∷ 0 ∷ 0 ∷ 0 ∷ [] }

-- `ipToIpnet`, of an address that is there.
unfoldable pub ip_to_ipnet : Ip → IpNet
ip_to_ipnet ip = record { ip = ip; mask = 255 ∷ 255 ∷ 255 ∷ 255 ∷ [] }

-- `&netlink.XfrmPolicy{}` with networks, a direction and a priority.
unfoldable pub plain_policy : IpNet → IpNet → ℕ → ℕ → XfrmPolicy
plain_policy src dst dir priority = record {
  dst = some dst;
  src = some src;
  proto = 0;
  dst_port = 0;
  src_port = 0;
  dir = dir;
  priority = priority;
  index = 0;
  mark = none;
  tmpls = [];
}

module _ (c : Constants) where
  -- No IPsec for IPsec over UDP.
  unfoldable pub udp_policy : ℕ → XfrmPolicy
  udp_policy dir = record (plain_policy ipnet_all ipnet_all dir 200) { dst_port = 4500; proto = 17 }

  unfoldable pub socket_policy : ℕ → XfrmPolicy
  socket_policy dir = plain_policy ipnet_all ipnet_all dir 0

  unfoldable pub esp_template : Ip → Ip → XfrmPolicyTmpl
  esp_template src dst = record {
    dst = some dst;
    src = some src;
    proto = c.proto_esp;
    mode = c.mode_tunnel;
    spi = 0;
    reqid = 0;
  }

  -- The policy of one direction between a network here and one there.
  unfoldable pub tunnel_policy : Ip → Ip → IpNet → IpNet → ℕ → XfrmPolicy
  tunnel_policy me remote here there dir =
      if dir == c.dir_out
      then record (plain_policy here there dir 100) { tmpls = esp_template me remote ∷ [] }
      else record (plain_policy there here dir 100) { tmpls = esp_template remote me ∷ [] }

  unfoldable pub directions : List ℕ
  directions = c.dir_in ∷ c.dir_out ∷ c.dir_fwd ∷ []

  -- The three loops: pods to pods, pods to the node, and the node to pods.
  unfoldable pub policies_between : Ip → IpNet → Ip → IpNet → List XfrmPolicy
  policies_between me here remote there =
      map (tunnel_policy me remote here there) directions
      ++ map (tunnel_policy me remote here (ip_to_ipnet remote)) directions
      ++ map (tunnel_policy me remote (ip_to_ipnet me) there) directions

  unfoldable pub policies_for : NodeInfo → Ip → IpNet → NodeInfo → List XfrmPolicy
  policies_for me address here remote = elim remote.address [
    | none ↦ []
    | some there ↦ elim remote.pod_cidr [
      | none ↦ []
      | some cidr ↦ if remote.name == me.name then [] else policies_between address here there cidr
    ]
  ]

  unfoldable pub peer_policies : NodeInfo → Ip → IpNet → List NodeInfo → List XfrmPolicy
  peer_policies me address here [] = []
  peer_policies me address here (remote ∷ rest) =
      policies_for me address here remote ++ peer_policies me address here rest

  unfoldable pub expected_policies : NodeInfo → Ip → IpNet → List NodeInfo → List XfrmPolicy
  expected_policies me address here all_nodes =
      map udp_policy directions
      ++ map socket_policy (c.socket_in ∷ c.socket_out ∷ [])
      ++ peer_policies me address here all_nodes
