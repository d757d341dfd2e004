-- ===== src/Nodes.antt =====
-- pkg/routing/nodes.go: what the agent knows of the nodes of the cluster. Here the objects of the
-- Kubernetes API that it reads, cut to the fields that it reads; the children have `NodeInfo`
-- (`Info`) and `NodeMap` (`Map`).
pub mod Info
pub mod Map
pub mod Tests
use networking.Prelude.{String, List, Option}
use networking.Net.{Ip, IpNet}

-- `corev1.NodeAddressType`: `NodeInternalIP`, or any other text.
pub data AddressType : Type 0 where
  internal_ip : AddressType
  other_address : String → AddressType

pub record NodeAddress : Type 0 where
  pub type_of : AddressType
  pub address : String

-- `corev1.NodeConditionType`: `NodeNetworkUnavailable`, or any other text.
pub data ConditionType : Type 0 where
  network_unavailable : ConditionType
  other_condition : String → ConditionType

-- `corev1.ConditionStatus`
pub data ConditionStatus : Type 0 where
  condition_true condition_false condition_unknown : ConditionStatus
  other_status : String → ConditionStatus

pub record NodeCondition : Type 0 where
  pub type_of : ConditionType
  pub status : ConditionStatus

-- `corev1.Node`
pub record Node : Type 0 where
  pub name : String
  pub pod_cidr : String
  pub addresses : List NodeAddress
  pub conditions : List NodeCondition
  pub machine_id : String
  pub system_uuid : String
  pub boot_id : String

-- `net.ParseCIDR` and `net.ParseIP`, of Go's library: `none` is an error or nil.
pub record Parsers : Type 0 where
  pub parse_cidr : String → Option IpNet
  pub parse_ip : String → Option Ip
