-- ===== src/Ipsec/States.antt =====
-- The states that `EnsureCIDRs` of pkg/routing/ipsec/ipsecrouting.go expects.
use networking.Prelude.{
  ℕ, false, ◌-◌, ◌^◌, Option, none, some, List, [], ◌∷◌, ◌++◌, Result, ok, err, fatal,
  if◌then◌else◌, is_some, ◌==◌, nat_eq, string_eq,
}
use networking.Net.{Ip, IpNet}
use networking.Netlink.{XfrmStateLimits, XfrmStateStats, XfrmState}
use networking.Nodes.Info.{NodeInfo}
use networking.Ipsec.Numeral.{compute_node_numeral, spi}
use networking.Ipsec.Strategies.{AuthenticationStrategy, EncryptionStrategy, EncapsulationStrategy}

-- The numbers that package netlink gives to protocols, modes, directions and encapsulations.
pub record Constants : Type 0 where
  pub proto_ah : ℕ
  pub proto_esp : ℕ
  pub mode_tunnel : ℕ
  pub dir_in : ℕ
  pub dir_out : ℕ
  pub dir_fwd : ℕ
  pub socket_in : ℕ
  pub socket_out : ℕ

pub record Strategies : Type 0 where
  pub authentication : AuthenticationStrategy
  pub encryption : EncryptionStrategy
  pub encapsulation : EncapsulationStrategy

unfoldable pub no_limits : XfrmStateLimits
no_limits = record {
  byte_soft = 2 ^ 64 - 1;
  byte_hard = 2 ^ 64 - 1;
  packet_soft = 2 ^ 64 - 1;
  packet_hard = 2 ^ 64 - 1;
  time_soft = 0;
  time_hard = 0;
  time_use_soft = 0;
  time_use_hard = 0;
}

abbrev no_statistics : XfrmStateStats
no_statistics = record { replay_window = 0; replay = 0; failed = 0; add_time = 0; use_time = 0 }

-- `&netlink.XfrmState{Proto: ..., Mode: ...}` with limits, addresses and an SPI.
unfoldable pub blank_state : ℕ → ℕ → Option Ip → Option Ip → ℕ → XfrmState
blank_state proto mode src dst number = record {
  dst = dst;
  src = src;
  proto = proto;
  mode = mode;
  spi = number;
  reqid = 0;
  replay_window = 0;
  limits = no_limits;
  statistics = no_statistics;
  mark = none;
  output_mark = 0;
  ifid = 0;
  auth = none;
  crypt = none;
  aead = none;
  encap = none;
  esn = false;
}

-- Whether the loop goes on with a node: another one, with an address and a network.
unfoldable pub is_peer : NodeInfo → NodeInfo → Option IpNet
is_peer me remote =
    if remote.name == me.name
    then none
    else if is_some remote.address
    then remote.pod_cidr
    else none

module _ (c : Constants) (s : Strategies) where
  -- The state of the authentication header, from a node and its number to another.
  unfoldable pub ah_state : NodeInfo → ℕ → NodeInfo → ℕ → XfrmState
  ah_state src m dst n =
      s.authentication.apply
        (blank_state c.proto_ah c.mode_tunnel src.address dst.address (spi m n 0x0)) src dst

  -- The state of the encapsulated payload.
  unfoldable pub esp_state : NodeInfo → ℕ → NodeInfo → ℕ → XfrmState
  esp_state src m dst n =
      s.encapsulation.apply
        (s.encryption.apply
          (blank_state c.proto_esp c.mode_tunnel src.address dst.address (spi m n 0x1)) src dst)
        src dst

  -- What one round of the loop over the directions appends.
  unfoldable pub states_from : NodeInfo → ℕ → NodeInfo → ℕ → List XfrmState
  states_from src m dst n =
      (if s.authentication.use_ah then ah_state src m dst n ∷ [] else [])
      ++ (if s.encryption.use_esp then esp_state src m dst n ∷ [] else [])

  -- Both directions: first in, then out.
  unfoldable pub states_between : NodeInfo → ℕ → NodeInfo → ℕ → List XfrmState
  states_between me m remote n = states_from remote n me m ++ states_from me m remote n

  unfoldable pub expected_states : NodeInfo → ℕ → List NodeInfo → Result (List XfrmState)
  expected_states me m [] = ok []
  expected_states me m (remote ∷ rest) =
      let others = expected_states me m rest in
      elim (is_peer me remote) [
        | none ↦ others
        | some cidr ↦ elim (compute_node_numeral cidr) [
          | err x ↦ err x
          | fatal x ↦ fatal x
          | ok n ↦ elim others [
            | ok l ↦ ok (states_between me m remote n ++ l)
            | err x ↦ err x
            | fatal x ↦ fatal x
          ]
        ]
      ]
