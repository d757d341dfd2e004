-- ===== src/Ipsec/Tests.antt =====
-- The theorems about pkg/routing/ipsec at two nodes, and at the policy of the listener's socket.
use networking.Prelude.{map, List, true, ℕ, some, [], ◌∷◌, ok, length, ◌≡◌, arith, refl}
use networking.Net.{IpNet, to4}
use networking.Ipsec.Numeral.{
  byte_ones, all_zero, mask_length, mask_size, big_endian, compute_node_numeral,
}
use networking.Ipsec.Strategies.{
  hmac_sha1_authentication_strategy, aes_encryption_strategy, udp_encapsulation_strategy,
}
use networking.Netlink.{XfrmState}
use networking.Prelude.Dict.{Dict}
use networking.Nodes.Info.{NodeInfo}
use networking.Netutil.Xfrm.States.{index_expected_states}
use networking.Ipsec.States.{
  Constants, Strategies, states_from, states_between, is_peer, expected_states,
}
use networking.Ipsec.Distinct.{Apart}
use networking.Ipsec.Accepted.{
  KeepsSpi, spi_of, numeral_of, peer_numerals, expected_states-accepted,
}
use networking.Ipsec.Socket.{SadbXPolicy, encode, decode, stated_length, decode-encode}

abbrev pod_net : IpNet
pod_net = record { ip = 100 ∷ 96 ∷ 1 ∷ 0 ∷ []; mask = 255 ∷ 255 ∷ 255 ∷ 0 ∷ [] }

numeral_of_pod_net : compute_node_numeral pod_net ≡ ok 0x2001
unfolding compute_node_numeral to4 mask_size mask_length byte_ones all_zero big_endian
numeral_of_pod_net = refl

abbrev outbound : SadbXPolicy
outbound = record {
  ext_type = 18;
  type_of = 4;
  direction = 2;
  reserved = 0;
  policy_id = 0;
  policy_priority = 0;
}

decode-encode_example :
    (decode (encode outbound) ≡ some outbound)
    × (stated_length (encode outbound) ≡ length (encode outbound))
    × (length (encode outbound) ≡ 16)
decode-encode_example =
    decode-encode outbound (omega arith) (omega arith) (omega arith) (omega arith)

abbrev constants : Constants
constants = record {
  proto_ah = 51;
  proto_esp = 50;
  mode_tunnel = 1;
  dir_in = 0;
  dir_out = 1;
  dir_fwd = 2;
  socket_in = 3;
  socket_out = 4;
}

abbrev strategies : Strategies
strategies = record {
  authentication = hmac_sha1_authentication_strategy;
  encryption = aes_encryption_strategy;
  encapsulation = udp_encapsulation_strategy 2;
}

strategies-KeepsSpi : KeepsSpi strategies
unfolding hmac_sha1_authentication_strategy aes_encryption_strategy udp_encapsulation_strategy
strategies-KeepsSpi = record {
  uses_ah = refl;
  uses_esp = refl;
  authentication_spi = λ x a b. refl;
  encryption_spi = λ x a b. refl;
  encapsulation_spi = λ x a b. refl;
}

abbrev me : NodeInfo
me = record {
  name = "a";
  address = some (10 ∷ 0 ∷ 0 ∷ 2 ∷ []);
  pod_cidr = some pod_net;
  network_available = true;
}

abbrev other_net : IpNet
other_net = record { ip = 100 ∷ 96 ∷ 2 ∷ 0 ∷ []; mask = 255 ∷ 255 ∷ 255 ∷ 0 ∷ [] }

abbrev other : NodeInfo
other = record {
  name = "b";
  address = some (10 ∷ 0 ∷ 0 ∷ 3 ∷ []);
  pod_cidr = some other_net;
  network_available = true;
}

abbrev nodes : List NodeInfo
nodes = me ∷ other ∷ []

abbrev expected : List XfrmState
expected = states_between constants strategies me 0x2001 other 0x2002

expected_of_nodes : expected_states constants strategies me 0x2001 nodes ≡ ok expected
unfolding expected_states is_peer compute_node_numeral to4 mask_size mask_length byte_ones all_zero
    big_endian states_between states_from hmac_sha1_authentication_strategy aes_encryption_strategy
expected_of_nodes = refl

numerals-Apart : Apart (0x2001 ∷ peer_numerals me nodes)
unfolding peer_numerals numeral_of is_peer compute_node_numeral to4 mask_size mask_length byte_ones
    all_zero big_endian
numerals-Apart = (((omega arith), tt), (tt, tt))

expected_states-accepted_example :
    Apart (map spi_of expected)
    × ((e : Dict ℕ XfrmState) × (index_expected_states [] expected ≡ ok e))
expected_states-accepted_example =
    expected_states-accepted constants strategies strategies-KeepsSpi me pod_net 0x2001 nodes
      expected numeral_of_pod_net expected_of_nodes numerals-Apart
