-- ===== src/Ipsec/Strategies.antt =====
-- The strategies of pkg/routing/ipsec: authentication_strategy.go, encryption_strategy.go and
-- encapsulation_strategy.go. An interface is a record of its methods; none of the methods reads the
-- two nodes that it is given.
use networking.Prelude.{ℕ, Bool, true, some, [], ◌∷◌}
use networking.Net.{ipv4}
use networking.Netlink.{XfrmState}
use networking.Nodes.Info.{NodeInfo}

pub record AuthenticationStrategy : Type 0 where
  pub apply : XfrmState → NodeInfo → NodeInfo → XfrmState
  pub use_ah : Bool

pub record EncryptionStrategy : Type 0 where
  pub apply : XfrmState → NodeInfo → NodeInfo → XfrmState
  pub use_esp : Bool

pub record EncapsulationStrategy : Type 0 where
  pub apply : XfrmState → NodeInfo → NodeInfo → XfrmState

unfoldable pub hmac_sha1_authentication_strategy : AuthenticationStrategy
hmac_sha1_authentication_strategy = record {
  apply = λ s src dest. record s {
    auth = some (record {
      name = "hmac(sha1)";
      key = 0x1 ∷ 0x2 ∷ 0x3 ∷ 0x4 ∷ 0x5 ∷ 0x6 ∷ 0x7 ∷ 0x8 ∷ 0x9 ∷ 0xa ∷ [];
      truncate_len = 96;
      icv_len = 0;
    });
  };
  use_ah = true;
}

unfoldable pub plaintext_authentication_strategy : AuthenticationStrategy
plaintext_authentication_strategy = record {
  apply = λ s src dest. record s {
    auth = some (record { name = "digest_null"; key = []; truncate_len = 0; icv_len = 0 });
  };
  use_ah = true;
}

unfoldable pub aes_encryption_strategy : EncryptionStrategy
aes_encryption_strategy = record {
  apply = λ s src dest. record s {
    crypt = some (record {
      name = "rfc3686(ctr(aes))";
      key =
          0x4 ∷ 0x5 ∷ 0x9 ∷ 0x4 ∷ 0x3 ∷ 0x6 ∷ 0x7 ∷ 0x8 ∷ 0x9 ∷ 0xa ∷ 0x4 ∷ 0x5 ∷ 0x9 ∷ 0x4 ∷ 0x3
          ∷ 0x6 ∷ 0x7 ∷ 0x8 ∷ 0x9 ∷ 0xa ∷ [];
      truncate_len = 0;
      icv_len = 0;
    });
  };
  use_esp = true;
}

unfoldable pub plaintext_encryption_strategy : EncryptionStrategy
plaintext_encryption_strategy = record {
  apply = λ s src dest. record s {
    crypt = some (record { name = "ecb(cipher_null)"; key = []; truncate_len = 0; icv_len = 0 });
  };
  use_esp = true;
}

-- `espinudp` is `netlink.XFRM_ENCAP_ESPINUDP`.
unfoldable pub udp_encapsulation_strategy : ℕ → EncapsulationStrategy
udp_encapsulation_strategy espinudp = record {
  apply = λ s src dest. record s {
    encap = some (record {
      type_of = espinudp;
      src_port = 4500;
      dst_port = 4500;
      original_address = some (ipv4 0 0 0 0);
    });
  };
}

unfoldable pub esp_encapsulation_strategy : EncapsulationStrategy
esp_encapsulation_strategy = record { apply = λ s src dest. s }
