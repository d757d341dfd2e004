-- ===== src/Ipsec/Listener.antt =====
-- `UDPEncapListener` of pkg/routing/ipsec/esp_listener.go, and the constructor, `Close` and
-- `doModprobe` of pkg/routing/ipsec/ipsecrouting.go. The calls of the system are parameters.
use networking.Prelude.{
  ℕ, Bool, true, Option, none, some, List, [], ◌∷◌, String, Exec, Result, ok, err, fatal, ◌>>=◌,
  ◌>>◌, pure, context, for_each, if◌then◌else◌, ◌==◌, nat_eq, ◌≡◌,
}
use networking.Netutil.Frame.{Keeps, bind-Keeps, context-Keeps}
use networking.Ipsec.Socket.{SadbXPolicy, encode}
use networking.Ipsec.States.{Strategies}

pub record UdpEncapListener : Type 0 where
  pub fd : ℕ

-- `syscall.Socket`, `SetsockoptString` with IP_IPSEC_POLICY, `SetsockoptInt` with UDP_ENCAP, `Bind` to
-- a port and `Close`; and the output of /sbin/modprobe for a module.
pub record SystemCalls (W : Type 0) : Type 0 where
  pub socket : Exec W ℕ
  pub set_policy : ℕ → List ℕ → Exec W Unit
  pub set_udp_encap : ℕ → ℕ → Exec W Unit
  pub bind : ℕ → ℕ → Exec W Unit
  pub close_fd : ℕ → Exec W Unit
  pub modprobe : String → Exec W String

-- SADB_X_EXT_POLICY is 18, IPSEC_POLICY_BYPASS 4, and the directions inbound and outbound 1 and 2.
unfoldable pub bypass : ℕ → SadbXPolicy
bypass direction = record {
  ext_type = 18;
  type_of = 4;
  direction = direction;
  reserved = 0;
  policy_id = 0;
  policy_priority = 0;
}

module _ {W : Type 0} (system : SystemCalls W) where
  abbrev pub bypass_outbound : ℕ → Exec W Unit
  bypass_outbound fd =
      context "error setting IP_IPSEC_POLICY socket option (outbound)"
        (system.set_policy fd (encode (bypass 2)))

  abbrev pub bypass_inbound : ℕ → Exec W Unit
  bypass_inbound fd =
      context "error setting IP_IPSEC_POLICY socket option (inbound)"
        (system.set_policy fd (encode (bypass 1)))

  -- UDP_ENCAP_ESPINUDP is 2.
  abbrev pub encapsulate : ℕ → Exec W Unit
  encapsulate fd =
      context "error setting UDP_ENCAP=UDP_ENCAP_ESPINUDP socket option" (system.set_udp_encap fd 2)

  abbrev pub bind_to : ℕ → ℕ → Exec W Unit
  bind_to port fd = context "error binding socket" (system.bind fd port)

  -- What is done with the socket.
  unfoldable pub prepare : ℕ → ℕ → Exec W Unit
  prepare port fd = do bypass_outbound fd; bypass_inbound fd; encapsulate fd; bind_to port fd

  -- `NewUDPEncapListener`
  unfoldable pub new_udp_encap_listener : ℕ → Exec W UdpEncapListener
  new_udp_encap_listener port = do
    fd ← context "error creating socket" system.socket
    prepare port fd
    pure (record { fd = fd })

  -- `Close`, with the listener as it leaves it.
  unfoldable pub close_listener : UdpEncapListener → W → Result {0} Unit × UdpEncapListener × W
  close_listener l w =
      let (r, w') = context "error closing socket" (system.close_fd l.fd) w in
      if l.fd == 0 then (ok tt, l, w) else elim r [
        | ok u ↦ (ok tt, record { fd = 0 }, w')
        | err x ↦ (err x, l, w')
        | fatal x ↦ (fatal x, l, w')
      ]

  -- `doModprobe`
  unfoldable pub do_modprobe : Exec W Unit
  do_modprobe =
      for_each (λ name. context "modprobe failed" (system.modprobe name) >>= λ text. pure tt)
        ("af_key" ∷ "ah4" ∷ "ipcomp" ∷ "xfrm4_tunnel" ∷ [])

-- `IpsecRoutingProvider`; its tables have no state.
pub record IpsecRoutingProvider : Type 0 where
  pub strategies : Strategies
  pub udp_encap_listener : Option UdpEncapListener
  pub last_version_applied : ℕ

module _ {W : Type 0} (system : SystemCalls W) where
  -- `NewIpsecRoutingProvider`
  unfoldable pub new_ipsec_routing_provider : Strategies → Exec W IpsecRoutingProvider
  new_ipsec_routing_provider s = do
    do_modprobe system
    l ←
        context "error creating UDP encapsulation listener on port"
          (new_udp_encap_listener system 4500)
    pure (record { strategies = s; udp_encap_listener = some l; last_version_applied = 0 })

  -- `Close`
  unfoldable pub close_provider :
      IpsecRoutingProvider → W → Result {0} Unit × IpsecRoutingProvider × W
  close_provider p w = elim p.udp_encap_listener [
    | none ↦ (ok tt, p, w)
    | some l ↦
        let (r, l', w') = close_listener system l w in
        elim r [
          | ok u ↦ (ok tt, record p { udp_encap_listener = none }, w')
          | err x ↦ (err x, record p { udp_encap_listener = some l' }, w')
          | fatal x ↦ (fatal x, record p { udp_encap_listener = some l' }, w')
        ]
  ]

module _ {W : Type 0} (system : SystemCalls W) (is_open : W → ℕ → Bool) where
  -- The calls that prepare a socket leave it open.
  pub record Leaves (fd : ℕ) : Type 0 where
    pub policy_set :
        (bytes : List ℕ) → Keeps (λ w. is_open w fd ≡ true) (system.set_policy fd bytes)
    pub encap_set : (n : ℕ) → Keeps (λ w. is_open w fd ≡ true) (system.set_udp_encap fd n)
    pub bound : (port : ℕ) → Keeps (λ w. is_open w fd ≡ true) (system.bind fd port)

  prepare-Keeps :
      (port fd : ℕ) → Leaves fd → Keeps (λ w. is_open w fd ≡ true) (prepare system port fd)
  unfolding prepare
  prepare-Keeps port fd h =
      let Open : W → Type 0 = λ w. is_open w fd ≡ true in
      let out = bypass_outbound system fd in
      let into = bypass_inbound system fd in
      let encap = encapsulate system fd in
      let to_port = bind_to system port fd in
      bind-Keeps Open out (λ u. into >> (encap >> to_port))
        (context-Keeps Open _ (system.set_policy fd (encode (bypass 2))) (h.policy_set _))
        (λ u.
          bind-Keeps Open into (λ u. encap >> to_port)
            (context-Keeps Open _ (system.set_policy fd (encode (bypass 1))) (h.policy_set _))
            (λ u.
              bind-Keeps Open encap (λ u. to_port)
                (context-Keeps Open _ (system.set_udp_encap fd 2) (h.encap_set 2))
                (λ u. context-Keeps Open _ (system.bind fd port) (h.bound port))))

  -- Once the socket has been made it stays open, also where `NewUDPEncapListener` fails after that
  -- and so returns no listener that could be closed.
  pub new_udp_encap_listener_open :
      (port fd : ℕ) (w w' : W)
      → system.socket w ≡ (ok fd, w')
      → is_open w' fd ≡ true
      → Leaves fd
      → is_open (new_udp_encap_listener system port w).1 fd ≡ true
  unfolding new_udp_encap_listener
  new_udp_encap_listener_open port fd w w' made opened h = rw made (
      bind-Keeps (λ v. is_open v fd ≡ true) (prepare system port fd)
        (λ u. pure (record { fd = fd })) (prepare-Keeps port fd h) (λ u v k. k) w' opened)
