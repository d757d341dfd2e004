-- ===== src/Vxlan/Monitor.antt =====
-- `NetlinkMonitor` of pkg/routing/vxlan/netlink_monitor.go. The socket and the decoding of a message
-- are of github.com/vishvananda/netlink; what the socket gives, one time after the other, is a list.
pub mod Start
pub mod Answers
use Prim.Native.Nat.{bit_and}
use networking.Prelude.{
  ℕ, Bool, true, false, not, ◌||◌, Option, none, some, List, [], ◌∷◌, Exec, Result, ok, err, fatal,
  Error, pure, ◌>>=◌, if◌then◌else◌, ◌==◌, nat_eq, ◌≡◌, ◌⊎◌, arith, refl, Option-cases, inl, inr,
}
use networking.Net.{Ip, to4, ipv4, byte_at, is_v4_mapped, bytes_equal}
use networking.Netlink.{Neigh, NeighCalls, NeighConstants}
use networking.Vxlan.{map_to_mac}

-- `syscall.NetlinkMessage`: the type of its header, and its data.
pub record Message : Type 0 where
  pub type_of : ℕ
  pub payload : List ℕ

-- What `Receive` returns.
pub data Received : Type 0 where
  messages : List Message → Received
  unreadable : Error → Received

module _ {W : Type 0} (neighs : NeighCalls W) (constants : NeighConstants)
    (deserialize : List ℕ → Option Neigh) (link_index : ℕ) where
  -- The entry that is set for an address without one. The code leaves the family to the library.
  unfoldable pub reply_to : Ip → List ℕ → Neigh
  reply_to ip4 mac = record {
    link_index = link_index;
    family = 0;
    state = constants.nud_reachable;
    type_of = 1;
    flags = 0;
    ip = some ip4;
    hardware_addr = mac;
  }

  -- From `neigh.IP.To4()` on.
  unfoldable pub reply_for : Ip → Result (Option Neigh)
  reply_for ip = elim (to4 ip) [
    | none ↦ ok none
    | some ip4 ↦ elim (map_to_mac (ipv4 (byte_at 0 ip4) (byte_at 1 ip4) (byte_at 2 ip4) 0)) [
      | ok mac ↦ ok (some (reply_to ip4 mac))
      | err x ↦ err x
      | fatal x ↦ fatal x
    ]
  ]

  -- `neigh.HardwareAddr != nil || neigh.IP == nil`
  unfoldable pub reply_missing : Neigh → Result (Option Neigh)
  reply_missing neigh = elim neigh.ip [
    | none ↦ ok none
    | some ip ↦
        let found = reply_for ip in if bytes_equal neigh.hardware_addr [] then found else ok none
  ]

  -- The guards of the loop's body, with their `continue`s: RTM_GETNEIGH is 30, RTM_NEWNEIGH 28.
  unfoldable pub reply_guarded : ℕ → Neigh → Result (Option Neigh)
  reply_guarded type_of neigh =
      let wanted = reply_missing neigh in
      if not (neigh.link_index == link_index)
      then ok none
      else if not (type_of == 30 || type_of == 28)
      then ok none
      else if not (bit_and neigh.state constants.nud_reachable == 0)
      then ok none
      else wanted

  unfoldable pub reply : Message → Result (Option Neigh)
  reply message = elim (deserialize message.payload) [
    | none ↦ ok none
    | some neigh ↦ reply_guarded message.type_of neigh
  ]

  -- `netlink.NeighSet`, whose error is only logged.
  unfoldable pub set_reply : Neigh → Exec W Unit
  set_reply neigh w =
      let (r, w') = neighs.neigh_set neigh w in
      elim r [ ok u ↦ (ok tt, w') | err x ↦ (ok tt, w') | fatal x ↦ (fatal x, w') ]

  unfoldable pub handle : Message → Exec W Unit
  handle message w = elim (reply message) [
    | ok none ↦ (ok tt, w)
    | ok (some neigh) ↦ set_reply neigh w
    | err x ↦ (err x, w)
    | fatal x ↦ (fatal x, w)
  ]

  unfoldable pub handle_all : List Message → Exec W Unit
  handle_all [] = pure tt
  handle_all (m ∷ ms) = handle m >>= λ _. handle_all ms

  -- `watch`, over what `Receive` returns.
  unfoldable pub watch : List Received → Exec W Unit
  watch [] = pure tt
  watch (unreadable x ∷ rest) = watch rest
  watch (messages ms ∷ rest) = handle_all ms >>= λ _. watch rest

  -- A valid network address: every byte of it is known.
  ipv4-to4 : (a b c d : ℕ) → to4 (ipv4 a b c d) ≡ some (a ∷ b ∷ c ∷ d ∷ [])
  unfolding to4 ipv4 is_v4_mapped bytes_equal
  ipv4-to4 a b c d = refl

  pub mac_of : (a b c d : ℕ) → map_to_mac (ipv4 a b c d) ≡ ok (0x00 ∷ 0x53 ∷ a ∷ b ∷ c ∷ d ∷ [])
  unfolding map_to_mac byte_at
  mac_of a b c d = rw (ipv4-to4 a b c d, map_to_mac) refl
