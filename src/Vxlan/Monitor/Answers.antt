-- ===== src/Vxlan/Monitor/Answers.antt =====
-- Which messages the loop of pkg/routing/vxlan/netlink_monitor.go answers, and how.
use Prim.Native.Nat.{bit_and}
use networking.Prelude.{
  ℕ, Bool, true, ◌||◌, ◌&&◌, Option, none, some, List, [], ◌∷◌, ok, err, Error, if◌then◌else◌, ◌==◌,
  nat_eq, ◌≡◌, ◌≢◌, ◌⊎◌, arith, refl, Option-cases, Bool-cases, inl, inr,
}
use networking.Net.{Ip, to4, ipv4, byte_at, bytes_equal}
use networking.Net.Equality.{bytes_equal_iff}
use networking.Netlink.{Neigh, NeighCalls, NeighConstants}
use networking.Vxlan.{map_to_mac}
use networking.Vxlan.Monitor.{
  Message, reply_to, reply_for, reply_missing, reply_guarded, reply, set_reply, handle, mac_of,
}

module _ (constants : NeighConstants) (deserialize : List ℕ → Option Neigh) (link_index : ℕ) where
  -- A message of an entry of the monitor's device, one that is asked for or new, which is not
  -- reachable and has no hardware address but an IPv4 address.
  abbrev pub Asks : Message → Neigh → Ip → Ip → Type 0
  Asks message neigh ip ip4 =
      (deserialize message.payload ≡ some neigh)
      × (neigh.link_index ≡ link_index)
      × ((message.type_of ≡ 30) ⊎ (message.type_of ≡ 28))
      × (bit_and neigh.state constants.nud_reachable ≡ 0)
      × (neigh.hardware_addr ≡ [])
      × (neigh.ip ≡ some ip)
      × (to4 ip ≡ some ip4)

module _ (constants : NeighConstants) (link_index : ℕ) where
  -- The entry of an address: reachable on the device, and with the hardware address that the
  -- providers give to the network of 24 bits that the address is of.
  abbrev pub Answers : Ip → Neigh → Type 0
  Answers ip4 n =
      (n.link_index ≡ link_index)
      × (n.state ≡ constants.nud_reachable)
      × (n.type_of ≡ 1)
      × (n.ip ≡ some ip4)
      × (n.hardware_addr ≡ 0x00 ∷ 0x53 ∷ byte_at 0 ip4 ∷ byte_at 1 ip4 ∷ byte_at 2 ip4 ∷ 0 ∷ [])
      × (map_to_mac (ipv4 (byte_at 0 ip4) (byte_at 1 ip4) (byte_at 2 ip4) 0) ≡ ok n.hardware_addr)

module _ {W : Type 0} (neighs : NeighCalls W) (constants : NeighConstants)
    (deserialize : List ℕ → Option Neigh) (link_index : ℕ) where
  -- What is made of a message: an answer, or nothing.
  abbrev Sorted : Message → Type 0
  Sorted message =
      ((neigh : Neigh) × (ip : Ip) × (ip4 : Ip) × Asks constants deserialize link_index message
          neigh ip ip4
        × (n : Neigh) × Answers constants link_index ip4 n
        × (reply neighs constants deserialize link_index message ≡ ok (some n)))
      ⊎ (((neigh : Neigh) (ip ip4 : Ip)
            → ¬ Asks constants deserialize link_index message neigh ip ip4)
          × (reply neighs constants deserialize link_index message ≡ ok none))

  -- The three guards on the entry and the message.
  is_open : Message → Neigh → Bool
  is_open message neigh =
      neigh.link_index == link_index
      && (message.type_of == 30 || message.type_of == 28)
      && bit_and neigh.state constants.nud_reachable == 0

  guarded :
      (message : Message) (neigh : Neigh)
      → reply_guarded neighs constants deserialize link_index message.type_of neigh ≡ (
          if is_open message neigh
          then reply_missing neighs constants deserialize link_index neigh
          else ok none)
  unfolding reply_guarded is_open
  guarded message neigh = ground arith

  open-Sorted :
      (message : Message) (neigh : Neigh)
      → deserialize message.payload ≡ some neigh
      → is_open message neigh ≡ true
      → Sorted message
  unfolding reply reply_missing reply_for reply_to is_open bytes_equal
  open-Sorted message neigh e q = elim (Option-cases neigh.ip) [
    | inl a ↦ inr (
      λ n ip ip4 (d, own, kind, bit, bare, asked, four). ground (arith, e, d, a, asked),
      ground (arith, e, guarded message neigh, q, a),
    )
    | inr (ip, a) ↦ elim (Option-cases (to4 ip)) [
      | inl f ↦ inr (
        λ n ip' ip4 (d, own, kind, bit, bare, asked, four). ground (arith, e, d, a, asked, f, four),
        ground (arith, e, guarded message neigh, q, a, f),
      )
      | inr (ip4, f) ↦ elim (Bool-cases (bytes_equal neigh.hardware_addr [])) [
        | inr b ↦ inr (
          λ n ip' ip4' (d, own, kind, bit, bare, asked, four). ground (arith, e, d, b, bare),
          ground (arith, e, guarded message neigh, q, a, f, b),
        )
        | inl b ↦
            let mac : List ℕ =
              0x00 ∷ 0x53 ∷ byte_at 0 ip4 ∷ byte_at 1 ip4 ∷ byte_at 2 ip4 ∷ 0 ∷ [] in
            let mine =
              mac_of neighs constants deserialize link_index (byte_at 0 ip4) (byte_at 1 ip4)
                (byte_at 2 ip4) 0 in
            let bare = (bytes_equal_iff neigh.hardware_addr []).0 b in
            inl (
              neigh,
              ip,
              ip4,
              ground (arith, e, q, a, f, bare),
              reply_to neighs constants deserialize link_index ip4 mac,
              (refl, refl, refl, refl, refl, mine),
              ground (arith, e, guarded message neigh, q, a, f, b, mine),
            )
      ]
    ]
  ]

  known-Sorted :
      (message : Message) (neigh : Neigh)
      → deserialize message.payload ≡ some neigh
      → Sorted message
  unfolding reply is_open
  known-Sorted message neigh e = elim (Bool-cases (is_open message neigh)) [
    | inr q ↦ inr (
      λ n ip ip4 (d, own, kind, bit, bare, asked, four). ground (arith, e, d, q, own, kind, bit),
      ground (arith, e, guarded message neigh, q),
    )
    | inl q ↦ open-Sorted message neigh e q
  ]

  reply-Sorted : (message : Message) → Sorted message
  unfolding reply
  reply-Sorted message = elim (Option-cases (deserialize message.payload)) [
    | inl e ↦
        inr (
          λ n ip ip4 (d, own, kind, bit, bare, asked, four). ground (arith, e, d),
          ground (arith, e),
        )
    | inr (neigh, e) ↦ known-Sorted message neigh e
  ]

  -- Every message is one of two kinds. If it is of an entry of the monitor's device that is asked for
  -- or new (types 30 and 28), not reachable and without a hardware address, but with an IPv4 address,
  -- then it is answered: `handle` sets an entry for that address on that device, reachable and with
  -- the hardware address that the providers give to the address's network of 24 bits, and it does
  -- not fail if that cannot be set. If not, `handle` does nothing.
  pub handle_lem :
      (message : Message) (w : W)
      → ((neigh : Neigh) × (ip : Ip) × (ip4 : Ip) × Asks constants deserialize link_index message
            neigh ip ip4
          × (n : Neigh) × Answers constants link_index ip4 n
          × ((handle neighs constants deserialize link_index message w).1
              ≡ (neighs.neigh_set n w).1)
          × ((x : Error) → (handle neighs constants deserialize link_index message w).0 ≢ err x))
        ⊎ (((neigh : Neigh) (ip ip4 : Ip)
              → ¬ Asks constants deserialize link_index message neigh ip ip4)
            × (handle neighs constants deserialize link_index message w ≡ (ok tt, w)))
  unfolding handle set_reply
  handle_lem message w = elim (reply-Sorted message) [
    | inr (quiet, none_made) ↦ inr (quiet, ground (arith, none_made))
    | inl (neigh, ip, ip4, asks, n, answers, made) ↦
        inl (neigh, ip, ip4, asks, n, answers, ground (arith, made), λ x h. ground (arith, made, h))
  ]
