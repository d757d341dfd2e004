-- ===== src/Nodes/Info/Update.antt =====
-- What `update` of pkg/routing/nodes.go reports, and what it leaves behind.
use networking.Prelude.{
  Bool, true, false, ◌||◌, Option, none, some, List, [], ◌∷◌, String, if◌then◌else◌, ◌==◌,
  string_eq, ◌≡◌, ◌≢◌, ◌↔◌, arith, refl, is_some, length,
}
use networking.Net.{Ip, IpNet, equal, equal_nilable, bytes_equal}
use networking.Net.Equality.{bytes_equal_iff, equal_iff, canonical}
use networking.Nodes.{
  NodeCondition, network_unavailable, other_condition, condition_true, condition_false,
  condition_unknown, other_status, Node, Parsers,
}
use networking.Nodes.Info.{
  NodeInfo, cidr_differs, update_cidr, internal_ips, arrange, update_address, available_after,
  availability, update_available, bool_differs, update,
}

-- The network that the API object asks for.
pub wanted_cidr : Parsers → Node → Option IpNet
wanted_cidr net src = if src.pod_cidr == "" then none else net.parse_cidr src.pod_cidr

pub first_parsed : Parsers → List String → Option Ip
first_parsed net [] = none
first_parsed net (ip ∷ ips) = net.parse_ip ip

-- The address that the API object asks for.
pub wanted_address : Parsers → Node → Option Ip
wanted_address net src = first_parsed net (arrange (internal_ips src.addresses))

-- The verdict of the last condition that gives one.
pub last_verdict : List NodeCondition → Option Bool
last_verdict [] = none
last_verdict (c ∷ rest) = elim (last_verdict rest) [
  | some b ↦ some b
  | none ↦ elim c.type_of [
    | network_unavailable ↦ elim c.status [
      | condition_false ↦ some true
      | condition_true ↦ some false
      | condition_unknown ↦ none
      | other_status s ↦ none
    ]
    | other_condition t ↦ none
  ]
]

pub or_available : Option Bool → Bool
or_available none = true
or_available (some b) = b

-- Two networks, or none twice, that stand for one network.
abbrev pub SameCidr : Option IpNet → Option IpNet → Type 0
SameCidr none none = Unit
SameCidr (some a) (some b) = (canonical a.ip ≡ canonical b.ip) × (a.mask ≡ b.mask)
SameCidr _ _ = ⊥

abbrev pub SameAddress : Option Ip → Option Ip → Type 0
SameAddress none none = Unit
SameAddress (some a) (some b) = canonical a ≡ canonical b
SameAddress _ _ = ⊥

-- `n` is what the API object asks for.
pub record Reflects (net : Parsers) (src : Node) (n : NodeInfo) : Type 0 where
  pub cidr : SameCidr n.pod_cidr (wanted_cidr net src)
  pub address : SameAddress n.address (wanted_address net src)
  pub available : n.network_available ≡ or_available (last_verdict src.conditions)

bytes_equal_refl : (xs : List _) → bytes_equal xs xs ≡ true
bytes_equal_refl xs = (bytes_equal_iff xs xs).1 refl

equal_refl : (a : Ip) → equal a a ≡ true
equal_refl a = (equal_iff a a).1 refl

-- An address with bytes is not equal to nil.
equal_none : (a : Ip) → length a ≡ 16 → equal [] a ≡ false
unfolding equal
equal_none a h = ground arith

-- What each part of `update` makes of its field, and whether that is a change.
new_cidr : Option IpNet → Option IpNet → Option IpNet × Bool
new_cidr old none = (none, is_some old)
new_cidr old (some a) = if cidr_differs old a then (some a, true) else (old, false)

new_address : Option Ip → Option Ip → Option Ip × Bool
new_address old none = (none, is_some old)
new_address old (some a) = if equal_nilable old (some a) then (old, false) else (some a, true)

available_after_lem :
    (cs : List NodeCondition) (b : Bool)
    → available_after cs b ≡ elim (last_verdict cs) [ none ↦ b | some v ↦ v ]
unfolding available_after last_verdict
available_after_lem [] b = refl
available_after_lem (c ∷ cs) b = ground (arith, available_after_lem cs (availability c b))

new_available : Bool → Node → Bool × Bool
new_available old src =
    let b = or_available (last_verdict src.conditions) in (b, bool_differs b old)

module _ (net : Parsers) (n : NodeInfo) (src : Node) where
  update_cidr_lem : update_cidr net n src ≡ (
      let (c, changed) = new_cidr n.pod_cidr (wanted_cidr net src) in
      (record n { pod_cidr = c }, changed))
  unfolding update_cidr wanted_cidr new_cidr
  update_cidr_lem = ground arith

  update_address_lem : update_address net n src ≡ (
      let (a, changed) = new_address n.address (wanted_address net src) in
      (record n { address = a }, changed))
  unfolding update_address wanted_address first_parsed new_address
  update_address_lem = ground arith

  update_available_lem : update_available n src ≡ (
      let (b, changed) = new_available n.network_available src in
      (record n { network_available = b }, changed))
  unfolding update_available new_available or_available bool_differs
  update_available_lem = ground (arith, available_after_lem src.conditions true)

new_cidr_changed : (old o : Option IpNet) → ((new_cidr old o).1 ≡ true) ↔ ((new_cidr old o).0 ≢ old)
unfolding new_cidr cidr_differs
new_cidr_changed old none = ground arith
new_cidr_changed none (some a) = ground arith
new_cidr_changed (some old) (some a) = ground (arith, equal_refl a.ip, bytes_equal_refl a.mask)

new_cidr_same : (old o : Option IpNet) → SameCidr (new_cidr old o).0 o
unfolding new_cidr cidr_differs
new_cidr_same old none = tt
new_cidr_same none (some a) = ground arith
new_cidr_same (some old) (some a) =
    ground (arith, equal_iff a.ip old.ip, bytes_equal_iff old.mask a.mask)

new_cidr_again :
    (old o : Option IpNet) → new_cidr (new_cidr old o).0 o ≡ ((new_cidr old o).0, false)
unfolding new_cidr cidr_differs
new_cidr_again old none = refl
new_cidr_again none (some a) = ground (arith, equal_refl a.ip, bytes_equal_refl a.mask)
new_cidr_again (some old) (some a) = ground (arith, equal_refl a.ip, bytes_equal_refl a.mask)

new_address_changed :
    (old o : Option Ip) → ((new_address old o).1 ≡ true) ↔ ((new_address old o).0 ≢ old)
unfolding new_address equal_nilable
new_address_changed old none = ground arith
new_address_changed old (some a) = ground (arith, equal_refl a)

new_address_again :
    (old o : Option Ip) → new_address (new_address old o).0 o ≡ ((new_address old o).0, false)
unfolding new_address equal_nilable
new_address_again old none = refl
new_address_again old (some a) = ground (arith, equal_refl a)

-- A parsed address has bytes, so nil is not taken for it.
new_address_same :
    (old o : Option Ip)
    → ((a : Ip) → o ≡ some a → length a ≡ 16)
    → SameAddress (new_address old o).0 o
unfolding new_address equal_nilable
new_address_same old none h = tt
new_address_same none (some a) h = ground (arith, h a refl, equal_none a)
new_address_same (some old) (some a) h = ground (arith, equal_iff old a)

new_available_changed :
    (old : Bool) (src : Node)
    → ((new_available old src).1 ≡ true) ↔ ((new_available old src).0 ≢ old)
unfolding new_available bool_differs
new_available_changed old src = ground arith

new_available_again :
    (old : Bool) (src : Node)
    → new_available (new_available old src).0 src ≡ ((new_available old src).0, false)
unfolding new_available bool_differs
new_available_again old src = ground arith

new_cidr_quiet : (old o : Option IpNet) → (new_cidr old o).1 ≡ false → (new_cidr old o).0 ≡ old
unfolding new_cidr
new_cidr_quiet old none = ground arith
new_cidr_quiet old (some a) = ground arith

new_address_quiet :
    (old o : Option Ip) → (new_address old o).1 ≡ false → (new_address old o).0 ≡ old
unfolding new_address
new_address_quiet old none = ground arith
new_address_quiet old (some a) = ground arith

new_available_quiet :
    (old : Bool) (src : Node) → (new_available old src).1 ≡ false → (new_available old src).0 ≡ old
unfolding new_available bool_differs
new_available_quiet old src = ground arith

module _ (net : Parsers) (src : Node) where
  -- `update` as an assignment to the three fields.
  update_lem :
      (n : NodeInfo)
      → update net n src ≡ (
          let (c, c1) = new_cidr n.pod_cidr (wanted_cidr net src) in
          let (a, c2) = new_address n.address (wanted_address net src) in
          let (b, c3) = new_available n.network_available src in
          (record n { pod_cidr = c; address = a; network_available = b }, c1 || c2 || c3))
  unfolding update
  update_lem n = rw update_cidr_lem (rw update_address_lem (rw update_available_lem))

  -- `update` reports a change exactly if it changes the record.
  pub update_changed_iff :
      (n : NodeInfo) → ((update net n src).1 ≡ true) ↔ ((update net n src).0 ≢ n)
  update_changed_iff n = rw (update_lem n) (
      ground (
        arith,
        new_cidr_changed n.pod_cidr (wanted_cidr net src),
        new_address_changed n.address (wanted_address net src),
        new_available_changed n.network_available src,
      ))

  -- A second `update` from the same API object finds nothing to do.
  pub update-update :
      (n : NodeInfo) → update net (update net n src).0 src ≡ ((update net n src).0, false)
  update-update n = rw (update_lem (update net n src).0) (
      rw (update_lem n) (
        ground (
          arith,
          new_cidr_again n.pod_cidr (wanted_cidr net src),
          new_address_again n.address (wanted_address net src),
          new_available_again n.network_available src,
        )))

  wanted_address_long :
      ((s : String) (a : Ip) → net.parse_ip s ≡ some a → length a ≡ 16)
      → (a : Ip) → wanted_address net src ≡ some a
      → length a ≡ 16
  unfolding wanted_address first_parsed
  wanted_address_long h a e = go (arrange (internal_ips src.addresses)) e
    where
      go : (ips : List String) → first_parsed net ips ≡ some a → length a ≡ 16
      go [] p = cc p
      go (ip ∷ ips) p = h ip a p

  -- Go's `ParseIP` returns sixteen bytes. Under that, `update` leaves the record as the API object
  -- asks, whatever was in it: its network is the parsed one or nil, its address the first internal
  -- one in order or nil, both up to the form that `Equal` looks through, and it is available unless
  -- the last condition with a verdict says otherwise.
  pub update-Reflects :
      ((s : String) (a : Ip) → net.parse_ip s ≡ some a → length a ≡ 16)
      → (n : NodeInfo) → Reflects net src (update net n src).0
  update-Reflects h n = rw (update_lem n) (record {
    cidr = new_cidr_same n.pod_cidr (wanted_cidr net src);
    address = new_address_same n.address (wanted_address net src) (wanted_address_long h);
    available = unfold new_available in refl;
  })

  -- `update` leaves the name.
  pub name-update : (n : NodeInfo) → (update net n src).0.name ≡ n.name
  name-update n = rw (update_lem n)

  pub update_quiet : (n : NodeInfo) → (update net n src).1 ≡ false → (update net n src).0 ≡ n
  update_quiet n = rw (update_lem n) (
      ground (
        arith,
        new_cidr_quiet n.pod_cidr (wanted_cidr net src),
        new_address_quiet n.address (wanted_address net src),
        new_available_quiet n.network_available src,
      ))
