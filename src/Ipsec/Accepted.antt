-- ===== src/Ipsec/Accepted.antt =====
-- The SPIs of the states that `EnsureCIDRs` expects, and that `XfrmStateTable.Ensure` accepts them.
use networking.Prelude.{
  Result-cases, ℕ, ◌<◌, ◌^◌, true, Option, none, some, List, [], ◌∷◌, ◌++◌, map, ok, err, fatal,
  nat_eq, string_eq, All, ◌≡◌, ◌≢◌, inl, inr, arith, refl, sym, ap, ap₂, subst, ◌∙◌, Option-cases,
}
use networking.Prelude.Dict.{Dict, lookup, insert, lookup-insert}
use networking.Net.{Ip, IpNet}
use networking.Netlink.{XfrmState}
use networking.Netutil.Xfrm.States.{index_expected_states}
use networking.Nodes.Info.{NodeInfo}
use networking.Ipsec.Numeral.{compute_node_numeral, spi}
use networking.Ipsec.Layout.{numeral_bound}
use networking.Ipsec.Distinct.{Apart, peer_spis, peer_spis-Apart}
use networking.Ipsec.States.{
  Constants, Strategies, blank_state, ah_state, esp_state, states_from, states_between, is_peer,
  expected_states,
}

-- The numbers of the nodes that the loop goes on with.
unfoldable pub numeral_of : Option IpNet → Option ℕ
numeral_of none = none
numeral_of (some cidr) = elim (compute_node_numeral cidr) [
  | ok n ↦ some n
  | err x ↦ none
  | fatal x ↦ none
]

unfoldable pub peer_numerals : NodeInfo → List NodeInfo → List ℕ
peer_numerals me [] = []
peer_numerals me (remote ∷ rest) =
    let others = peer_numerals me rest in
    elim (numeral_of (is_peer me remote)) [ none ↦ others | some n ↦ n ∷ others ]

abbrev pub spi_of : XfrmState → ℕ
spi_of s = s.spi

-- What all strategies of the program do: they are used, and leave the SPI alone.
pub record KeepsSpi (s : Strategies) : Type 0 where
  pub uses_ah : s.authentication.use_ah ≡ true
  pub uses_esp : s.encryption.use_esp ≡ true
  pub authentication_spi :
      (x : XfrmState) (a b : NodeInfo) → (s.authentication.apply x a b).spi ≡ x.spi
  pub encryption_spi : (x : XfrmState) (a b : NodeInfo) → (s.encryption.apply x a b).spi ≡ x.spi
  pub encapsulation_spi :
      (x : XfrmState) (a b : NodeInfo) → (s.encapsulation.apply x a b).spi ≡ x.spi

still_free :
    (d : Dict ℕ XfrmState) (x : XfrmState) (ks : List ℕ)
    → All (λ k. x.spi ≢ k) ks
    → All (λ k. lookup k d ≡ none) ks
    → All (λ k. lookup k (insert x.spi x d) ≡ none) ks
still_free d x [] apart free = tt
still_free d x (k ∷ ks) apart free =
    (ground (arith, lookup-insert x.spi k x d, apart.0, free.0), still_free d x ks apart.1 free.1)

-- A list of states whose SPIs are different, and not in the map yet, is accepted.
accepted_lem :
    (d : Dict ℕ XfrmState) (l : List XfrmState)
    → Apart (map spi_of l)
    → All (λ k. lookup k d ≡ none) (map spi_of l)
    → (e : Dict ℕ XfrmState) × (index_expected_states d l ≡ ok e)
unfolding index_expected_states
accepted_lem d [] apart free = (d, refl)
accepted_lem d (x ∷ l) apart free =
    let (e, run) =
      accepted_lem (insert x.spi x d) l apart.1 (still_free d x (map spi_of l) apart.0 free.1) in
    (e, ground (arith, free.0, run))

abbrev Small : List ℕ → Type 0
Small = All (λ x. x < 2 ^ 14)

none_held : (ks : List ℕ) → All (λ k. lookup {V = XfrmState} k [] ≡ none) ks
unfolding lookup
none_held [] = tt
none_held (k ∷ ks) = (refl, none_held ks)

no_peers : (me : NodeInfo) → peer_numerals me [] ≡ []
unfolding peer_numerals
no_peers me = refl

peer_numerals-none :
    (me remote : NodeInfo) (rest : List NodeInfo)
    → numeral_of (is_peer me remote) ≡ none
    → peer_numerals me (remote ∷ rest) ≡ peer_numerals me rest
unfolding peer_numerals
peer_numerals-none me remote rest h = ground (arith, h)

peer_numerals-some :
    (me remote : NodeInfo) (rest : List NodeInfo) (n : ℕ)
    → numeral_of (is_peer me remote) ≡ some n
    → peer_numerals me (remote ∷ rest) ≡ n ∷ peer_numerals me rest
unfolding peer_numerals
peer_numerals-some me remote rest n h = ground (arith, h)

blank_spi :
    (proto mode : ℕ) (src dst : Option Ip) (k : ℕ) → (blank_state proto mode src dst k).spi ≡ k
unfolding blank_state
blank_spi proto mode src dst k = refl

append_assoc : {A : Type 0} (xs ys zs : List A) → (xs ++ ys) ++ zs ≡ xs ++ (ys ++ zs)
append_assoc [] ys zs = refl
append_assoc (x ∷ xs) ys zs = ap (◌∷◌ x) (append_assoc xs ys zs)

module _ (c : Constants) (s : Strategies) (keeps : KeepsSpi s) (me : NodeInfo) (m : ℕ) where
  from_lem :
      (src : NodeInfo) (k : ℕ) (dst : NodeInfo) (n : ℕ) (l : List XfrmState)
      → map spi_of (states_from c s src k dst n ++ l) ≡ spi k n 0 ∷ spi k n 1 ∷ map spi_of l
  unfolding states_from ah_state esp_state
  from_lem src k dst n l =
      let ah = blank_state c.proto_ah c.mode_tunnel src.address dst.address (spi k n 0) in
      let esp = blank_state c.proto_esp c.mode_tunnel src.address dst.address (spi k n 1) in
      let ah_spi : (s.authentication.apply ah src dst).spi ≡ spi k n 0 =
        keeps.authentication_spi ah src dst
        ∙ blank_spi c.proto_ah c.mode_tunnel src.address dst.address (spi k n 0) in
      let esp_spi : (s.encapsulation.apply (s.encryption.apply esp src dst) src dst).spi
          ≡ spi k n 1 =
        keeps.encapsulation_spi (s.encryption.apply esp src dst) src dst
        ∙ keeps.encryption_spi esp src dst
        ∙ blank_spi c.proto_esp c.mode_tunnel src.address dst.address (spi k n 1) in
      rw (keeps.uses_ah, keeps.uses_esp) (ap₂ (λ a b. a ∷ b ∷ map spi_of l) ah_spi esp_spi)

  between_lem :
      (remote : NodeInfo) (n : ℕ) (l : List XfrmState)
      → map spi_of (states_between c s me m remote n ++ l)
        ≡ spi n m 0 ∷ spi n m 1 ∷ spi m n 0 ∷ spi m n 1 ∷ map spi_of l
  unfolding states_between
  between_lem remote n l =
      ap (map spi_of)
        (append_assoc (states_from c s remote n me m) (states_from c s me m remote n) l)
      ∙ from_lem remote n me m (states_from c s me m remote n ++ l)
      ∙ ap (λ t. spi n m 0 ∷ spi n m 1 ∷ t) (from_lem me m remote n l)

  -- The SPIs of the expected states.
  spis_lem :
      (nodes : List NodeInfo) (l : List XfrmState)
      → expected_states c s me m nodes ≡ ok l
      → map spi_of l ≡ peer_spis m (peer_numerals me nodes)
  unfolding expected_states peer_spis numeral_of
  spis_lem [] l h = ground (arith, h, no_peers me)
  spis_lem (remote ∷ rest) l h = elim (Option-cases (is_peer me remote)) [
    | inl e ↦
        let same : expected_states c s me m rest ≡ ok l = ground (arith, e, h) in
        spis_lem rest l same
        ∙ ap (peer_spis m) (sym (peer_numerals-none me remote rest (ground (arith, e))))
    | inr (cidr, e) ↦ elim (Result-cases (compute_node_numeral cidr)) [
      | inr (inl (x, f)) ↦ absurd (ground (arith, e, f, h))
      | inr (inr (x, f)) ↦ absurd (ground (arith, e, f, h))
      | inl (n, f) ↦ elim (Result-cases (expected_states c s me m rest)) [
        | inr (inl (x, g)) ↦ absurd (ground (arith, e, f, g, h))
        | inr (inr (x, g)) ↦ absurd (ground (arith, e, f, g, h))
        | inl (t, g) ↦
            let same : l ≡ states_between c s me m remote n ++ t = ground (arith, e, f, g, h) in
            ap (map spi_of) same
            ∙ between_lem remote n t
            ∙ ap (λ ks. spi n m 0 ∷ spi n m 1 ∷ spi m n 0 ∷ spi m n 1 ∷ ks) (spis_lem rest t g)
            ∙ ap (peer_spis m) (sym (peer_numerals-some me remote rest n (ground (arith, e, f))))
      ]
    ]
  ]

peer_numerals_bound :
    (me : NodeInfo) (nodes : List NodeInfo) → All (λ x. x < 2 ^ 14) (peer_numerals me nodes)
unfolding numeral_of
peer_numerals_bound me [] = subst Small (sym (no_peers me)) tt
peer_numerals_bound me (remote ∷ rest) =
    let more = peer_numerals_bound me rest in
    elim (Option-cases (is_peer me remote)) [
      | inl e ↦ subst Small (sym (peer_numerals-none me remote rest (ground (arith, e)))) more
      | inr (cidr, e) ↦ elim (Result-cases (compute_node_numeral cidr)) [
        | inr (inl (x, f)) ↦
            subst Small (sym (peer_numerals-none me remote rest (ground (arith, e, f)))) more
        | inr (inr (x, f)) ↦
            subst Small (sym (peer_numerals-none me remote rest (ground (arith, e, f)))) more
        | inl (n, f) ↦
            subst Small (sym (peer_numerals-some me remote rest n (ground (arith, e, f))))
              (numeral_bound cidr n f, more)
      ]
    ]

-- For strategies that are used and leave the SPI alone, as all of the program's do: if the numbers
-- of the local node and of the nodes that it has tunnels with are all different, the list of states
-- that `EnsureCIDRs` computes has no SPI twice, and `XfrmStateTable.Ensure`, which ends the process
-- over a second state of one SPI, accepts it.
pub expected_states-accepted :
    (c : Constants) (s : Strategies)
    → KeepsSpi s
    → (me : NodeInfo) (here : IpNet) (m : ℕ) (nodes : List NodeInfo) (l : List XfrmState)
    → compute_node_numeral here ≡ ok m
    → expected_states c s me m nodes ≡ ok l
    → Apart (m ∷ peer_numerals me nodes)
    → Apart (map spi_of l) × ((e : Dict ℕ XfrmState) × (index_expected_states [] l ≡ ok e))
expected_states-accepted c s keeps me here m nodes l own computed apart =
    let spis = spis_lem c s keeps me m nodes l computed in
    let distinct = subst Apart (sym spis) (
      peer_spis-Apart m (peer_numerals me nodes) (numeral_bound here m own)
        (peer_numerals_bound me nodes) apart) in
    (distinct, accepted_lem [] l distinct (none_held (map spi_of l)))
