-- ===== src/Netutil/Xfrm/Equality.antt =====
-- The comparisons of pkg/routing/netutil/xfrm_policy_table.go and xfrm_state_table.go.
use networking.Prelude.{
  ℕ, Bool, true, false, not, Option, none, some, if◌then◌else◌, ◌==◌, nat_eq, string_eq, ◌≡◌, ◌↔◌,
  arith, refl,
}
use networking.Net.{Ip, equal_nilable, bytes}
use networking.Net.Equality.{canonical, equal_iff, bytes_equal_iff}
use networking.Netlink.{XfrmMark, XfrmStateAlgo, XfrmStateEncap, XfrmStateLimits, XfrmState}
use networking.Netutil.Xfrm.{
  xfrm_mark_equal, xfrm_state_algo_equal, xfrm_state_encap_equal, limits_equal, xfrm_state_equal,
}

-- An address that may be nil, as `Equal` sees it: nil has no bytes.
abbrev pub seen_ip : Option Ip → Option Ip
seen_ip o = some (canonical (bytes o))

abbrev pub seen_encap : Option XfrmStateEncap → Option XfrmStateEncap
seen_encap none = none
seen_encap (some n) = some (record n { original_address = seen_ip n.original_address })

-- A state with its addresses in canonical form, and without what the code does not compare: its
-- statistics, output mark, interface and extended sequence numbers.
abbrev pub seen_state : XfrmState → XfrmState
seen_state s = record s {
  dst = seen_ip s.dst;
  src = seen_ip s.src;
  encap = seen_encap s.encap;
  statistics = record { replay_window = 0; replay = 0; failed = 0; add_time = 0; use_time = 0 };
  output_mark = 0;
  ifid = 0;
  esn = false;
}

pub seen_iff : (a e : Option Ip) → (equal_nilable a e ≡ true) ↔ (seen_ip a ≡ seen_ip e)
unfolding equal_nilable
seen_iff a e = ground (arith, equal_iff (bytes a) (bytes e))

mark_iff : (l r : Option XfrmMark) → (xfrm_mark_equal l r ≡ true) ↔ (l ≡ r)
unfolding xfrm_mark_equal
mark_iff none none = ground arith
mark_iff none (some r) = ground arith
mark_iff (some l) none = ground arith
mark_iff (some l) (some r) = ground arith

algo_iff : (l r : Option XfrmStateAlgo) → (xfrm_state_algo_equal l r ≡ true) ↔ (l ≡ r)
unfolding xfrm_state_algo_equal
algo_iff none none = ground arith
algo_iff none (some r) = ground arith
algo_iff (some l) none = ground arith
algo_iff (some l) (some r) =
    ground (arith, bytes_equal_iff l.key r.key, string_eq.same_iff l.name r.name)

encap_iff :
    (l r : Option XfrmStateEncap)
    → (xfrm_state_encap_equal l r ≡ true) ↔ (seen_encap l ≡ seen_encap r)
unfolding xfrm_state_encap_equal
encap_iff none none = ground arith
encap_iff none (some r) = ground arith
encap_iff (some l) none = ground arith
encap_iff (some l) (some r) = ground (arith, seen_iff l.original_address r.original_address)

limits_iff : (l r : XfrmStateLimits) → (limits_equal l r ≡ true) ↔ (l ≡ r)
unfolding limits_equal
limits_iff l r = ground arith

-- A test that returns false early, and what follows it.
guard_iff :
    (b c : Bool) {P Q : Type 0}
    → (b ≡ true) ↔ P
    → (c ≡ true) ↔ Q
    → ((if not b then false else c) ≡ true) ↔ (P × Q)
guard_iff true c p q = (λ h. (p.0 refl, q.0 h), λ h. q.1 h.1)
guard_iff false c p q = (λ h. cc, λ h. cc (p.1 h.0))

guard_nat :
    (m n : ℕ) (c : Bool) {Q : Type 0}
    → (c ≡ true) ↔ Q
    → ((if not (m == n) then false else c) ≡ true) ↔ ((m ≡ n) × Q)
guard_nat m n c q = guard_iff (m == n) c (nat_eq.same_iff m n) q

end_iff : {P : Type 0} (b : Bool) → (b ≡ true) ↔ P → ((if not b then false else true) ≡ true) ↔ P
end_iff true p = (λ h. p.0 refl, λ h. refl)
end_iff false p = p

-- `xfrmStateEqual` tells exactly whether two states agree, with each address in canonical form, in
-- everything but the fields that it leaves out: Statistics, OutputMark, Ifid and ESN.
pub xfrm_state_equal_iff :
    (l r : XfrmState) → (xfrm_state_equal l r ≡ true) ↔ (seen_state l ≡ seen_state r)
unfolding xfrm_state_equal
xfrm_state_equal_iff l r =
    let fields = guard_nat l.proto r.proto _ (
      guard_nat l.mode r.mode _ (
        guard_nat l.spi r.spi _ (
          guard_nat l.reqid r.reqid _ (
            guard_nat l.replay_window r.replay_window _ (
              guard_iff _ _ (seen_iff l.dst r.dst) (
                guard_iff _ _ (seen_iff l.src r.src) (
                  guard_iff _ _ (limits_iff l.limits r.limits) (
                    guard_iff _ _ (mark_iff l.mark r.mark) (
                      guard_iff _ _ (algo_iff l.auth r.auth) (
                        guard_iff _ _ (algo_iff l.crypt r.crypt) (
                          guard_iff _ _ (algo_iff l.aead r.aead)
                            (end_iff _ (encap_iff l.encap r.encap))))))))))))) in
    (
      λ h. let f = fields.0 h in cc,
      λ h. fields.1 (cc, (cc, (cc, (cc, (cc, (cc, (cc, (cc, (cc, (cc, (cc, (cc, cc)))))))))))),
    )
