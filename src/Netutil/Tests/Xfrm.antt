-- ===== src/Netutil/Tests/Xfrm.antt =====
-- The theorem about `xfrmStateEqual` and about `XfrmStateTable.Ensure`.
use networking.Prelude.{
  ℕ, true, false, none, some, List, [], ◌∷◌, nat_eq, ok, ◌≡◌, ◌↔◌, arith, refl,
}
use networking.Net.{ipv4}
use networking.Netlink.{XfrmState}
use networking.Prelude.Dict.{Dict, lookup, insert, lookup-insert, Distinct, RangeOrder}
use networking.Netlink.{XfrmStateCalls}
use networking.Netutil.Kernel.{or_else, values, Keys}
use networking.Netutil.Diff.{when_some}
use networking.Netutil.Xfrm.States.{index_states, ensure_states}
use networking.Netutil.Xfrm.States.Ensure.{key, Lists, ensure_states_exact}
use networking.Netutil.Tests.Kernel.{here, table, add, update, del, add-Adds, del-Dels}
use networking.Netutil.Xfrm.{xfrm_state_equal}
use networking.Netutil.Xfrm.Equality.{seen_state, xfrm_state_equal_iff}

abbrev state : ℕ → XfrmState
state spi = record {
  dst = some (ipv4 10 0 0 2);
  src = some (10 ∷ 0 ∷ 0 ∷ 3 ∷ []);
  proto = 51;
  mode = 1;
  spi = spi;
  reqid = 0;
  replay_window = 0;
  limits = record {
    byte_soft = 0;
    byte_hard = 0;
    packet_soft = 0;
    packet_hard = 0;
    time_soft = 0;
    time_hard = 0;
    time_use_soft = 0;
    time_use_hard = 0;
  };
  statistics = record { replay_window = 0; replay = 0; failed = 0; add_time = 0; use_time = 0 };
  mark = none;
  output_mark = 0;
  ifid = 0;
  auth = none;
  crypt = none;
  aead = none;
  encap = none;
  esn = false;
}

xfrm_state_equal_iff_example :
    (xfrm_state_equal (state 1) (state 2) ≡ true) ↔ (seen_state (state 1) ≡ seen_state (state 2))
xfrm_state_equal_iff_example = xfrm_state_equal_iff (state 1) (state 2)

abbrev calls : XfrmStateCalls (List XfrmState)
calls = record {
  xfrm_state_list = λ w. (ok w, w);
  xfrm_state_add = add key;
  xfrm_state_update = update key;
  xfrm_state_del = del key;
  xfrm_state_flush = λ w. (ok tt, []);
}

abbrev order : RangeOrder ℕ XfrmState
order = record { range = λ m. m; lookup-range = λ k m d. refl; range-Distinct = λ m d. d }

lookup-index_states :
    (k : ℕ) (m : Dict ℕ XfrmState) (l : List XfrmState)
    → lookup k (index_states m l) ≡ or_else (table key l k) (lookup k m)
unfolding index_states table here
lookup-index_states k m [] = refl
lookup-index_states k m (a ∷ l) =
    ground (arith, lookup-index_states k (insert a.spi a m) l, lookup-insert a.spi k a m)

listing : Lists (table key) calls
unfolding lookup
listing = record { lists = λ w. (w, refl, λ k. ground (arith, lookup-index_states k [] w)) }

abbrev wanted : Dict ℕ XfrmState
wanted = (1, state 1) ∷ (2, state 2) ∷ []

wanted-Distinct : Distinct wanted
unfolding lookup
wanted-Distinct = (refl, (refl, tt))

wanted-Keys : Keys key wanted
unfolding lookup
wanted-Keys k v p = ground (arith, p)

abbrev before : List XfrmState
before = record (state 1) { ifid = 4 } ∷ state 3 ∷ []

alike : xfrm_state_equal (record (state 1) { ifid = 4 }) (state 1) ≡ true
alike = (xfrm_state_equal_iff (record (state 1) { ifid = 4 }) (state 1)).1 refl

fits :
    (k : ℕ) (e a : XfrmState)
    → lookup k wanted ≡ some e
    → table key before k ≡ some a
    → xfrm_state_equal a e ≡ true
unfolding lookup table here
fits k e a p q = ground (arith, p, q, alike)

-- One state stays, one comes, and one goes.
ensure_states_exact_example :
    (w' : List XfrmState) × (ensure_states calls order (values wanted) before ≡ (ok tt, w'))
    × ((k : ℕ)
        → table key w' k ≡ when_some (lookup k wanted) (λ e. or_else (table key before k) (some e)))
ensure_states_exact_example =
    ensure_states_exact calls order (table key) listing (add-Adds key) (del-Dels key) wanted
      wanted-Distinct wanted-Keys before fits
