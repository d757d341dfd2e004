-- ===== src/Netutil/Xfrm/States.antt =====
-- `XfrmStateTable` of pkg/routing/netutil/xfrm_state_table.go.
pub mod Ensure
use networking.Prelude.{
  ℕ, not, none, some, List, [], ◌∷◌, Exec, Result, ok, fatal, ◌>>=◌, ◌>>◌, lift, context, for_each,
  if◌then◌else◌, nat_eq,
}
use networking.Prelude.Dict.{Dict, lookup, insert, RangeOrder}
use networking.Netlink.{XfrmState, XfrmStateCalls}
use networking.Netutil.Kernel.{values}
use networking.Netutil.Diff.{missing}
use networking.Netutil.Xfrm.{xfrm_state_equal}

-- `actualMap`: the last of one SPI stays.
unfoldable pub index_states : Dict ℕ XfrmState → List XfrmState → Dict ℕ XfrmState
index_states m [] = m
index_states m (a ∷ rest) = index_states (insert a.spi a m) rest

-- `expected`: a second state of one SPI ends the process.
unfoldable pub index_expected_states : Dict ℕ XfrmState → List XfrmState → Result (Dict ℕ XfrmState)
index_expected_states m [] = ok m
index_expected_states m (e ∷ rest) = elim (lookup e.spi m) [
  | some d ↦ fatal "Found duplicate ESP SPI"
  | none ↦ index_expected_states (insert e.spi e m) rest
]

-- The loop over `expected`: `create`, and `updates`.
unfoldable pub states_to_create : Dict ℕ XfrmState → Dict ℕ XfrmState → Dict ℕ XfrmState
states_to_create actual_map [] = []
states_to_create actual_map ((spi, e) ∷ rest) =
    let others = states_to_create actual_map rest in
    elim (lookup spi actual_map) [ none ↦ (spi, e) ∷ others | some a ↦ others ]

unfoldable pub states_to_update : Dict ℕ XfrmState → Dict ℕ XfrmState → Dict ℕ XfrmState
states_to_update actual_map [] = []
states_to_update actual_map ((spi, e) ∷ rest) =
    let others = states_to_update actual_map rest in
    elim (lookup spi actual_map) [
      | none ↦ others
      | some a ↦ if not (xfrm_state_equal a e) then (spi, e) ∷ others else others
    ]

module _ {W : Type 0} (calls : XfrmStateCalls W) (order : RangeOrder ℕ XfrmState) where
  open calls use {
    xfrm_state_list, xfrm_state_add, xfrm_state_update, xfrm_state_del, xfrm_state_flush,
  }

  -- `Flush`
  unfoldable pub flush_states : Exec W Unit
  flush_states = xfrm_state_flush

  unfoldable pub create_states : List XfrmState → Exec W Unit
  create_states = for_each (λ p. context "error creating state" (xfrm_state_add p))

  unfoldable pub update_states : List XfrmState → Exec W Unit
  update_states = for_each (λ p. context "error updating state" (xfrm_state_update p))

  unfoldable pub remove_states : List XfrmState → Exec W Unit
  remove_states = for_each (λ p. context "error removing state" (xfrm_state_del p))

  -- `Ensure`
  unfoldable pub ensure_states : List XfrmState → Exec W Unit
  ensure_states expected_list = do
    actual_list ← context "error listing xfrm state" xfrm_state_list
    let actual_map = index_states [] actual_list
    expected ← lift (index_expected_states [] expected_list)
    let ranged = order.range expected
    create_states (values (states_to_create actual_map ranged))
    update_states (values (states_to_update actual_map ranged))
    remove_states (values (missing (order.range actual_map) expected))
