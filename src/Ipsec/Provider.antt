-- ===== src/Ipsec/Provider.antt =====
-- `IpsecRoutingProvider` of pkg/routing/ipsec/ipsecrouting.go: `Flush` and `EnsureCIDRs`.
use networking.Prelude.{
  ℕ, not, ◌&&◌, Option, none, some, List, String, errorf, Exec, Result, ok, err, fatal, ◌>>=◌, ◌>>◌,
  pure, raise, lift, context, if◌then◌else◌, ◌==◌, nat_eq, string_eq,
}
use networking.Prelude.Dict.{RangeOrder}
use networking.Net.{Ip, IpNet}
use networking.Netlink.{XfrmState, XfrmStateCalls, XfrmPolicyCalls}
use networking.Netutil.Xfrm.States.{flush_states, ensure_states}
use networking.Netutil.Xfrm.Policies.{flush_policies, ensure_policies}
use networking.Nodes.Info.{NodeInfo}
use networking.Nodes.Map.{NodeMap, is_version, snapshot}
use networking.Ipsec.Numeral.{compute_node_numeral}
use networking.Ipsec.States.{Constants, Strategies, expected_states}
use networking.Ipsec.Policies.{expected_policies}

module _ {W : Type 0} (c : Constants) (s : Strategies) (states : XfrmStateCalls W)
    (policies : XfrmPolicyCalls W) (range_states : RangeOrder ℕ XfrmState)
    (range_nodes : RangeOrder String ℕ) where
  -- `return fmt.Errorf(message)`: the error of the call itself is not part of the one returned.
  unfoldable pub instead : String → Result {0} Unit → Result {0} Unit
  instead message (ok u) = ok u
  instead message (err x) = err (errorf message)
  instead message (fatal x) = fatal x

  -- `Flush`
  unfoldable pub flush : Exec W Unit
  flush = do
    (λ w.
        let (r, w1) = flush_policies policies w in
        (instead "error flushing xfrm policy table" r, w1))
    (λ w.
        let (r, w1) = flush_states states range_states w in
        (instead "error flushing xfrm policy table" r, w1))

  -- What `EnsureCIDRs` does for a local node with an address and a network.
  unfoldable pub apply_tables : NodeInfo → Ip → IpNet → List NodeInfo → Exec W Unit
  apply_tables me address here all_nodes = do
    numeral ← lift (compute_node_numeral here)
    expected ← lift (expected_states c s me numeral all_nodes)
    context "error applying xfrm state" (ensure_states states range_states expected)
    context "error applying xfrm policy"
        (ensure_policies policies (expected_policies c me address here all_nodes))

  unfoldable pub apply_nodes : Option NodeInfo → List NodeInfo → Exec W Unit
  apply_nodes none all_nodes = raise (errorf "Cannot find local node")
  apply_nodes (some me) all_nodes = elim me.pod_cidr [
    | none ↦ raise (errorf "No CIDR assigned to local node; cannot configure tunnels")
    | some here ↦ elim me.address [
      | none ↦ raise (errorf "No Address assigned to local node; cannot configure tunnels")
      | some address ↦ apply_tables me address here all_nodes
    ]
  ]

  -- `EnsureCIDRs`, with `lastVersionApplied` before and after.
  unfoldable pub ensure_cidrs : NodeMap → ℕ → Exec W ℕ
  ensure_cidrs node_map last_version_applied =
      if not (last_version_applied == 0) && is_version node_map last_version_applied
      then pure last_version_applied
      else (let (me, all_nodes, version) = snapshot range_nodes node_map in
          apply_nodes me all_nodes >>= λ _. pure version)
