-- ===== src/Agent/Dispatch.antt =====
-- The call `c.provider.EnsureCIDRs` of pkg/routing/providercontroller.go, through the interface
-- `Provider` of pkg/routing/provider.go, for a provider that cmd/networking-agent built: the world
-- of the controller is the provider with its own state, and the kernel.
use networking.Prelude.{ℕ, Bool, String, Exec, Result, ok, err, fatal, string_eq, nat_eq}
use networking.Prelude.Dict.{RangeOrder}
use networking.Netlink.{Link, XfrmState, XfrmStateCalls, XfrmPolicyCalls}
use networking.Nodes.Map.{NodeMap}
use networking.Ipsec.States.{Constants}
use networking.Ipsec.Provider as Ipsec
use networking.Providers.Gre
use networking.Providers.Layer2
use networking.Vxlan.Link.{Environment}
use networking.Vxlan.Legacy.{Watching}
use networking.Vxlan.Legacy
use networking.Vxlan.Current
use networking.Agent.Choice.{Provider, layer2, gre, vxlan_legacy, vxlan, ipsec}

-- A provider whose method returns its new state with its result, and keeps the old one beside an
-- error.
unfoldable pub renewed :
    {A W : Type 0} → (A → Provider) → Provider → Result A × W → Result {0} Unit × (Provider × W)
renewed make old (ok a, w) = (ok tt, (make a, w))
renewed make old (err x, w) = (err x, (old, w))
renewed make old (fatal x, w) = (fatal x, (old, w))

-- A call that leaves the provider alone.
unfoldable pub beside : {A W : Type 0} → Exec W A → Exec (Provider × W) A
beside m (p, w) = let (r, w') = m w in (r, (p, w'))

module _ {W : Type 0} (e : Environment W) (watching : Watching W)
    (has_prefix : String → String → Bool) (gre_type : String) (range_links : RangeOrder String Link)
    (states : XfrmStateCalls W) (policies : XfrmPolicyCalls W)
    (range_states : RangeOrder ℕ XfrmState) (c : Constants) where
  -- `Provider.EnsureCIDRs`
  unfoldable pub ensure_provider : NodeMap → Exec (Provider × W) Unit
  ensure_provider m (layer2 p, w) =
      renewed layer2 (layer2 p)
        (Layer2.ensure_cidrs e.net_text e.routes e.range_routes e.range_nodes p m w)
  ensure_provider m (gre n, w) = renewed gre (gre n) (
      Gre.ensure_cidrs e.net_text has_prefix gre_type e.routes e.links e.range_routes range_links
        e.range_nodes m n w)
  ensure_provider m (vxlan_legacy p, w) =
      let (r, p', w') = Legacy.ensure_cidrs e watching p m w in (r, (vxlan_legacy p', w'))
  ensure_provider m (vxlan p, w) =
      let (r, p', w') = Current.ensure_cidrs e p m w in (r, (vxlan p', w'))
  ensure_provider m (ipsec p, w) =
      renewed (λ n. ipsec (record p { last_version_applied = n })) (ipsec p)
        (Ipsec.ensure_cidrs c p.strategies states policies range_states e.range_nodes m
          p.last_version_applied w)
