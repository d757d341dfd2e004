-- ===== src/Agent/Choice.antt =====
-- Which provider `run` of cmd/networking-agent/main.go builds.
use networking.Prelude.{
  ℕ, Bool, Option, List, [], ◌∷◌, String, Exec, Result, ok, err, fatal, errorf, ◌>>=◌, ◌>>◌, pure,
  raise, lift, context, if◌then◌else◌, ◌==◌, string_eq, nat_eq,
}
use networking.Prelude.Dict.{RangeOrder}
use networking.Net.{IpNet}
use networking.Nodes.{Node, Parsers}
use networking.Nodes.Map.{NodeMap, new_node_map}
use networking.Netlink.{XfrmState, XfrmStateCalls, XfrmPolicyCalls}
use networking.Ipsec.Strategies.{
  AuthenticationStrategy, EncryptionStrategy, EncapsulationStrategy,
  hmac_sha1_authentication_strategy, plaintext_authentication_strategy, aes_encryption_strategy,
  plaintext_encryption_strategy, udp_encapsulation_strategy, esp_encapsulation_strategy,
}
use networking.Ipsec.States.{Strategies, Constants}
use networking.Ipsec.Provider.{flush}
use networking.Ipsec.Listener.{SystemCalls, IpsecRoutingProvider, new_ipsec_routing_provider}
use networking.Providers.Layer2.{Layer2RoutingProvider, new_layer2_routing_provider}
use networking.Vxlan.Link.{Environment, VxlanRoutingProvider}
use networking.Vxlan.Legacy.{Watching}
use networking.Vxlan.Legacy
use networking.Vxlan.Current
use networking.Agent.Options.{Options, IpsecOptions}

-- `routing.Provider`, by what implements it.
pub data Provider : Type 0 where
  layer2 : Layer2RoutingProvider → Provider
  -- with `lastVersionApplied`
  gre : ℕ → Provider
  vxlan_legacy vxlan : VxlanRoutingProvider → Provider
  ipsec : IpsecRoutingProvider → Provider

unfoldable pub encryption_of : String → Result EncryptionStrategy
encryption_of name =
    if name == "none"
    then ok plaintext_encryption_strategy
    else if name == "aes"
    then ok aes_encryption_strategy
    else err (errorf "unknown ipsec-encryption")

unfoldable pub authentication_of : String → Result AuthenticationStrategy
authentication_of name =
    if name == "none"
    then ok plaintext_authentication_strategy
    else if name == "sha1"
    then ok hmac_sha1_authentication_strategy
    else err (errorf "unknown ipsec-authentication")

-- `espinudp` is `netlink.XFRM_ENCAP_ESPINUDP`.
unfoldable pub encapsulation_of : ℕ → String → Result EncapsulationStrategy
encapsulation_of espinudp name =
    if name == "udp"
    then ok (udp_encapsulation_strategy espinudp)
    else if name == "esp"
    then ok esp_encapsulation_strategy
    else err (errorf "unknown ipsec-encapsulation")

-- The one device that some providers want.
unfoldable pub single : List String → Result String
single [] = err (errorf "expected exactly one target link with layer2")
single (name ∷ []) = ok name
single (name ∷ other ∷ rest) = err (errorf "expected exactly one target link with layer2")

-- `_, overlayCIDR, _ := net.ParseCIDR(options.PodCIDR)`: nil if it cannot be parsed.
unfoldable pub overlay_of : Parsers → Options → Option IpNet
overlay_of net o = net.parse_cidr o.pod_cidr

module _ {W : Type 0} (net : Parsers) (e : Environment W) (watching : Watching W)
    (states : XfrmStateCalls W) (policies : XfrmPolicyCalls W)
    (range_states : RangeOrder ℕ XfrmState) (range_nodes : RangeOrder String ℕ) (c : Constants)
    (system : SystemCalls W) (espinudp : ℕ) where
  -- `Flush`, whose error is not part of the one returned.
  unfoldable pub flush_or_fail : Strategies → Exec W Unit
  flush_or_fail s w =
      let (r, w') = flush c s states policies range_states range_nodes w in
      elim r [
        | ok u ↦ (ok tt, w')
        | err x ↦ (err (errorf "cannot flush tables"), w')
        | fatal x ↦ (fatal x, w')
      ]

  -- An error of a constructor is the error of `run`.
  unfoldable pub built : {A : Type 0} → Exec W A → Exec W A
  built = context "failed to build provider"

  unfoldable pub build_ipsec : IpsecOptions → Exec W Provider
  build_ipsec o = do
    encryption ← lift (encryption_of o.encryption)
    authentication ← lift (authentication_of o.authentication)
    encapsulation ← lift (encapsulation_of espinudp o.encapsulation)
    let s : Strategies = record {
      authentication = authentication;
      encryption = encryption;
      encapsulation = encapsulation;
    }
    p ← built (new_ipsec_routing_provider system s)
    flush_or_fail s
    pure (ipsec p)

  unfoldable pub build_layer2 : List String → Exec W Provider
  build_layer2 targets = do
    name ← lift (single targets)
    p ← built (new_layer2_routing_provider e.links name)
    pure (layer2 p)

  unfoldable pub build_vxlan_legacy : Options → List String → Exec W Provider
  build_vxlan_legacy o targets = do
    name ← lift (single targets)
    p ← built (Legacy.new_vxlan_routing_provider e watching (overlay_of net o) name)
    pure (vxlan_legacy p)

  unfoldable pub build_vxlan : Options → List String → Exec W Provider
  build_vxlan o targets = do
    p ← built (Current.new_vxlan_routing_provider e (overlay_of net o) targets)
    pure (vxlan p)

  -- `switch options.Provider`
  unfoldable pub build_provider : Options → List String → Exec W Provider
  build_provider o targets =
      if o.provider == "layer2"
      then build_layer2 targets
      else if o.provider == "gre"
      then pure (gre 0)
      else if o.provider == "vxlan-legacy"
      then build_vxlan_legacy o targets
      else if o.provider == "vxlan"
      then build_vxlan o targets
      else if o.provider == "ipsec"
      then build_ipsec o.ipsec
      else raise (errorf "provider not known")

  -- From the client of the API server on, up to the two controllers. `choose` is how the local
  -- node is told from others, `find` how the devices are found.
  unfoldable pub set_up :
      Exec W Unit
      → (Options → Exec W (Node → Bool))
      → (String → Exec W (List String))
      → Options
      → Exec W (NodeMap × Provider)
  set_up kube_client choose find o = do
    kube_client
    matcher ← choose o
    targets ← find o.target_link_name
    provider ← build_provider o targets
    pure (new_node_map matcher, provider)
