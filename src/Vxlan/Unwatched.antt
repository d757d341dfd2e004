-- ===== src/Vxlan/Unwatched.antt =====
-- What becomes of a monitor of pkg/routing/vxlan/vxlanrouting.go that could not be started.
use networking.Prelude.{
  ℕ, false, Bool-cases, inl, inr, ap, sym, subst, arith, ◌∙◌, pure, Result, fatal, Exec, string_eq,
  nat_eq, [], ◌∷◌, none, some, List, ok, err, Error, ◌>>=◌, lift, ◌≡◌, ◌≢◌, arith, refl,
}
use networking.Net.{Ip, IpNet}
use networking.Netlink.{Link}
use networking.Nodes.Info.{NodeInfo}
use networking.Nodes.Map.{NodeMap, snapshot}
use networking.Providers.Peers.{Peer, peers, is_applied}
use networking.Vxlan.Link.{Environment, VxlanRoutingProvider, assert_vxlan, not_nil, local_node}
use networking.Vxlan.Legacy.{
  Watching, ensure_link, add_link, found_link, start_watching, peer_neighs, fdb_entry, apply_tables,
  with_link, apply_node, ensure_cidrs,
}

module _ {W : Type 0} (e : Environment W) where
  -- The provider and the kernel after some calls, one map after the other, whatever they return.
  unfoldable pub calls :
      Watching W → List NodeMap → VxlanRoutingProvider → W → VxlanRoutingProvider × W
  calls watching [] p w = (p, w)
  calls watching (m ∷ ms) p w =
      let (r, p', w') = ensure_cidrs e watching p m w in calls watching ms p' w'

  with_link-link :
      (watching : Watching W) (p : VxlanRoutingProvider) (before : Exec W Unit) (l : Link)
      (ps : List Peer) (version : ℕ) (w : W)
      → (with_link e watching p before l ps version w).1.link ≡ some l
  unfolding with_link
  with_link-link watching p before l ps version w = ground arith

  apply_node-link :
      (watching : Watching W) (p : VxlanRoutingProvider) (node : NodeInfo) (address : Ip)
      (cidr : IpNet) (nodes : List NodeInfo) (version : ℕ) (l : Link) (w : W)
      → p.link ≡ some l
      → (apply_node e watching p node address cidr nodes version w).1.link ≡ some l
  unfolding apply_node with_link apply_tables
  apply_node-link watching p node address cidr nodes version l w h =
      rw h (with_link-link watching p (pure tt) l (peers node nodes) version w)

  local_node-link :
      (watching : Watching W) (p : VxlanRoutingProvider) (r : Result (NodeInfo × Ip × IpNet))
      (nodes : List NodeInfo) (version : ℕ) (l : Link) (w : W)
      → p.link ≡ some l
      → (elim r as (λ x. Result {0} Unit × VxlanRoutingProvider × W) [
        | err x ↦ (err x, p, w)
        | fatal x ↦ (fatal x, p, w)
        | ok (node, address, cidr) ↦ apply_node e watching p node address cidr nodes version w
      ]).1.link
        ≡ some l
  local_node-link watching p (ok (node, address, cidr)) nodes version l w h =
      apply_node-link watching p node address cidr nodes version l w h
  local_node-link watching p (err x) nodes version l w h = h
  local_node-link watching p (fatal x) nodes version l w h = h

  ensure_cidrs-link :
      (watching : Watching W) (p : VxlanRoutingProvider) (m : NodeMap) (l : Link) (w : W)
      → p.link ≡ some l
      → (ensure_cidrs e watching p m w).1.link ≡ some l
  unfolding ensure_cidrs
  ensure_cidrs-link watching p m l w h = elim (Bool-cases (is_applied m p.last_version_applied)) [
    | inl q ↦ ground (arith, q, h)
    | inr q ↦
        let (me, nodes, version) = snapshot e.range_nodes m in
        rw q (local_node-link watching p (local_node me) nodes version l w h)
  ]

  ensure_cidrs-alike :
      (watching other : Watching W) (p : VxlanRoutingProvider) (m : NodeMap) (l : Link) (w : W)
      → p.link ≡ some l
      → ensure_cidrs e watching p m w ≡ ensure_cidrs e other p m w
  unfolding ensure_cidrs apply_node with_link apply_tables peer_neighs fdb_entry
  ensure_cidrs-alike watching other p m l w h =
      let same : record p { link = some l } ≡ p = ap (λ o. record p { link = o }) (sym h) in
      subst (λ z. ensure_cidrs e watching z m w ≡ ensure_cidrs e other z m w) same refl

  calls-alike :
      (watching other : Watching W) (maps : List NodeMap) (p : VxlanRoutingProvider) (l : Link)
      (w : W)
      → p.link ≡ some l
      → calls watching maps p w ≡ calls other maps p w
  unfolding calls
  calls-alike watching other [] p l w h = refl
  calls-alike watching other (m ∷ maps) p l w h =
      let (r, p', w') = ensure_cidrs e other p m w in
      ap (λ (x : Result {0} Unit × VxlanRoutingProvider × W). calls watching maps x.1 x.2)
        (ensure_cidrs-alike watching other p m l w h)
      ∙ calls-alike watching other maps p' l w' (ensure_cidrs-link other p m l w h)

module _ {W : Type 0} (e : Environment W) (watching : Watching W) where
  -- For a provider without a device, and a node map that is ready, has moved on and knows the local
  -- node with an address and a network: if the device is made but the file for ARP events cannot be
  -- written or the monitor cannot be started, then `EnsureCIDRs` fails with that error, and keeps
  -- the device; and then no series of further calls, with whatever node maps, tries again: the
  -- provider and the kernel come out the same whatever writing that file and starting the monitor
  -- would do.
  pub never_watched :
      (p : VxlanRoutingProvider) (node_map : NodeMap) (me : NodeInfo) (nodes : List NodeInfo)
      (address : Ip) (cidr : IpNet) (w w1 w2 : W) (l : Link) (x : Error)
      → p.link ≡ none
      → snapshot e.range_nodes node_map ≡ (some me, nodes, node_map.version)
      → me.pod_cidr ≡ some cidr
      → me.address ≡ some address
      → is_applied node_map p.last_version_applied ≡ false
      → (ensure_link e watching p address cidr >>= λ l. lift (assert_vxlan l)) w ≡ (ok l, w1)
      → start_watching e watching l w1 ≡ (err x, w2)
      → (ensure_cidrs e watching p node_map w ≡ (err x, record p { link = some l }, w2))
        × ((other : Watching W) (maps : List NodeMap)
            → calls e watching maps (record p { link = some l }) w2
              ≡ calls e other maps (record p { link = some l }) w2)
  unfolding ensure_cidrs apply_node with_link local_node
  never_watched p node_map me nodes address cidr w w1 w2 l x absent seen net4 here fresh made
        failed =
      (
        ground (arith, absent, seen, net4, here, fresh, made, failed),
        λ other maps. calls-alike e watching other maps (record p { link = some l }) l w2 refl,
      )

  -- Without an overlay network `EnsureLink` never succeeds, whatever the kernel answers.
  pub never_linked :
      (p : VxlanRoutingProvider) (me : Ip) (cidr : IpNet) (w : W) (l : Link)
      → p.overlay_cidr ≡ none
      → (ensure_link e watching p me cidr w).0 ≢ ok l
  unfolding ensure_link add_link found_link not_nil
  never_linked p me cidr w l absent made = ground (arith, absent, made)
