-- ===== src/Vxlan/Entries.antt =====
-- The entries and the route that pkg/routing/vxlan2/vxlan2routing.go makes for each peer.
use networking.Prelude.{
  ℕ, none, some, List, [], ◌∷◌, In, String, ok, string_eq, nat_eq, ◌≡◌, ◌≢◌, arith, refl, subst,
  inl, inr,
}
use networking.Prelude.Dict.{Dict, lookup, Distinct}
use networking.Net.{to4}
use networking.Netlink.{Neigh}
use networking.Netutil.Kernel.{Keys, lookup-cons, values}
use networking.Netutil.Routes.Equality.{Leads}
use networking.Netutil.Neighbours.Ensure as NeighEnsure
use networking.Providers.Peers.{Peer}
use networking.Vxlan.{mac_for, map_to_mac-mac_for}
use networking.Vxlan.Link.{Environment}
use networking.Vxlan.Current.{arp_entry, fdb_entry, overlay_route, peer_neighs}

module _ {W : Type 0} (e : Environment W) (i : ℕ) where
  pub over_device : (q : Peer) → Leads i q.pod_cidr (some q.pod_cidr.ip) 4 (overlay_route e i q)
  unfolding overlay_route
  over_device q = (refl, refl, refl, refl, refl, refl, refl)

  -- The entries of the peers, under the texts of their addresses: that of the network's device, and
  -- that of the node.
  unfoldable pub neighs_by_text : List Peer → Dict String Neigh
  neighs_by_text [] = []
  neighs_by_text (p ∷ ps) =
      (e.ip_text p.pod_cidr.ip, arp_entry e i p (mac_for p.pod_cidr.ip))
      ∷ (e.ip_text p.address, fdb_entry e i p (mac_for p.pod_cidr.ip))
      ∷ neighs_by_text ps

  -- The loop fills the list with them.
  pub peer_neighs_lem :
      (ps : List Peer)
      → ((q : Peer) → In q ps → to4 q.pod_cidr.ip ≢ none)
      → peer_neighs e i ps ≡ ok (values (neighs_by_text ps))
  unfolding peer_neighs neighs_by_text
  peer_neighs_lem [] v4 = refl
  peer_neighs_lem (p ∷ ps) v4 =
      rw
        (
          map_to_mac-mac_for p.pod_cidr.ip (v4 p (inl refl)),
          peer_neighs_lem ps (λ q h. v4 q (inr h)),
          peer_neighs,
        )
        refl

  pub neighs_by_text-Keys : (ps : List Peer) → Keys (NeighEnsure.key e.ip_text) (neighs_by_text ps)
  unfolding neighs_by_text arp_entry fdb_entry lookup
  neighs_by_text-Keys [] k v h = absurd (ground (arith, h))
  neighs_by_text-Keys (p ∷ ps) k v h = ground (
    arith,
    h,
    string_eq.same_iff (e.ip_text p.pod_cidr.ip) k,
    string_eq.same_iff (e.ip_text p.address) k,
    neighs_by_text-Keys ps k v,
  )

  -- If no text stands twice, each peer has both.
  pub lookup-neighs_by_text :
      (ps : List Peer) (q : Peer)
      → Distinct (neighs_by_text ps)
      → In q ps
      → (lookup (e.ip_text q.pod_cidr.ip) (neighs_by_text ps)
          ≡ some (arp_entry e i q (mac_for q.pod_cidr.ip)))
        × (lookup (e.ip_text q.address) (neighs_by_text ps)
            ≡ some (fdb_entry e i q (mac_for q.pod_cidr.ip)))
  unfolding neighs_by_text lookup
  lookup-neighs_by_text [] q d h = absurd h
  lookup-neighs_by_text (p ∷ ps) q d (inl same) =
      subst
        (λ (x : Peer).
          (lookup (e.ip_text x.pod_cidr.ip) (neighs_by_text (p ∷ ps))
            ≡ some (arp_entry e i x (mac_for x.pod_cidr.ip)))
          × (lookup (e.ip_text x.address) (neighs_by_text (p ∷ ps))
              ≡ some (fdb_entry e i x (mac_for x.pod_cidr.ip))))
        same
        (
          lookup-cons (e.ip_text p.pod_cidr.ip) (arp_entry e i p (mac_for p.pod_cidr.ip))
              ((e.ip_text p.address, fdb_entry e i p (mac_for p.pod_cidr.ip)) ∷ neighs_by_text ps),
          ground (
            arith,
            d.0,
            lookup-cons (e.ip_text p.address) (fdb_entry e i p (mac_for p.pod_cidr.ip))
                (neighs_by_text ps),
            string_eq.same_iff (e.ip_text p.pod_cidr.ip) (e.ip_text p.address),
          ),
        )
  lookup-neighs_by_text (p ∷ ps) q d (inr h) =
      let (arp, fdb) = lookup-neighs_by_text ps q d.1.1 h in
      (
        ground (
          arith,
          arp,
          d.0,
          d.1.0,
          string_eq.same_iff (e.ip_text p.pod_cidr.ip) (e.ip_text q.pod_cidr.ip),
          string_eq.same_iff (e.ip_text p.address) (e.ip_text q.pod_cidr.ip),
        ),
        ground (
          arith,
          fdb,
          d.0,
          d.1.0,
          string_eq.same_iff (e.ip_text p.pod_cidr.ip) (e.ip_text q.address),
          string_eq.same_iff (e.ip_text p.address) (e.ip_text q.address),
        ),
      )
