-- ===== src/Agent/Round.antt =====
-- One round of the controller of pkg/routing/providercontroller.go with the provider of vxlan2 and
-- the writer of pkg/cni, as cmd/networking-agent puts them together.
use networking.Prelude.{
  ℕ, Bool, false, Option, none, some, List, ◌∷◌, String, Exec, Result, Error, ok, string_eq, nat_eq,
  ◌≡◌, ◌≢◌, arith, refl, ap, subst, sym, ◌∙◌, Bool-cases, inl, inr, ◌==◌,
}
use networking.Prelude.Dict.{Distinct, RangeOrder}
use networking.Net.{Ip, IpNet}
use networking.Netlink.{Route, Neigh, Link, XfrmState, XfrmStateCalls, XfrmPolicyCalls}
use networking.Ipsec.States.{Constants}
use networking.Vxlan.Legacy.{Watching}
use networking.Netutil.Kernel.{Adds, Dels, Sets}
use networking.Netutil.Routes.Planning
use networking.Netutil.Routes.Ensure
use networking.Netutil.Neighbours.Ensure as NeighEnsure
use networking.Nodes.Info.{NodeInfo}
use networking.Nodes.Map.{NodeMap, snapshot}
use networking.Cni.{FileCalls, expected_config, write_cni_config}
use networking.Cni.Write.{Disk, held, held-file, write_cni_config_eq, write_cni_config_lem}
use networking.Controller.{Environment, check_context, Deed, began, ensured, wrote, marked, steps}
use networking.Controller.Round.{steps_round}
use networking.Providers.Peers.{Peer, peers, is_applied}
use networking.Providers.Routed.{routes_by_text}
use networking.Vxlan.Link as Device
use networking.Vxlan.Link.{VxlanRoutingProvider}
use networking.Vxlan.Current.{overlay_route, peer_neighs, ensure_cidrs}
use networking.Vxlan.Ensure.{Apart, Settled, ensure_cidrs-Settled}
use networking.Agent.Choice.{Provider, vxlan}
use networking.Agent.Dispatch.{beside, ensure_provider}
use networking.Agent.Run.{controller_environment, writer_beside}

module _ {W : Type 0} (route_table : W → String → Option Route)
    (neigh_table : W → String → Option Neigh) where
  -- Nothing is done to the tables.
  abbrev pub SameTables : W → W → Type 0
  SameTables w w' =
      ((k : String) → route_table w' k ≡ route_table w k)
      × ((k : String) → neigh_table w' k ≡ neigh_table w k)

  -- Tables that are settled stay so.
  Settled-SameTables :
      (e : Device.Environment W) (l : Link) (ps : List Peer) (neighs : List Neigh) (w w1 w2 : W)
      → Settled e l route_table neigh_table ps neighs w w1
      → SameTables w1 w2
      → Settled e l route_table neigh_table ps neighs w w2
  Settled-SameTables e l ps neighs w w1 w2 (routed, none_else, brought) (rs, ns) = (
    λ q i. let (r, there, good) = routed q i in (r, rs _ ∙ there, good),
    λ k h. rs k ∙ none_else k h,
    λ k. ns k ∙ brought k,
  )

-- Marking a node succeeds and leaves the tables and the file alone; so does writing a file with the
-- tables.
pub record Elsewhere {W : Type 0} (files : FileCalls W) (file : W → String → Option String)
    (d : Disk files file) (path : String) (mark : String → Exec W Unit)
    (route_table : W → String → Option Route) (neigh_table : W → String → Option Neigh)
    : Type 0 where
  pub stored : (q s : String) (w : W) → SameTables route_table neigh_table w (d.store q s w)
  pub marks :
      (name : String) (w : W)
      → (w' : W) × (mark name w ≡ (ok tt, w'))
        × SameTables route_table neigh_table w w'
        × (file w' path ≡ file w path)

-- A call beside the provider, from its run.
beside_ok :
    {W : Type 0} (m : Exec W Unit) (p : Provider) (w w' : W)
    → m w ≡ (ok tt, w')
    → beside m (p, w) ≡ (ok tt, (p, w'))
unfolding beside
beside_ok m p w w' h = rw h refl

module _ {W : Type 0} (e : Device.Environment W) (watching : Watching W)
    (has_prefix : String → String → Bool) (gre_type : String) (range_links : RangeOrder String Link)
    (states : XfrmStateCalls W) (policies : XfrmPolicyCalls W)
    (range_states : RangeOrder ℕ XfrmState) (c : Constants)
    (replace_all : String → String → String → String) (files : FileCalls W) (path : String)
    (context_err : W → Option Error × W) (mark : String → Exec W Unit) where
  -- What `run` hands to the controller.
  abbrev pub environment : Environment (Provider × W)
  environment =
      controller_environment context_err
        (ensure_provider e watching has_prefix gre_type range_links states policies range_states c)
        (some (write_cni_config e.net_text replace_all files path)) mark

  -- A round of the controller from what its calls do.
  round_steps :
      (p p' : VxlanRoutingProvider) (node_map : NodeMap) (cell : ℕ) (deeds : List Deed)
      (w w1 w2 w3 w4 : W)
      → node_map.me ≡ some cell
      → (node_map.cells cell).network_available ≡ false
      → context_err w ≡ (none, w1)
      → ensure_cidrs e p node_map w1 ≡ (ok tt, p', w2)
      → write_cni_config e.net_text replace_all files path (node_map.cells cell).pod_cidr w2
        ≡ (ok tt, w3)
      → mark (node_map.cells cell).name w3 ≡ (ok tt, w4)
      → steps environment 7 (record {
        phase = check_context;
        node_map = node_map;
        world = (vxlan p, w);
        deeds = deeds;
      })
        ≡ record {
          phase = check_context;
          node_map = node_map;
          world = (vxlan p', w4);
          deeds = marked (node_map.cells cell).name ∷ wrote ∷ ensured ∷ began ∷ deeds;
        }
  unfolding controller_environment ensure_provider writer_beside
  round_steps p p' node_map cell deeds w w1 w2 w3 w4 me unavailable live provided wrote_it
        marked_it =
      steps_round environment _ cell
        (λ pod_cidr. beside (write_cni_config e.net_text replace_all files path pod_cidr))
        (vxlan p, w1) (vxlan p', w2) (vxlan p', w3) (vxlan p', w4) refl me unavailable refl
        (ap (λ (r : Option Error × W). (r.0, (vxlan p, r.1))) live)
        (ap (λ (r : Result {0} Unit × VxlanRoutingProvider × W). (r.0, (vxlan r.1, r.2))) provided)
        (beside_ok _ (vxlan p') w2 w3 wrote_it) (beside_ok _ (vxlan p') w3 w4 marked_it)

  module _ (file : W → String → Option String) (d : Disk files file) (l : Link)
      (route_table : W → String → Option Route) (neigh_table : W → String → Option Neigh)
      (routes_listed : Ensure.Lists e.net_text route_table e.routes (some l))
      (adding : Adds route_table (Planning.key e.net_text) e.routes.route_add)
      (deleting : Dels route_table (Planning.key e.net_text) e.routes.route_del)
      (neighs_listed : NeighEnsure.Lists e.ip_text neigh_table e.neighs l)
      (setting : Sets neigh_table (NeighEnsure.key e.ip_text) e.neighs.neigh_set)
      (apart : Apart e neigh_table)
      (elsewhere : Elsewhere files file d path mark route_table neigh_table) where
    -- Writing the configuration, and what it leaves.
    configured :
        (pod_cidr : Option IpNet) (w : W)
        → (w' : W) × (write_cni_config e.net_text replace_all files path pod_cidr w ≡ (ok tt, w'))
          × (held files path file w' ≡ expected_config e.net_text replace_all pod_cidr)
          × SameTables route_table neigh_table w w'
    configured pod_cidr w =
        let wanted = expected_config e.net_text replace_all pod_cidr in
        let run = write_cni_config_eq files path file e.net_text replace_all d pod_cidr w in
        let (done, text, others, again) =
          write_cni_config_lem files path file e.net_text replace_all d pod_cidr w in
        (
          _,
          run,
          ap (λ (r : Result {0} Unit × W). held files path file r.1) (sym run) ∙ text,
          elim (Bool-cases (held files path file w == wanted)) [
            | inl q ↦
                subst (SameTables route_table neigh_table w) (ground (arith, q))
                  ((λ k. refl), (λ k. refl))
            | inr q ↦
                subst (SameTables route_table neigh_table w) (ground (arith, q))
                  (elsewhere.stored path wanted w)
          ],
        )

    -- For the agent with the provider of vxlan that has its device, and with a path for the
    -- configuration of CNI: if the context is not done, the node map is ready, has moved on and knows
    -- the local node with an address and a network and not yet marked, and the kernel, the disk and
    -- the API server answer as they should, then one round of seven steps brings the controller back
    -- to the head of its loop, and after it the kernel's neighbours and routes are those that the
    -- peers ask for, the file has the text for the local network, the node was marked after all
    -- that, and the provider remembers the version.
    pub round-Settled :
        (p : VxlanRoutingProvider) (node_map : NodeMap) (cell : ℕ) (nodes : List NodeInfo)
        (cidr : IpNet) (address : Ip) (neighs : List Neigh) (deeds : List Deed) (w w1 : W)
        → p.link ≡ some l
        → node_map.me ≡ some cell
        → (node_map.cells cell).network_available ≡ false
        → snapshot e.range_nodes node_map ≡ (some (node_map.cells cell), nodes, node_map.version)
        → (node_map.cells cell).pod_cidr ≡ some cidr
        → (node_map.cells cell).address ≡ some address
        → is_applied node_map p.last_version_applied ≡ false
        → node_map.version ≢ 0
        → peer_neighs e l.attrs.index (peers (node_map.cells cell) nodes) ≡ ok neighs
        → Distinct (
            routes_by_text e.net_text
              (overlay_route e l.attrs.index)
              (peers (node_map.cells cell) nodes))
        → context_err w ≡ (none, w1)
        → let me = node_map.cells cell in
          (w' : W) × (steps environment 7 (record {
            phase = check_context;
            node_map = node_map;
            world = (vxlan p, w);
            deeds = deeds;
          })
            ≡ record {
              phase = check_context;
              node_map = node_map;
              world =
                  (vxlan (record p { link = some l; last_version_applied = node_map.version }), w');
              deeds = marked me.name ∷ wrote ∷ ensured ∷ began ∷ deeds;
            })
          × Settled e l route_table neigh_table (peers me nodes) neighs w1 w'
          × (held files path file w' ≡ expected_config e.net_text replace_all (some cidr))
    round-Settled p node_map cell nodes cidr address neighs deeds w w1 made me unavailable seen net4
          here fresh nonzero known distinct live =
        let info = node_map.cells cell in
        let p' : VxlanRoutingProvider = record p {
          link = some l;
          last_version_applied = node_map.version;
        } in
        let (w2, provided, settled, again) =
          ensure_cidrs-Settled e l route_table neigh_table routes_listed adding deleting
            neighs_listed setting apart p node_map info nodes cidr address neighs w1 made seen net4
            here fresh nonzero known distinct in
        let (w3, wrote_it, text, same3) = configured info.pod_cidr w2 in
        let (w4, marked_it, same4, kept) = elsewhere.marks info.name w3 in
        (
          w4,
          round_steps p p' node_map cell deeds w w1 w2 w3 w4 me unavailable live provided wrote_it
              marked_it,
          Settled-SameTables route_table neigh_table e l (peers info nodes) neighs w1 w3 w4
              (Settled-SameTables route_table neigh_table e l (peers info nodes) neighs w1 w2 w3
                settled same3)
              same4,
          held-file files path file w3 w4 kept
              ∙ text
              ∙ ap (expected_config e.net_text replace_all) net4,
        )
