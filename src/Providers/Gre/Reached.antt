-- ===== src/Providers/Gre/Reached.antt =====
-- When the peers are reached over the tunnels of pkg/routing/gre/provider.go.
use networking.Prelude.{
  Bool, true, Option, none, some, List, In, String, string_eq, nat_eq, if◌then◌else◌, ◌≡◌, ◌∙◌, sym,
}
use networking.Prelude.Dict.{lookup}
use networking.Net.{IpNet}
use networking.Netlink.{Route, Link, gretun}
use networking.Netutil.Routes.{route_equal}
use networking.Nodes.Info.{NodeInfo}
use networking.Providers.Peers.{Peer}
use networking.Providers.Routed.{Routed}
use networking.Providers.Gre.{named_peers, tunnel, route_to}
use networking.Providers.Gre.Up.{IsUp}
use networking.Providers.Gre.Tunnels.{tunnels_by_name}
use networking.Providers.Gre.Built.{Built}

-- What a tunnel carries: it is the one that was there, whatever its ends are, or a new one between
-- the addresses of the two nodes.
abbrev pub Carries : Option Link → NodeInfo → Peer → Link → Type 0
Carries (some old) me p x = (x.attrs.index ≡ old.attrs.index) × (x.body ≡ old.body)
Carries none me p x = x.body ≡ gretun me.address (some p.address) 255

module _ {W : Type 0} (text : IpNet → String) (link_table : W → String → Option Link)
    (route_table : W → String → Option Route) where
  -- The peer has a tunnel that is up, and its network a route over that tunnel.
  abbrev pub Tunnelled : NodeInfo → W → W → Peer × String → Type 0
  Tunnelled me w w' (p, name) =
      (x : Link) × (link_table w' name ≡ some x)
      × IsUp x
      × Carries (link_table w name) me p x
      × Routed text (route_to x) route_table w' p

  -- A route that a peer's network has already is over the tunnel that the peer has already.
  abbrev pub Fits : W → Peer × String → Type 0
  Fits w (p, name) =
      (r : Route)
      → route_table w (text p.pod_cidr) ≡ some r
      → (a : Link) × (link_table w name ≡ some a) × (route_equal r (route_to a p) ≡ true)

module _ {W : Type 0} (text : IpNet → String) (has_prefix : String → String → Bool)
    (gre_type : String) (link_table : W → String → Option Link)
    (route_table : W → String → Option Route) where
  -- Every peer with a name for its tunnel is reached over it, and there is no other tunnel.
  abbrev pub AreTunnelled : NodeInfo → List Peer → W → W → Type 0
  AreTunnelled me ps w w' =
      ((q : Peer × String)
        → In q (named_peers ps)
        → Tunnelled text link_table route_table me w w' q)
      × ((k : String)
          → lookup k (tunnels_by_name gre_type me (named_peers ps)) ≡ none
          → link_table w' k ≡ (if has_prefix k "k8s-" then none else link_table w k))

pub Tunnel-Built :
    (me : NodeInfo) (gre_type : String) (q : Peer × String) (held out held' : Option Link)
    → Built (tunnel gre_type me q) held out held'
    → (a : Link) × (x : Link) × (out ≡ some a)
      × (held' ≡ some x)
      × IsUp x
      × (a.attrs.index ≡ x.attrs.index)
      × Carries held me q.0 x
unfolding tunnel
Tunnel-Built me gre_type q (some old) out held' (x, there, now, (up, index, body)) =
    (old, x, there, now, up, sym index, (index, body))
Tunnel-Built me gre_type q none out held' (a, x, there, now, up, index, body) =
    (a, x, there, now, up, sym index, body)

pub Built-kept :
    (e : Link) (held out held' : Option Link) (old : Link)
    → held ≡ some old
    → Built e held out held'
    → out ≡ some old
Built-kept e none out held' old h b = absurd (cc)
Built-kept e (some a) out held' old h (x, there, now, up) = there ∙ sym (cc)
