-- ===== src/Netutil/Tests/Neighbours.antt =====
-- The theorem about pkg/routing/netutil/neigh_table.go at a table with one entry.
use networking.Prelude.{
  ℕ, some, List, [], ◌∷◌, String, ok, if◌then◌else◌, string_eq, ◌≡◌, arith, refl, Option-cases, inl,
  inr,
}
use networking.Prelude.Dict.{Dict, lookup, lookup-insert, RangeOrder}
use networking.Net.{Ip, bytes_equal}
use networking.Prelude.Int.{pos}
use networking.Netlink.{Neigh, Link, other_link, NeighCalls}
use networking.Netutil.Kernel.{or_else}
use networking.Netutil.Neighbours.{index_neigh, index_neighs, ensure}
use networking.Netutil.Neighbours.Ensure.{key, brought, Lists, ensure_brings}
use networking.Netutil.Tests.Kernel.{here, table, set, set-Sets}

abbrev pub text : Ip → String
text ip = if bytes_equal ip (10 ∷ 0 ∷ 0 ∷ 2 ∷ []) then "10.0.0.2" else "10.0.0.3"

abbrev calls : NeighCalls (List Neigh)
calls = record { neigh_list = λ link w. (ok w, w); neigh_set = set (key text) }

abbrev order : RangeOrder String Neigh
order = record { range = λ m. m; lookup-range = λ k m d. refl; range-Distinct = λ m d. d }

lookup-index_neigh :
    (k : String) (m : Dict String Neigh) (a : Neigh)
    → lookup k (index_neigh text m a) ≡ or_else (here (key text) a k) (lookup k m)
unfolding index_neigh here
lookup-index_neigh k m a = elim (Option-cases a.ip) [
  | inl e ↦ ground (arith, e)
  | inr (c, e) ↦ ground (arith, e, lookup-insert (text c) k a m)
]

pub lookup-index_neighs :
    (k : String) (m : Dict String Neigh) (l : List Neigh)
    → lookup k (index_neighs text m l) ≡ or_else (table (key text) l k) (lookup k m)
unfolding index_neighs table
lookup-index_neighs k m [] = refl
lookup-index_neighs k m (a ∷ l) =
    ground (arith, lookup-index_neighs k (index_neigh text m a) l, lookup-index_neigh k m a)

abbrev link : Link
link = record {
  type_of = "vxlan";
  attrs = record { index = 2; mtu = pos 1450; name = "vxlan1"; hardware_addr = []; flags = 0 };
  body = other_link;
}

listing : Lists text (table (key text)) calls link
unfolding lookup
listing = record { lists = λ w. (w, refl, λ k. ground (arith, lookup-index_neighs k [] w)) }

abbrev neigh : ℕ → Neigh
neigh state = record {
  link_index = 2;
  family = 2;
  state = state;
  type_of = 0;
  flags = 0;
  ip = some (10 ∷ 0 ∷ 0 ∷ 2 ∷ []);
  hardware_addr = 0x56 ∷ 0xa0 ∷ 10 ∷ 0 ∷ 0 ∷ 2 ∷ [];
}

ensure_brings_example :
    (w' : List Neigh) × (ensure text calls order link (neigh 0x80 ∷ []) (neigh 0x2 ∷ [])
      ≡ (ok tt, w'))
    × ((k : String)
        → table (key text) w' k
          ≡ brought
              (lookup k (index_neighs text [] (neigh 0x80 ∷ [])))
              (table (key text) (neigh 0x2 ∷ []) k))
ensure_brings_example =
    ensure_brings text calls order link (table (key text)) listing (set-Sets (key text))
      (neigh 0x80 ∷ []) (neigh 0x2 ∷ [])
