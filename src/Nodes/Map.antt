-- ===== src/Nodes/Map.antt =====
-- `NodeMap` of pkg/routing/nodes.go. Its `NodeInfo`s are shared: `me` points at one of those that
-- the map points at, or at one that the map has dropped. So pointers are addresses of cells, and
-- `next` is the address that the next allocation takes. Each method holds the mutex from its start
-- to its end, so that methods do not interleave.
pub mod Invariant
pub mod View
pub mod Replace
pub mod Version
pub mod Stale
use networking.Prelude.{
  ℕ, zero, suc, ◌+◌, ◌%◌, ◌^◌, Bool, true, false, not, ◌||◌, Option, none, some, List, [], ◌∷◌,
  String, if◌then◌else◌, is_some, ◌==◌, nat_eq, string_eq, map,
}
use networking.Prelude.Dict.{Dict, lookup, insert, delete, RangeOrder}
use networking.Nodes.{Node, Parsers}
use networking.Nodes.Info.{NodeInfo, blank, update}

pub record NodeMap : Type 0 where
  pub me_predicate : Node → Bool
  pub ready : Bool
  pub nodes : Dict String ℕ
  pub version : ℕ
  pub me : Option ℕ
  pub cells : ℕ → NodeInfo
  pub next : ℕ

-- `NewNodeMap`
unfoldable pub new_node_map : (Node → Bool) → NodeMap
new_node_map me_predicate = record {
  me_predicate = me_predicate;
  ready = false;
  nodes = [];
  version = 0;
  me = none;
  cells = λ p. blank "";
  next = 0;
}

unfoldable pub is_version : NodeMap → ℕ → Bool
is_version m version = m.version == version

unfoldable pub is_ready : NodeMap → Bool
is_ready m = m.ready

unfoldable pub mark_ready : NodeMap → NodeMap
mark_ready m = record m { ready = true }

-- `m.version++` on a uint64
unfoldable pub bump : NodeMap → NodeMap
bump m = record m { version = (m.version + 1) % 2 ^ 64 }

unfoldable pub write : (ℕ → NodeInfo) → ℕ → NodeInfo → ℕ → NodeInfo
write cells p n q = if p == q then n else cells q

-- `removeNode`
unfoldable pub remove_node : NodeMap → String → NodeMap
remove_node m name = bump (record m { nodes = delete name m.nodes })

-- The entry of a name, allocated if there is none.
unfoldable pub find_or_add : NodeMap → String → NodeMap × ℕ × Bool
find_or_add m name = elim (lookup name m.nodes) [
  | some p ↦ (m, p, false)
  | none ↦ (
    record m {
      nodes = insert name m.next m.nodes;
      cells = write m.cells m.next (blank name);
      next = suc m.next;
    },
    m.next,
    true,
  )
]

-- `if m.me == nil { if m.mePredicate(src) { m.me = node } }`
unfoldable pub claim_me : NodeMap → ℕ → Node → NodeMap × Bool
claim_me m p src =
    if is_some m.me
    then (m, false)
    else if m.me_predicate src
    then (record m { me = some p }, true)
    else (m, false)

module _ (net : Parsers) where
  unfoldable pub update_node : NodeMap → Node → NodeMap × Bool
  update_node m src =
      let (m1, p, added) = find_or_add m src.name in
      let (n, updated) = update net (m1.cells p) src in
      let (m2, claimed) = claim_me (record m1 { cells = write m1.cells p n }) p src in
      let changed = added || updated || claimed in (if changed then bump m2 else m2, changed)

  -- The first loop of `ReplaceAllNodes`: the map, the names seen, and whether anything changed.
  unfoldable pub update_all :
      NodeMap → Dict String Bool → Bool → List Node → NodeMap × Dict String Bool × Bool
  update_all m names changed [] = (m, names, changed)
  update_all m names changed (src ∷ rest) =
      let (m', c) = update_node m src in
      update_all m' (insert src.name true names) (changed || c) rest

-- `names[k]`, where a missing key reads as false
unfoldable pub is_named : Dict String Bool → String → Bool
is_named names k = elim (lookup k names) [ some b ↦ b | none ↦ false ]

-- The second loop, over the keys of the map in the order that the run time takes.
unfoldable pub remove_stale : NodeMap → Dict String Bool → Bool → Dict String ℕ → NodeMap × Bool
remove_stale m names changed [] = (m, changed)
remove_stale m names changed ((k, p) ∷ rest) =
    remove_stale (if is_named names k then m else remove_node m k) names
      (changed || not (is_named names k)) rest

module _ (net : Parsers) (order : RangeOrder String ℕ) where
  unfoldable pub replace_all_nodes : NodeMap → List Node → NodeMap × Bool
  replace_all_nodes m srcs =
      let (m', names, changed) = update_all net m [] false srcs in
      remove_stale m' names changed (order.range m'.nodes)

-- `Snapshot`: the local node, all nodes and the version. Without a local node it is a zero
-- `NodeInfo`, and nil before the first list has come.
unfoldable pub snapshot : RangeOrder String ℕ → NodeMap → Option NodeInfo × List NodeInfo × ℕ
snapshot order m = if not m.ready then (none, [], 0) else (
  some (elim m.me [ none ↦ blank "" | some p ↦ m.cells p ]),
  map (λ (e : String × ℕ). m.cells e.1) (order.range m.nodes),
  m.version,
)
