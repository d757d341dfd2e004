-- ===== src/Nodes/Map/Version.antt =====
-- The version of a `NodeMap`, by which the providers see that something changed.
use mathlib.Core.Path.{fun_ext}
use networking.Prelude.{
  ℕ, ◌+◌, ◌%◌, ◌^◌, Bool, true, false, String, if◌then◌else◌, nat_eq, string_eq, ◌≡◌, ◌≢◌, ◌↔◌,
  arith, ap,
}
use networking.Nodes.{Node, Parsers}
use networking.Nodes.Info.{NodeInfo, update}
use networking.Nodes.Info.Update.{update_quiet}
use networking.Nodes.Map.{NodeMap, bump, write, find_or_add, claim_me, update_node}

write_same : (cells : ℕ → NodeInfo) (p : ℕ) (n : NodeInfo) → n ≡ cells p → write cells p n ≡ cells
unfolding write
write_same cells p n e = fun_ext λ q. ground arith

version-find_or_add : (m : NodeMap) (name : String) → (find_or_add m name).0.version ≡ m.version
unfolding find_or_add
version-find_or_add m name = ground arith

find_or_add_quiet :
    (m : NodeMap) (name : String) → (find_or_add m name).2 ≡ false → (find_or_add m name).0 ≡ m
unfolding find_or_add
find_or_add_quiet m name h = ground arith

claim_me_quiet :
    (m : NodeMap) (p : ℕ) (src : Node) → (claim_me m p src).1 ≡ false → (claim_me m p src).0 ≡ m
unfolding claim_me
claim_me_quiet m p src h = ground arith

version-claim_me : (m : NodeMap) (p : ℕ) (src : Node) → (claim_me m p src).0.version ≡ m.version
unfolding claim_me
version-claim_me m p src = ground arith

version-if_bump :
    (c : Bool) (m : NodeMap)
    → (if c then bump m else m).version ≡ (if c then (m.version + 1) % 2 ^ 64 else m.version)
unfolding bump
version-if_bump c m = ground arith

module _ (net : Parsers) (m : NodeMap) (src : Node) where
  version-update_node :
      (update_node net m src).0.version
      ≡ (if (update_node net m src).1 then (m.version + 1) % 2 ^ 64 else m.version)
  unfolding update_node
  version-update_node =
      rw version-if_bump (rw version-claim_me (rw (version-find_or_add m src.name)))

  pub update_node_quiet : (update_node net m src).1 ≡ false → (update_node net m src).0 ≡ m
  unfolding update_node
  update_node_quiet h =
      let (m1, p, added) = find_or_add m src.name in
      let n = (update net (m1.cells p) src).0 in
      let m2 = record m1 { cells = write m1.cells p n } in
      ground (
        arith,
        find_or_add_quiet m src.name,
        update_quiet net src (m1.cells p),
        write_same m1.cells p n,
        claim_me_quiet m2 p src,
      )

  -- `updateNode` reports a change exactly if it changes something, and takes a new version exactly
  -- then; a report of no change leaves the version.
  pub update_node_changed :
      (((update_node net m src).1 ≡ true) ↔ ((update_node net m src).0 ≢ m))
      × ((update_node net m src).0.version
          ≡ (if (update_node net m src).1 then (m.version + 1) % 2 ^ 64 else m.version))
  update_node_changed = (
    (
      λ h e. absurd (ground (arith, version-update_node, ap (λ (m : NodeMap). m.version) e)),
      λ h. ground (arith, update_node_quiet),
    ),
    version-update_node,
  )
