-- ===== src/Watcher/Snapshot.antt =====
-- What the providers see of the cluster that the watch follows: `Snapshot` of pkg/routing/nodes.go
-- after the rounds of pkg/watchers/nodecontroller.go.
use networking.Prelude.{
  ℕ, true, Option, some, List, [], ◌∷◌, String, ◌==◌, string_eq, ◌≡◌, arith, refl, sym, ap, subst,
  ◌∙◌, Option-cases, Bool-cases, inl, inr, In, map,
}
use networking.Prelude.Dict.{Dict, lookup, Distinct, RangeOrder}
use networking.Netutil.Kernel.{lookup-cons}
use networking.Nodes.{Node, Parsers}
use networking.Nodes.Info.{NodeInfo}
use networking.Nodes.Info.Update.{Reflects}
use networking.Nodes.Map.{NodeMap, is_ready, snapshot}
use networking.Nodes.Map.Invariant.{IsValid}
use networking.Nodes.Map.View.{view}
use networking.Watcher.Cluster.{Cluster, Follows, Tracks}

-- The entries of a map are what it looks up.
In-lookup : (k : String) (p : ℕ) (d : Dict String ℕ) → lookup k d ≡ some p → In (k, p) d
unfolding lookup
In-lookup k p [] h = absurd (ground (arith, h))
In-lookup k p ((j, q) ∷ d) h = elim (Bool-cases (j == k)) [
  | inl e ↦
      let same : j ≡ k = (string_eq.same_iff j k).0 e in
      let held : q ≡ p = ground (arith, e, h) in inl (ap (λ i. (i, q)) same ∙ ap (λ r. (k, r)) held)
  | inr e ↦ inr (In-lookup k p d (ground (arith, e, h)))
]

lookup-In :
    (k : String) (p : ℕ) (d : Dict String ℕ) → Distinct d → In (k, p) d → lookup k d ≡ some p
unfolding lookup
lookup-In k p [] u h = absurd h
lookup-In k p ((j, q) ∷ d) u (inl e) =
    subst (λ x. lookup x.0 ((j, q) ∷ d) ≡ some x.1) e (lookup-cons j q d)
lookup-In k p ((j, q) ∷ d) u (inr h) =
    ground (arith, lookup-In k p d u.1 h, u.0, string_eq.same_iff j k)

abbrev infos : NodeMap → Dict String ℕ → List NodeInfo
infos m d = map (λ (x : String × ℕ). m.cells x.1) d

In-infos :
    (m : NodeMap) (k : String) (p : ℕ) (d : Dict String ℕ)
    → In (k, p) d
    → In (m.cells p) (infos m d)
In-infos m k p [] h = absurd h
In-infos m k p (x ∷ d) (inl e) = inl (ap (λ y. m.cells y.1) e)
In-infos m k p (x ∷ d) (inr h) = inr (In-infos m k p d h)

infos-In :
    (m : NodeMap) (n : NodeInfo) (d : Dict String ℕ)
    → In n (infos m d)
    → (k : String) × (p : ℕ) × In (k, p) d × (m.cells p ≡ n)
infos-In m n [] h = absurd h
infos-In m n ((k, p) ∷ d) (inl e) = (k, p, inl refl, e)
infos-In m n ((k, p) ∷ d) (inr h) = let (j, q, there, e) = infos-In m n d h in (j, q, inr there, e)

module _ (net : Parsers) (order : RangeOrder String ℕ) (m : NodeMap) (v : IsValid m) where
  view-some :
      (k : String) (n : NodeInfo)
      → view m k ≡ some n
      → (p : ℕ) × (lookup k m.nodes ≡ some p) × (m.cells p ≡ n)
  unfolding view
  view-some k n h = elim (Option-cases (lookup k m.nodes)) [
    | inl e ↦ absurd (ground (arith, e, h))
    | inr (p, e) ↦ (p, e, ground (arith, e, h))
  ]

  some-view : (k : String) (p : ℕ) → lookup k m.nodes ≡ some p → view m k ≡ some (m.cells p)
  unfolding view
  some-view k p h = rw (h, view) refl

  Follows-some :
      (o : Option Node) (i : Option NodeInfo) (src : Node)
      → Follows net o i
      → o ≡ some src
      → (n : NodeInfo) × (i ≡ some n) × Reflects net src n
  Follows-some o i src f h = elim (Option-cases i) [
    | inl e ↦ absurd (subst (λ x. Follows net (some src) x) e (subst (λ x. Follows net x i) h f))
    | inr (n, e) ↦
        (n, e, subst (λ x. Follows net (some src) x) e (subst (λ x. Follows net x i) h f))
  ]

  some-Follows :
      (o : Option Node) (i : Option NodeInfo) (n : NodeInfo)
      → Follows net o i
      → i ≡ some n
      → (src : Node) × (o ≡ some src) × Reflects net src n
  some-Follows o i n f h = elim (Option-cases o) [
    | inl e ↦ absurd (subst (λ x. Follows net x (some n)) e (subst (λ x. Follows net o x) h f))
    | inr (src, e) ↦
        (src, e, subst (λ x. Follows net x (some n)) e (subst (λ x. Follows net o x) h f))
  ]

  -- If a valid node map is ready and follows a cluster, whatever the order of the run time: in a
  -- snapshot, every node of the cluster has a record of its name that is as the node asks, and
  -- every record is that of a node of the cluster.
  pub snapshot-Tracks :
      (c : Cluster)
      → Tracks net c m
      → is_ready m ≡ true
      → ((k : String) (src : Node)
          → c k ≡ some src
          → (n : NodeInfo) × In n (snapshot order m).1 × (n.name ≡ k) × Reflects net src n)
        × ((n : NodeInfo)
            → In n (snapshot order m).1
            → (src : Node) × (c n.name ≡ some src) × Reflects net src n)
  unfolding is_ready
  snapshot-Tracks c t ready =
      let entries = order.range m.nodes in
      let seen : (snapshot order m).1 ≡ infos m entries =
        unfold snapshot in ground (arith, ready) in
      (
        λ k src h.
            let (n, e, reflects) = Follows-some (c k) (view m k) src (t k) h in
            let (p, held, cell) = view-some k n e in
            let there =
              In-infos m k p entries
                (In-lookup k p entries (order.lookup-range k m.nodes v.distinct ∙ held)) in
            (
              n,
              subst (In n) (sym seen) (subst (λ x. In x (infos m entries)) cell there),
              sym (ap (λ x. x.name) cell) ∙ v.named k p held,
              reflects,
            ),
        λ n h.
            let (k, p, there, cell) = infos-In m n entries (subst (In n) seen h) in
            let held =
              sym (order.lookup-range k m.nodes v.distinct)
              ∙ lookup-In k p entries (order.range-Distinct m.nodes v.distinct) there in
            let name = sym (ap (λ x. x.name) cell) ∙ v.named k p held in
            let (src, known, reflects) =
              some-Follows (c k) (view m k) (m.cells p) (t k) (some-view k p held) in
            (src, ap c name ∙ known, subst (Reflects net src) cell reflects),
      )
