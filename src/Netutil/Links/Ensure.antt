-- ===== src/Netutil/Links/Ensure.antt =====
-- What `Links.Ensure` of pkg/routing/netutil/links.go makes of the kernel's links.
use networking.Prelude.{
  Bool, true, Option, none, some, List, [], String, ok, string_eq, if◌then◌else◌, is_some, ◌≡◌, ◌≢◌,
  arith, refl, ap, ◌∙◌, sym, subst,
}
use networking.Prelude.Dict.{Dict, lookup, Distinct, RangeOrder}
use networking.Netlink.{Link, LinkCalls}
use networking.Netutil.Kernel.{or_else, values, Keys, Dels-context, for_each-del}
use networking.Netutil.Diff.{when_some, missing, missing-Distinct, insert_all, insert_all-Distinct}
use networking.Netutil.Links.{
  index_actual_links, index_expected_links, create_list, kept_links, add_created, remove_links,
  create_links, ensure,
}
use networking.Netutil.Links.Compare.{
  name_of, add_created-values, create_list-values, kept_links-Distinct, act, gone, lacking, kept,
  lookup-act, lookup-gone, lookup-lacking, lookup-returned, gone-Keys, lacking-Keys, act-Distinct,
  wanted-Distinct,
}
use networking.Netutil.Links.Create.{LinkLaws, Created, Created-none, create_links-Created}

-- The same for `Ensure`, and whether the name has the prefix: a link that is expected and there stays
-- as it is, and is returned.
abbrev pub Ensured : Bool → Option Link → Option Link → Option Link → Option Link → Type 0
Ensured b (some e) (some old) out held' = (out ≡ some old) × (held' ≡ some old)
Ensured b (some e) none out held' = Created (some e) none out held'
Ensured b none held out held' = (out ≡ none) × (held' ≡ (if b then none else held))

Created-some :
    (e : Link) (o held held1 made out held' : Option Link)
    → o ≡ some e
    → held1 ≡ held
    → out ≡ made
    → Created o held1 made held'
    → Created (some e) held out held'
Created-some e none held held1 made out held' p q r c = absurd (cc)
Created-some e (some e') held held1 made out held' p q r (x, mine, there, body) =
    let same : e' ≡ e = cc in
    subst (λ z. Created (some z) held out held') same (x, r ∙ mine, there, body)

-- What holds for one name, from what its removal and its creation do.
Ensured-name :
    (b : Bool) (o held act r held1 d made held' out : Option Link)
    → ((e : Link) → o ≡ some e → b ≡ true)
    → act ≡ (if b then held else none)
    → r ≡ (if is_some o then none else act)
    → held1 ≡ (if is_some r then none else held)
    → d ≡ (if is_some act then none else o)
    → out ≡ or_else made (when_some o (λ e. act))
    → Created d held1 made held'
    → Ensured b o held out held'
Ensured-name b none held act r held1 d made held' out prefixed pa pr ph pd po c =
    let absent : d ≡ none = ground (arith, pd) in
    ground (arith, Created-none d held1 made held' absent c, pa, pr, ph, po)
Ensured-name b (some e) none act r held1 d made held' out prefixed pa pr ph pd po c =
    let free : act ≡ none = ground (arith, pa) in
    Created-some e d none held1 made out held' (ground (arith, pd, free)) (ground (arith, ph))
      (ground (arith, po, free)) c
Ensured-name b (some e) (some old) act r held1 d made held' out prefixed pa pr ph pd po c =
    let there : act ≡ some old = ground (arith, pa, prefixed e refl) in
    let absent : d ≡ none = ground (arith, pd, there) in
    ground (arith, Created-none d held1 made held' absent c, pr, ph, po, there)

module _ {W : Type 0} (has_prefix : String → String → Bool) (calls : LinkCalls W)
    (order : RangeOrder String Link) (table : W → String → Option Link)
    (laws : LinkLaws calls table) where
  -- A call that lists, deletes, and creates: the run of `Ensure` from its parts.
  ensure_run :
      (l expected made : List Link) (prefix : String) (w w1 w2 : W)
      → let act = index_actual_links has_prefix prefix [] l in
        let wanted = index_expected_links has_prefix [] expected in
        calls.link_list w ≡ (ok l, w)
        → remove_links has_prefix calls order (values (missing (order.range act) wanted)) w
          ≡ (ok tt, w1)
        → create_links has_prefix calls order (create_list has_prefix act (order.range wanted)) w1
          ≡ (ok made, w2)
        → ensure has_prefix calls order expected prefix w ≡ (
          ok (add_created has_prefix (kept_links has_prefix act [] (order.range wanted)) made),
          w2,
        )
  unfolding ensure
  ensure_run l expected made prefix w w1 w2 listing removing making =
      rw listing (rw removing (rw making refl))

  module _ (prefix : String) (expected : Dict String Link) (de : Distinct expected)
      (ke : Keys name_of expected)
      (prefixed : (k : String) (e : Link) → lookup k expected ≡ some e → has_prefix k prefix ≡ true)
      (w : W) (d : Dict String Link) (listing : calls.link_list w ≡ (ok (values d), w))
      (dd : Distinct d) (kd : Keys name_of d) (read : (k : String) → lookup k d ≡ table w k) where
    abbrev act_links : Dict String Link
    act_links = act has_prefix order prefix expected d de ke dd kd

    abbrev gone_links : Dict String Link
    gone_links = gone has_prefix order prefix expected d de ke dd kd

    abbrev lacking_links : Dict String Link
    lacking_links = lacking has_prefix order prefix expected d de ke dd kd

    abbrev kept_map : Dict String Link
    kept_map = kept has_prefix order prefix expected d de ke dd kd

    act_at : (k : String) → lookup k act_links ≡ (if has_prefix k prefix then table w k else none)
    act_at k =
        lookup-act has_prefix order prefix expected d de ke dd kd k
        ∙ ap (λ o. if has_prefix k prefix then o else none) (read k)

    gone_at :
        (k : String)
        → lookup k gone_links ≡ (if is_some (lookup k expected) then none else lookup k act_links)
    gone_at = lookup-gone has_prefix order prefix expected d de ke dd kd

    lacking_at :
        (k : String)
        → lookup k lacking_links
          ≡ (if is_some (lookup k act_links) then none else lookup k expected)
    lacking_at = lookup-lacking has_prefix order prefix expected d de ke dd kd

    gone_there : (k : String) (v : Link) → lookup k gone_links ≡ some v → table w k ≢ none
    gone_there k v p n = ground (arith, p, n, gone_at k, act_at k)

    lacking_free :
        (w1 : W)
        → ((k : String) → table w1 k ≡ (if is_some (lookup k gone_links) then none else table w k))
        → (k : String) (v : Link) → lookup k lacking_links ≡ some v
        → table w1 k ≡ none
    lacking_free w1 t1 k v p =
        ground (arith, p, t1 k, lacking_at k, gone_at k, act_at k, prefixed k v)

    abbrev Done : Dict String Link → W → Type 0
    Done m w' =
        (k : String)
        → Ensured (has_prefix k prefix) (lookup k expected) (table w k) (lookup k m) (table w' k)

    gone-lacking :
        (w1 w2 : W) (made : Dict String Link)
        → ((k : String) → table w1 k ≡ (if is_some (lookup k gone_links) then none else table w k))
        → Distinct made
        → ((k : String)
            → Created (lookup k lacking_links) (table w1 k) (lookup k made) (table w2 k))
        → Done (insert_all kept_map made) w2
    gone-lacking w1 w2 made t1 dm t2 k =
        Ensured-name (has_prefix k prefix) (lookup k expected) (table w k) (lookup k act_links)
          (lookup k gone_links) (table w1 k) (lookup k lacking_links) (lookup k made) (table w2 k)
          (lookup k (insert_all kept_map made)) (prefixed k) (act_at k) (gone_at k) (t1 k)
          (lacking_at k) (lookup-returned has_prefix order prefix expected d de ke dd kd made k dm)
          (t2 k)

    run_of :
        (w1 w2 : W) (made : Dict String Link)
        → Distinct made
        → Keys name_of made
        → remove_links has_prefix calls order (values gone_links) w ≡ (ok tt, w1)
        → create_links has_prefix calls order (values lacking_links) w1 ≡ (ok (values made), w2)
        → ensure has_prefix calls order (values expected) prefix w
          ≡ (ok (insert_all kept_map made), w2)
    run_of w1 w2 made dm km removing making =
        ensure_run (values d) (values expected) (values made) prefix w w1 w2 listing removing (
          subst (λ l. create_links has_prefix calls order l w1 ≡ (ok (values made), w2))
            (sym (create_list-values has_prefix act_links _)) making)
        ∙ ap (λ m. (ok m, w2)) (add_created-values has_prefix kept_map made dm km)

    links-Done :
        (m : Dict String Link) × (w' : W) × (ensure has_prefix calls order
            (values expected)
            prefix
            w
          ≡ (ok m, w'))
        × Distinct m
        × Done m w'
    unfolding remove_links
    links-Done =
        let da = act-Distinct has_prefix order prefix expected d de ke dd kd in
        let dw = wanted-Distinct has_prefix order prefix expected d de ke dd kd in
        let (w1, removing, t1) =
          for_each-del table name_of _
            (Dels-context table name_of "error removing link" calls.link_del laws.deleted)
            gone_links w (gone-Keys has_prefix order prefix expected d de ke dd kd)
            (missing-Distinct _ _ (order.range-Distinct _ da)) gone_there in
        let (made, w2, making, dm, km, t2) =
          create_links-Created has_prefix calls order table laws lacking_links w1
            (missing-Distinct _ _ (order.range-Distinct _ dw))
            (lacking-Keys has_prefix order prefix expected d de ke dd kd) (lacking_free w1 t1) in
        (
          insert_all kept_map made,
          w2,
          run_of w1 w2 made dm km removing making,
          insert_all-Distinct kept_map made (kept_links-Distinct has_prefix act_links [] _ tt),
          gone-lacking w1 w2 made t1 dm t2,
        )

  -- On a kernel that keeps one link for each name, for expected links of distinct names that have
  -- the prefix, `Ensure` succeeds. Afterwards an expected name has the link that it had before,
  -- unchanged even if another one was expected, or else the expected one; the other names with the
  -- prefix have no link; and the names without it have what they had. The returned map has the
  -- expected names only, each with the link that was there or with the index of the new one.
  pub links-Ensured :
      (expected : Dict String Link) (prefix : String) (w : W)
      → Distinct expected
      → Keys name_of expected
      → ((k : String) (e : Link) → lookup k expected ≡ some e → has_prefix k prefix ≡ true)
      → (m : Dict String Link) × (w' : W) × (ensure has_prefix calls order
            (values expected)
            prefix
            w
          ≡ (ok m, w'))
        × Distinct m
        × ((k : String)
            → Ensured
                (has_prefix k prefix)
                (lookup k expected)
                (table w k)
                (lookup k m)
                (table w' k))
  links-Ensured expected prefix w de ke prefixed =
      let (d, listing, dd, kd, read) = laws.listed w in
      links-Done prefix expected de ke prefixed w d listing dd kd read
