-- ===== src/Netutil/Links/Compare.antt =====
-- The maps by name that `Links.Ensure` of pkg/routing/netutil/links.go compares.
use networking.Prelude.{
  Bool, Option, none, some, List, [], ◌∷◌, String, string_eq, if◌then◌else◌, is_some, ◌≡◌, arith,
  refl, ap, ◌∙◌, sym, subst, Option-cases, inl, inr,
}
use networking.Prelude.Dict.{
  Dict, lookup, insert, insert-Distinct, lookup-insert, Distinct, RangeOrder,
}
use networking.Netlink.{Link}
use networking.Netutil.Kernel.{or_else, values, Keys, Keys-tail, lookup-cons}
use networking.Netutil.Diff.{
  when_some, missing, lookup-missing, insert_all, lookup-insert_all, insert_all-Distinct,
}
use networking.Netutil.Links.{
  index_actual_links, index_expected_links, create_list, kept_links, add_created,
}

abbrev pub name_of : Link → Option String
name_of l = some l.attrs.name

pub name_keyed : (k : String) (v : Link) → name_of v ≡ some k → v.attrs.name ≡ k
name_keyed k v h = cc

module _ (has_prefix : String → String → Bool) where
  index_expected_links-values :
      (m d : Dict String Link)
      → Distinct d
      → Keys name_of d
      → index_expected_links has_prefix m (values d) ≡ insert_all m d
  unfolding index_expected_links insert_all
  index_expected_links-values m [] dd h = refl
  index_expected_links-values m ((k, v) ∷ d) dd h =
      let same : v.attrs.name ≡ k = name_keyed k v (h k v (lookup-cons k v d)) in
      ap (λ n. index_expected_links has_prefix (insert n v m) (values d)) same
      ∙ index_expected_links-values (insert k v m) d dd.1 (Keys-tail name_of k v d dd h)

  pub add_created-values :
      (m d : Dict String Link)
      → Distinct d
      → Keys name_of d
      → add_created has_prefix m (values d) ≡ insert_all m d
  unfolding add_created insert_all
  add_created-values m [] dd h = refl
  add_created-values m ((k, v) ∷ d) dd h =
      let same : v.attrs.name ≡ k = name_keyed k v (h k v (lookup-cons k v d)) in
      ap (λ n. add_created has_prefix (insert n v m) (values d)) same
      ∙ add_created-values (insert k v m) d dd.1 (Keys-tail name_of k v d dd h)

  index_actual_links-Distinct :
      (prefix : String) (m : Dict String Link) (l : List Link)
      → Distinct m
      → Distinct (index_actual_links has_prefix prefix m l)
  unfolding index_actual_links
  index_actual_links-Distinct prefix m [] dm = dm
  index_actual_links-Distinct prefix m (l ∷ rest) dm = ground (
    arith,
    index_actual_links-Distinct prefix (insert l.attrs.name l m) rest
        (insert-Distinct l.attrs.name l m dm),
    index_actual_links-Distinct prefix m rest dm,
  )

  lookup-index_actual_links :
      (prefix : String) (m d : Dict String Link) (k : String)
      → Distinct d
      → Keys name_of d
      → lookup k (index_actual_links has_prefix prefix m (values d))
        ≡ (if has_prefix k prefix then or_else (lookup k d) (lookup k m) else lookup k m)
  unfolding index_actual_links lookup
  lookup-index_actual_links prefix m [] k dd h = ground arith
  lookup-index_actual_links prefix m ((j, v) ∷ d) k dd h =
      let same : v.attrs.name ≡ j = name_keyed j v (h j v (lookup-cons j v d)) in
      ground (
        arith,
        same,
        lookup-index_actual_links prefix (insert v.attrs.name v m) d k dd.1
            (Keys-tail name_of j v d dd h),
        lookup-index_actual_links prefix m d k dd.1 (Keys-tail name_of j v d dd h),
        lookup-insert v.attrs.name k v m,
        dd.0,
        string_eq.same_iff j k,
      )

  pub create_list-values :
      (act m : Dict String Link) → create_list has_prefix act m ≡ values (missing m act)
  unfolding create_list missing
  create_list-values act [] = refl
  create_list-values act ((k, e) ∷ m) = elim (Option-cases (lookup k act)) [
    | inl p ↦ ground (arith, p, create_list-values act m)
    | inr (a, p) ↦ ground (arith, p, create_list-values act m)
  ]

  lookup-kept_links :
      (act ret m : Dict String Link) (k : String)
      → Distinct m
      → lookup k (kept_links has_prefix act ret m)
        ≡ or_else (when_some (lookup k m) (λ e. lookup k act)) (lookup k ret)
  unfolding kept_links lookup
  lookup-kept_links act ret [] k dm = refl
  lookup-kept_links act ret ((j, e) ∷ m) k dm = elim (Option-cases (lookup j act)) [
    | inl p ↦ ground (arith, p, lookup-kept_links act ret m k dm.1, dm.0, string_eq.same_iff j k)
    | inr (a, p) ↦ ground (
      arith,
      p,
      lookup-kept_links act (insert j a ret) m k dm.1,
      lookup-insert j k a ret,
      dm.0,
      string_eq.same_iff j k,
    )
  ]

  pub kept_links-Distinct :
      (act ret m : Dict String Link) → Distinct ret → Distinct (kept_links has_prefix act ret m)
  unfolding kept_links
  kept_links-Distinct act ret [] dr = dr
  kept_links-Distinct act ret ((j, e) ∷ m) dr = elim (Option-cases (lookup j act)) [
    | inl p ↦ ground (arith, p, kept_links-Distinct act ret m dr)
    | inr (a, p) ↦
        ground (arith, p, kept_links-Distinct act (insert j a ret) m (insert-Distinct j a ret dr))
  ]

-- The two maps that `Ensure` compares, for expected links of distinct names, and what it deletes and
-- creates.
module _ (has_prefix : String → String → Bool) (order : RangeOrder String Link) (prefix : String)
    (expected d : Dict String Link) (de : Distinct expected) (ke : Keys name_of expected)
    (dd : Distinct d) (kd : Keys name_of d) where
  abbrev pub act : Dict String Link
  act = index_actual_links has_prefix prefix [] (values d)

  abbrev pub wanted : Dict String Link
  wanted = index_expected_links has_prefix [] (values expected)

  abbrev pub gone : Dict String Link
  gone = missing (order.range act) wanted

  abbrev pub kept : Dict String Link
  kept = kept_links has_prefix act [] (order.range wanted)

  abbrev pub lacking : Dict String Link
  lacking = missing (order.range wanted) act

  pub act-Distinct : Distinct act
  act-Distinct = index_actual_links-Distinct has_prefix prefix [] (values d) tt

  pub wanted-Distinct : Distinct wanted
  wanted-Distinct =
      subst Distinct (sym (index_expected_links-values has_prefix [] expected de ke))
        (insert_all-Distinct [] expected tt)

  pub lookup-act : (k : String) → lookup k act ≡ (if has_prefix k prefix then lookup k d else none)
  unfolding lookup
  lookup-act k = ground (arith, lookup-index_actual_links has_prefix prefix [] d k dd kd)

  lookup-wanted : (k : String) → lookup k wanted ≡ lookup k expected
  unfolding lookup
  lookup-wanted k =
      ap (lookup k) (index_expected_links-values has_prefix [] expected de ke)
      ∙ lookup-insert_all k [] expected de
      ∙ ground arith

  pub lookup-gone :
      (k : String) → lookup k gone ≡ (if is_some (lookup k expected) then none else lookup k act)
  lookup-gone k = ground (
    arith,
    lookup-missing (order.range act) wanted k (order.range-Distinct act act-Distinct),
    order.lookup-range k act act-Distinct,
    lookup-wanted k,
  )

  pub lookup-lacking :
      (k : String) → lookup k lacking ≡ (if is_some (lookup k act) then none else lookup k expected)
  lookup-lacking k = ground (
    arith,
    lookup-missing (order.range wanted) act k (order.range-Distinct wanted wanted-Distinct),
    order.lookup-range k wanted wanted-Distinct,
    lookup-wanted k,
  )

  -- The returned map, once `made` has been created.
  pub lookup-returned :
      (made : Dict String Link) (k : String)
      → Distinct made
      → lookup k (insert_all kept made)
        ≡ or_else (lookup k made) (when_some (lookup k expected) (λ e. lookup k act))
  unfolding lookup
  lookup-returned made k dm = ground (
    arith,
    lookup-insert_all k kept made dm,
    lookup-kept_links has_prefix act [] (order.range wanted) k
        (order.range-Distinct wanted wanted-Distinct),
    order.lookup-range k wanted wanted-Distinct,
    lookup-wanted k,
  )

  pub gone-Keys : Keys name_of gone
  gone-Keys k v p = ground (arith, p, lookup-gone k, lookup-act k, kd k v)

  pub lacking-Keys : Keys name_of lacking
  lacking-Keys k v p = ground (arith, p, lookup-lacking k, ke k v)
