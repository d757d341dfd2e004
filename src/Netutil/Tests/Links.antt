-- ===== src/Netutil/Tests/Links.antt =====
-- A kernel that keeps links as a list, newest first, with one link for each name, and the theorem
-- about pkg/routing/netutil/links.go at it.
use text.Mathlib.Text.{starts_with}
use networking.Prelude.{
  true, none, some, Option, List, [], ◌∷◌, String, ok, err, errorf, string_eq, ◌≡◌, arith, refl, ap,
  subst, sym, ◌∙◌, Option-cases, inl, inr,
}
use networking.Prelude.Int.{pos}
use networking.Prelude.Dict.{Dict, lookup, Distinct, RangeOrder}
use networking.Netlink.{Link, LinkCalls, gretun, found}
use networking.Netutil.Kernel.{values}
use networking.Netutil.Links.{ensure}
use networking.Netutil.Links.Compare.{name_of}
use networking.Netutil.Links.Create.{with_index, LinkLaws}
use networking.Netutil.Links.Ensure.{Ensured, links-Ensured}
use networking.Netutil.Tests.Kernel.{here, table, set, del, del-Dels}

abbrev pub links_table : List Link → String → Option Link
links_table = table name_of

-- The links by their names, each once.
unfoldable pub by_name : List Link → Dict String Link
by_name [] = []
by_name (l ∷ w) =
    let rest = by_name w in
    elim (lookup l.attrs.name rest) [ none ↦ (l.attrs.name, l) ∷ rest | some a ↦ rest ]

lookup-by_name : (k : String) (w : List Link) → lookup k (by_name w) ≡ links_table w k
unfolding by_name lookup table here
lookup-by_name k [] = refl
lookup-by_name k (l ∷ w) = elim (Option-cases (lookup l.attrs.name (by_name w))) [
  | inl e ↦ ground (arith, e, lookup-by_name k w, string_eq.same_iff l.attrs.name k)
  | inr (a, e) ↦ ground (arith, e, lookup-by_name k w, string_eq.same_iff l.attrs.name k)
]

by_name-Distinct : (w : List Link) → Distinct (by_name w)
unfolding by_name lookup
by_name-Distinct [] = tt
by_name-Distinct (l ∷ w) = elim (Option-cases (lookup l.attrs.name (by_name w))) [
  | inl e ↦ ground (arith, e, by_name-Distinct w)
  | inr (a, e) ↦ ground (arith, e, by_name-Distinct w)
]

pub table-named :
    (w : List Link) (k : String) (v : Link) → links_table w k ≡ some v → name_of v ≡ some k
unfolding table here
table-named [] k v h = absurd (ground (arith, h))
table-named (l ∷ w) k v h = elim (Option-cases (links_table w k)) [
  | inl e ↦ ground (arith, e, h, string_eq.same_iff l.attrs.name k)
  | inr (a, e) ↦ ground (arith, e, h, table-named w k v)
]

-- A link as it is when it is up.
abbrev pub raised : Link → Link
raised l = record l { attrs = record l.attrs { flags = 1 } }

-- The new link gets the index 7.
abbrev pub link_calls : LinkCalls (List Link)
link_calls = record {
  link_list = λ w. (ok (values (by_name w)), w);
  link_by_name = λ name w. (found (links_table w name), w);
  link_add = λ l w. elim (links_table w l.attrs.name) [
    | none ↦ (ok (with_index 7 l), with_index 7 l ∷ w)
    | some a ↦ (err (errorf "file exists"), w)
  ];
  link_del = del name_of;
  link_set_up = λ l w. elim (links_table w l.attrs.name) [
    | none ↦ (err (errorf "no such device"), w)
    | some x ↦ set name_of (raised x) w
  ];
  link_set_hardware_addr = λ l mac w. (ok tt, w);
  link_set_mtu = λ l mtu w. (ok tt, w);
}

pub link_laws : LinkLaws link_calls links_table
unfolding table here
link_laws = record {
  listed = λ w. (
    by_name w,
    refl,
    by_name-Distinct w,
    λ k v h. table-named w k v (sym (lookup-by_name k w) ∙ h),
    λ k. lookup-by_name k w,
  );
  added = λ w l free. (
    with_index 7 l,
    with_index 7 l ∷ w,
    ground (arith, free),
    refl,
    λ j. ground (arith, free, string_eq.same_iff l.attrs.name j),
  );
  deleted = del-Dels name_of;
}

abbrev pub order : RangeOrder String Link
order = record { range = λ m. m; lookup-range = λ k m d. refl; range-Distinct = λ m d. d }

abbrev link_named : String → Link
link_named name = record {
  type_of = "gretap";
  attrs = record { index = 0; mtu = pos 0; name = name; hardware_addr = []; flags = 0 };
  body = gretun none none 255;
}

abbrev wanted : Dict String Link
wanted = ("k8s-a", link_named "k8s-a") ∷ []

abbrev before : List Link
before = link_named "k8s-b" ∷ link_named "eth0" ∷ []

is_wanted :
    (k : String) (e : Link) → lookup k wanted ≡ some e → ("k8s-a" ≡ k) × (link_named "k8s-a" ≡ e)
unfolding lookup
is_wanted k e h = ground (arith, h, string_eq.same_iff "k8s-a" k)

begins : starts_with "k8s-a" "k8s-" ≡ true
begins = refl

wanted-Distinct : Distinct wanted
unfolding lookup
wanted-Distinct = (refl, tt)

links-Ensured_example :
    (m : Dict String Link) × (w' : List Link) × (ensure starts_with link_calls order
        (values wanted)
        "k8s-"
        before
      ≡ (ok m, w'))
    × Distinct m
    × ((k : String)
        → Ensured
            (starts_with k "k8s-")
            (lookup k wanted)
            (links_table before k)
            (lookup k m)
            (links_table w' k))
links-Ensured_example =
    links-Ensured starts_with link_calls order links_table link_laws wanted "k8s-" before
      wanted-Distinct (λ k e h. let (p, q) = is_wanted k e h in ap name_of (sym q) ∙ ap some p)
      (λ k e h. subst (λ n. starts_with n "k8s-" ≡ true) (is_wanted k e h).0 begins)
