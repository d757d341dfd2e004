-- ===== src/Netutil/Links/Create.antt =====
-- What the loop of `Links.Ensure` over the links to create makes of the kernel's links.
use networking.Prelude.{
  ℕ, Bool, true, false, Option, none, some, List, [], ◌∷◌, String, ok, string_eq, ◌==◌,
  if◌then◌else◌, ◌≡◌, arith, refl, ap, ◌∙◌, subst,
}
use networking.Prelude.Dict.{Dict, lookup, Distinct, RangeOrder}
use networking.Netlink.{Link, LinkCalls}
use networking.Netutil.Kernel.{values, Keys, Keys-tail, lookup-cons, Dels}
use networking.Netutil.Links.{create_links}
use networking.Netutil.Links.Compare.{name_of, name_keyed}

-- The object as `LinkAdd` leaves it.
abbrev pub with_index : ℕ → Link → Link
with_index i l = record l { attrs = record l.attrs { index = i } }

-- The kernel keeps one link for each name. It lists its links; it makes a link whose name is free,
-- and writes the index of the new link into the object that it was given; it deletes a link.
pub record LinkLaws {W : Type 0} (calls : LinkCalls W) (table : W → String → Option Link)
    : Type 0 where
  pub listed :
      (w : W)
      → (d : Dict String Link) × (calls.link_list w ≡ (ok (values d), w))
        × Distinct d
        × Keys name_of d
        × ((k : String) → lookup k d ≡ table w k)
  pub added :
      (w : W) (l : Link)
      → table w l.attrs.name ≡ none
      → (x : Link) × (w' : W) × (calls.link_add l w ≡ (ok (with_index x.attrs.index l), w'))
        × (x.body ≡ l.body)
        × ((j : String) → table w' j ≡ (if l.attrs.name == j then some x else table w j))
  pub deleted : Dels table name_of calls.link_del

-- What becomes of a name: whether a link is expected for it, what the kernel held, what the
-- returned map holds, and what the kernel holds then.
abbrev pub Created : Option Link → Option Link → Option Link → Option Link → Type 0
Created none held out held' = (out ≡ none) × (held' ≡ held)
Created (some e) held out held' =
    (x : Link) × (out ≡ some (with_index x.attrs.index e)) × (held' ≡ some x) × (x.body ≡ e.body)

pub Created-none :
    (o held out held' : Option Link)
    → o ≡ none
    → Created o held out held'
    → (out ≡ none) × (held' ≡ held)
Created-none none held out held' h c = c
Created-none (some e) held out held' h c = absurd (cc)

-- A name in front of others, which do not have it.
Created-cons :
    (b : Bool) (e x : Link) (o held held1 out held' : Option Link)
    → x.body ≡ e.body
    → held1 ≡ (if b then some x else held)
    → (b ≡ true → o ≡ none)
    → Created o held1 out held'
    → Created
        (if b then some e else o)
        held
        (if b then some (with_index x.attrs.index e) else out)
        held'
Created-cons true e x o held held1 out held' body t alone c =
    (x, refl, (Created-none o held1 out held' (alone refl) c).1 ∙ t, body)
Created-cons false e x o held held1 out held' body t alone c =
    subst (λ z. Created o z out held') t c

module _ {W : Type 0} (has_prefix : String → String → Bool) (calls : LinkCalls W)
    (order : RangeOrder String Link) (table : W → String → Option Link)
    (laws : LinkLaws calls table) where
  create_links-cons :
      (e a : Link) (l others : List Link) (w w1 w2 : W)
      → calls.link_add e w ≡ (ok a, w1)
      → create_links has_prefix calls order l w1 ≡ (ok others, w2)
      → create_links has_prefix calls order (e ∷ l) w ≡ (ok (a ∷ others), w2)
  unfolding create_links
  create_links-cons e a l others w w1 w2 h r = rw (h, create_links, r) refl

  -- Making links whose names are free succeeds, and makes them all.
  pub create_links-Created :
      (d : Dict String Link) (w : W)
      → Distinct d
      → Keys name_of d
      → ((k : String) (e : Link) → lookup k d ≡ some e → table w k ≡ none)
      → (m : Dict String Link) × (w' : W) × (create_links has_prefix calls order (values d) w
          ≡ (ok (values m), w'))
        × Distinct m
        × Keys name_of m
        × ((k : String) → Created (lookup k d) (table w k) (lookup k m) (table w' k))
  unfolding create_links lookup
  create_links-Created [] w dd h free =
      ([], w, refl, tt, (λ k v p. absurd (ground (arith, p))), λ k. (refl, refl))
  create_links-Created ((j, e) ∷ d) w dd h free =
      let here = lookup-cons j e d in
      let same : e.attrs.name ≡ j = name_keyed j e (h j e here) in
      let (x, w1, run, body, t1) = laws.added w e (ap (table w) same ∙ free j e here) in
      let t1' : (k : String) → table w1 k ≡ (if j == k then some x else table w k) =
        subst (λ n. (k : String) → table w1 k ≡ (if n == k then some x else table w k)) same t1 in
      let (m, w2, ran, dm, km, t2) =
        create_links-Created d w1 dd.1 (Keys-tail name_of j e d dd h)
          (λ k v p. ground (arith, t1' k, dd.0, p, string_eq.same_iff j k, free k v)) in
      let made : Link = with_index x.attrs.index e in
      let named : name_of made ≡ some j = ap some same in
      (
        (j, made) ∷ m,
        w2,
        create_links-cons e made (values d) (values m) w w1 w2 run ran,
        ((Created-none (lookup j d) (table w1 j) (lookup j m) (table w2 j) dd.0 (t2 j)).0, dm),
        λ k v p. ground (arith, named, km k v, p, string_eq.same_iff j k),
        λ k.
            Created-cons (j == k) e x (lookup k d) (table w k) (table w1 k) (lookup k m)
              (table w2 k) body (t1' k) (λ q. ground (arith, dd.0, q, string_eq.same_iff j k))
              (t2 k),
      )
