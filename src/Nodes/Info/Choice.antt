-- ===== src/Nodes/Info/Choice.antt =====
-- Which of a node's internal addresses `update` of pkg/routing/nodes.go takes.
use mathlib.Core.Logic.{∥∥₁_map}
use mathlib.Core.Path.{subst₂}
use mathlib.Core.List.Permᴰ
use mathlib.Core.List.{Perm, Permᴰ}
use networking.Prelude.{
  Bool, true, false, List, [], ◌∷◌, String, if◌then◌else◌, ◌≡◌, arith, refl, subst, sym, ◌∙◌,
}
use networking.Nodes.{NodeAddress, Node, Parsers}
use networking.Nodes.Info.{
  NodeInfo, is_internal, internal_ips, arrange, update_cidr, update_address, update_available,
  update,
}
use networking.Nodes.Info.Order.{sort_strings, sort_strings-perm}

-- One address is left alone, and it is sorted.
arrange_lem : (ips : List String) → arrange ips ≡ sort_strings ips
unfolding arrange sort_strings
arrange_lem [] = refl
arrange_lem (ip ∷ []) = refl
arrange_lem (ip ∷ jp ∷ ips) = ground arith

cons_if :
    (b : Bool) (x : String) {xs ys : List String}
    → Permᴰ xs ys
    → Permᴰ (if b then x ∷ xs else xs) (if b then x ∷ ys else ys)
cons_if true x p = Permᴰ.cons refl p
cons_if false x p = p

swap_if :
    (b c : Bool) (x y : String) (zs : List String)
    → Permᴰ
        (if b then x ∷ (if c then y ∷ zs else zs) else (if c then y ∷ zs else zs))
        (if c then y ∷ (if b then x ∷ zs else zs) else (if b then x ∷ zs else zs))
swap_if true true x y zs = Permᴰ.swap refl refl
swap_if true false x y zs = Permᴰ.refl (x ∷ zs)
swap_if false true x y zs = Permᴰ.refl (y ∷ zs)
swap_if false false x y zs = Permᴰ.refl zs

internal_ips-Permᴰ :
    (xs ys : List NodeAddress) → Permᴰ xs ys → Permᴰ (internal_ips xs) (internal_ips ys)
unfolding internal_ips
internal_ips-Permᴰ [] [] Permᴰ.nil = Permᴰ.nil
internal_ips-Permᴰ (a ∷ xs) (b ∷ ys) (Permᴰ.cons e p) =
    subst (λ c. Permᴰ (internal_ips (a ∷ xs)) (internal_ips (c ∷ ys))) e
      (cons_if (is_internal a.type_of) a.address (internal_ips-Permᴰ xs ys p))
internal_ips-Permᴰ (a ∷ b ∷ cs) (b' ∷ a' ∷ cs') (Permᴰ.swap e f) =
    subst₂ (λ c d. Permᴰ (internal_ips (a ∷ b ∷ cs)) (internal_ips (d ∷ c ∷ cs))) e f
      (swap_if (is_internal a.type_of) (is_internal b.type_of) a.address b.address
        (internal_ips cs))
internal_ips-Permᴰ xs ys (Permᴰ.trans {l₂ = cs} p q) =
    Permᴰ.trans (internal_ips-Permᴰ xs cs p) (internal_ips-Permᴰ cs ys q)

-- The result of `update` does not depend on the order in which the API lists the addresses.
pub update-perm :
    (net : Parsers) (n : NodeInfo) (src : Node) (xs : List NodeAddress)
    → Perm src.addresses xs
    → update net n src ≡ update net n (record src { addresses = xs })
unfolding update update_cidr update_address update_available
update-perm net n src xs p = cc (chosen)
  where
    chosen : arrange (internal_ips src.addresses) ≡ arrange (internal_ips xs)
    chosen =
        arrange_lem (internal_ips src.addresses)
        ∙ sort_strings-perm _ _ (∥∥₁_map p (internal_ips-Permᴰ src.addresses xs))
        ∙ sym (arrange_lem (internal_ips xs))
