-- ===== src/Operator.antt =====
-- `rbacModeTransform` of operator/controllers/networking_controller.go: which of the objects of a
-- manifest the operator goes on with.
pub mod Setup
pub mod Networking
use networking.Prelude.{
  Bool, false, not, ◌&&◌, ◌||◌, List, String, Result, ok, err, errorf, keep, In, In-keep,
  if◌then◌else◌, ◌==◌, string_eq, ◌≡◌, ◌≢◌, subst, sym, Bool-cases, ◌⊎◌, ◌↔◌, arith, refl, inl, inr,
}

-- `manifest.Object`, by its group, its kind and its text.
pub record Object : Type 0 where
  pub group : String
  pub kind : String
  pub text : String

unfoldable pub is_rbac : Object → Bool
is_rbac o =
    o.group == "rbac.authorization.k8s.io"
    && (o.kind == "ClusterRole"
        || o.kind == "ClusterRoleBinding"
        || o.kind == "Role"
        || o.kind == "RoleBinding")

-- The loop that fills `keepItems`.
unfoldable pub keep_items : List Object → List Object
keep_items = keep (λ o. not (is_rbac o))

-- `rbacModeTransform`, with `objects.Items` before and after.
unfoldable pub rbac_mode_transform : String → List Object → Result (List Object)
rbac_mode_transform mode items =
    if mode == "reconcile" || mode == ""
    then ok items
    else if mode == "ignore"
    then ok (keep_items items)
    else err (errorf "unknown rbac mode")

kept_as :
    (mode : String) (items kept : List Object)
    → rbac_mode_transform mode items ≡ ok kept
    → ((items ≡ kept) × (mode ≢ "ignore")) ⊎ ((keep_items items ≡ kept) × (mode ≡ "ignore"))
unfolding rbac_mode_transform
kept_as mode items kept h = elim (Bool-cases (mode == "ignore")) [
  | inl e ↦
      let ignore = (string_eq.same_iff mode "ignore").0 e in
      let run : rbac_mode_transform mode items ≡ ok (keep_items items) =
        subst (λ z. rbac_mode_transform z items ≡ ok (keep_items items)) (sym ignore) refl in
      inr (ground (arith, run, h), ignore)
  | inr e ↦
      inl (ground (arith, e, h), λ ignore. ground (arith, e, string_eq.same_iff mode "ignore"))
]

In-keep_items :
    (o : Object) (items : List Object)
    → In o (keep_items items) ↔ (In o items × (is_rbac o ≡ false))
unfolding keep_items
In-keep_items o items = ground (arith, In-keep (λ o. not (is_rbac o)) o items)

-- The transform succeeds exactly in three modes, and where it does, an object stays exactly if the
-- mode is not to ignore, or it is none of the four kinds of RBAC objects.
pub rbac_mode_transform_lem :
    (mode : String) (items kept : List Object)
    → rbac_mode_transform mode items ≡ ok kept
    → ((mode ≡ "reconcile") ⊎ ((mode ≡ "") ⊎ (mode ≡ "ignore")))
      × ((o : Object) → In o kept ↔ (In o items × ((mode ≡ "ignore") → is_rbac o ≡ false)))
unfolding rbac_mode_transform keep_items
rbac_mode_transform_lem mode items kept h =
    let r = string_eq.same_iff mode "reconcile" in
    let z = string_eq.same_iff mode "" in
    let g = string_eq.same_iff mode "ignore" in
    (
      ground (arith, r, z, g, h),
      λ o. elim (kept_as mode items kept h) [
        | inl (same, other) ↦
            subst (λ l. In o l ↔ (In o items × ((mode ≡ "ignore") → is_rbac o ≡ false))) same
              ((λ k. (k, λ m. absurd (other m))), (λ k. k.0))
        | inr (same, ignore) ↦
            subst (λ l. In o l ↔ (In o items × ((mode ≡ "ignore") → is_rbac o ≡ false))) same
              (
                (λ k. let (there, other) = (In-keep_items o items).0 k in (there, λ m. other)),
                (λ k. (In-keep_items o items).1 (k.0, k.1 ignore)),
              )
      ],
    )
