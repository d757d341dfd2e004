-- ===== src/Operator/Networking.antt =====
-- The type `Networking` of operator/api/v1alpha1/networking_types.go and its methods, over the types
-- of the declarative pattern and of apimachinery.
use networking.Prelude.{List, String, ◌≡◌, refl}

module _ (CommonSpec PatchSpec CommonStatus TypeMeta ObjectMeta ListMeta : Type 0) where
  pub record NetworkingSpec : Type 0 where
    pub common_spec : CommonSpec
    pub patch_spec : PatchSpec

  pub record NetworkingStatus : Type 0 where
    pub common_status : CommonStatus

  pub record Networking : Type 0 where
    pub type_meta : TypeMeta
    pub object_meta : ObjectMeta
    pub spec : NetworkingSpec
    pub status : NetworkingStatus

  pub record NetworkingList : Type 0 where
    pub type_meta : TypeMeta
    pub list_meta : ListMeta
    pub items : List Networking

  unfoldable pub component_name : Networking → String
  component_name o = "networking"

  unfoldable pub common_spec : Networking → CommonSpec
  common_spec o = o.spec.common_spec

  unfoldable pub patch_spec : Networking → PatchSpec
  patch_spec o = o.spec.patch_spec

  unfoldable pub get_common_status : Networking → CommonStatus
  get_common_status o = o.status.common_status

  unfoldable pub set_common_status : CommonStatus → Networking → Networking
  set_common_status s o = record o { status = record { common_status = s } }

  -- The status that was set is read back, the last one counts, and nothing else changes.
  pub get_common_status-set_common_status :
      (s t : CommonStatus) (o : Networking)
      → (get_common_status (set_common_status s o) ≡ s)
        × (set_common_status s (set_common_status t o) ≡ set_common_status s o)
        × (set_common_status (get_common_status o) o ≡ o)
        × (common_spec (set_common_status s o) ≡ common_spec o)
        × (patch_spec (set_common_status s o) ≡ patch_spec o)
  unfolding common_spec patch_spec get_common_status set_common_status
  get_common_status-set_common_status s t o = (refl, refl, refl, refl, refl)
