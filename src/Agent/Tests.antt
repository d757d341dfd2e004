-- ===== src/Agent/Tests.antt =====
-- The theorem about `findTargetLinks` of cmd/networking-agent at a host with two interfaces.
mod Round
use networking.Prelude.{
  ℕ, Bool, List, [], ◌∷◌, String, ok, err, Error, Exec, ◌≡◌, ◌⊎◌, ◌↔◌, refl, In, ◌==◌, ◌&&◌,
  string_eq,
}
use networking.Agent.Targets.{Interface, target_link_names, Chosen, target_link_names_lem}

abbrev has_prefix : String → String → Bool
has_prefix s prefix = (s == "eth0") && (prefix == "eth")

abbrev both : List Interface
both = record { name = "lo"; flags = 5 } ∷ record { name = "eth0"; flags = 3 } ∷ []

abbrev interfaces : Exec ℕ (List Interface)
interfaces w = (ok both, w)

target_link_names_lem_example :
    ((names : List String) × (target_link_names has_prefix interfaces "" 0 ≡ (ok names, 0))
      × ((n : String) → In n names ↔ Chosen has_prefix interfaces both n))
    ⊎ ((x : Error) × (target_link_names has_prefix interfaces "" 0 ≡ (err x, 0))
        × ((n : String) → ¬ Chosen has_prefix interfaces both n))
target_link_names_lem_example = target_link_names_lem has_prefix interfaces 0 0 both refl
