-- ===== src/Operator/Setup.antt =====
-- `SetupWithManager` of operator/controllers/networking_controller.go and `main` of
-- operator/main.go: what the operator asks of controller-runtime and of the declarative pattern, in
-- order. Both libraries are parameters.
use networking.Prelude.{
  ℕ, Bool, true, false, List, [], ◌∷◌, String, Exec, Result, ok, err, fatal, ◌>>=◌, ◌>>◌,
}
use networking.Operator.{Object, rbac_mode_transform}

-- The arguments of `declarative.WithObjectTransform`, in the order in which they are given.
pub data Transform : Type 0 where
  -- `rbacModeTransform`, on the objects of a manifest
  items : (List Object → Result (List Object)) → Transform
  add_labels : List (String × String) → Transform
  apply_patches : Transform

-- `declarative.WithOwner`, `WithLabels` and `WithStatus` have one argument each in this code.
pub data DeclarativeOption : Type 0 where
  with_object_transform : Transform → DeclarativeOption
  with_owner with_labels with_status : DeclarativeOption

-- What the manager, the reconciler of the declarative pattern and the controller offer.
-- `Controller` is what `controller.New` returns.
pub record OperatorCalls (W Controller : Type 0) : Type 0 where
  pub addon_init : W → W
  pub reconciler_init : List DeclarativeOption → Exec W Unit
  pub new_controller : String → Exec W Controller
  -- `c.Watch` of the kind Networking
  pub watch_networking : Controller → Exec W Unit
  -- `declarative.WatchChildren`, and whether it is scoped to the namespace
  pub watch_children : Controller → Bool → Exec W Unit

unfoldable pub labels : List (String × String)
labels = ("k8s-app", "networking") ∷ []

unfoldable pub declarative_options : String → List DeclarativeOption
declarative_options rbac_mode =
    with_object_transform (items (rbac_mode_transform rbac_mode))
    ∷ with_object_transform (add_labels labels)
    ∷ with_owner
    ∷ with_labels
    ∷ with_status
    ∷ with_object_transform apply_patches
    ∷ []

module _ {W Controller : Type 0} (calls : OperatorCalls W Controller) where
  unfoldable pub watch_all : Controller → Exec W Unit
  watch_all c = do calls.watch_networking c; calls.watch_children c true

  -- `SetupWithManager`
  unfoldable pub setup_with_manager : String → Exec W Unit
  setup_with_manager rbac_mode w =
      (do
        calls.reconciler_init (declarative_options rbac_mode)
        c ← calls.new_controller "networking-controller"
        watch_all c)
        (calls.addon_init w)

-- The variables that the flags of `main` set.
pub record Flags : Type 0 where
  pub metrics_addr : String
  pub probe_addr : String
  pub enable_leader_election : Bool
  pub rbac_mode : String

unfoldable pub default_flags : Flags
default_flags = record {
  metrics_addr = ":8080";
  probe_addr = ":8081";
  enable_leader_election = false;
  rbac_mode = "reconcile";
}

-- `ctrl.Options`
pub record ManagerOptions : Type 0 where
  pub metrics_bind_address : String
  pub port : ℕ
  pub health_probe_bind_address : String
  pub leader_election : Bool
  pub leader_election_id : String
  pub leader_election_resource_lock : String

unfoldable pub manager_options : Flags → ManagerOptions
manager_options f = record {
  metrics_bind_address = f.metrics_addr;
  port = 9443;
  health_probe_bind_address = f.probe_addr;
  leader_election = f.enable_leader_election;
  leader_election_id = "networking.addons.kope.io";
  leader_election_resource_lock = "leases";
}

-- The manager, from `ctrl.NewManager` on.
pub record ManagerCalls (W Manager : Type 0) : Type 0 where
  pub new_manager : ManagerOptions → Exec W Manager
  pub add_healthz_check : Manager → String → Exec W Unit
  pub add_readyz_check : Manager → String → Exec W Unit
  pub start : Manager → Exec W Unit

-- How `main` ends: it returns, or `os.Exit` is called with the number.
pub data MainExit : Type 0 where
  returned : MainExit
  exited : ℕ → MainExit

-- An error is logged, and the process exits with 1.
unfoldable pub main_exit : Result {0} Unit → MainExit
main_exit (ok u) = returned
main_exit (err x) = exited 1
main_exit (fatal s) = exited 1

module _ {W Manager Controller : Type 0} (managers : ManagerCalls W Manager)
    (operator : Manager → OperatorCalls W Controller) where
  -- The calls of `main`, for the flags as they were parsed.
  unfoldable pub run_manager : Flags → Exec W Unit
  run_manager f = do
    mgr ← managers.new_manager (manager_options f)
    setup_with_manager (operator mgr) f.rbac_mode
    managers.add_healthz_check mgr "healthz"
    managers.add_readyz_check mgr "readyz"
    managers.start mgr

  -- `main`, where `parse` is that of the flags, which ends the process on a bad one.
  unfoldable pub operator_main : (W → W) → (Flags → Flags) → W → MainExit × W
  operator_main addon_init parse w =
      let (r, w') = run_manager (parse default_flags) (addon_init w) in (main_exit r, w')
