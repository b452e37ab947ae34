-- ===== src/Storage/Container/Controller.antt =====
-- pkg/controller/storage/container/container.go: delete, sync, create and update of containers.
use provider_azure.Prelude.{ℕ, String, ◌||◌, not, Option, none, some, ◌==◌, if◌then◌else◌}
use provider_azure.Go.Errors.{Err, Result, ok, err}
use provider_azure.Go.Maps.{GoMap, map_eq}
use provider_azure.Go.Effect.{M, ◌>>=◌, ◌>>◌, pure, get_object, modify, call}
use provider_azure.Vendor.{
  Vendor, Condition, creating, deleting, available, reconcile_success, reconcile_error,
}
use provider_azure.Azure.Convert.{is_not_found}
use provider_azure.Managed.{kube_update}
use provider_azure.Storage.Reconcile.{Reconciled, no_result, result_requeue, requeue_in}
use provider_azure.Storage.Container.{Container, ContainerOperations}
use provider_azure.Storage.Container.Client.{is_not_found_error}

-- The API server where it works on containers.
pub record ContainerKube (W : Type 0) : Type 0 where
  pub get : String → W → Result Container × W
  pub initialize : Container → W → (Container × Option Err) × W
  pub update : Container → W → Result Container × W
  pub update_status : Container → W → Result Container × W

abbrev pub finalizer : String
finalizer = "finalizer.container.storage.azure.crossplane.io"

-- `containerSyncdeleter` with its `containerCreateUpdater`.
pub record Syncdeleter (W : Type 0) : Type 0 where
  pub kube : ContainerKube W
  pub operations : ContainerOperations W
  pub poll : ℕ

module _ {W : Type 0} ⦃v : Vendor⦄ where
  abbrev pub set_condition : Condition → M Container W (Unit {0})
  set_condition c = modify λ x. record x { conditions = v.set_condition c x.conditions }

  -- `SetConditions(xpv1.Available(), xpv1.ReconcileSuccess())`
  abbrev pub set_available : M Container W (Unit {0})
  set_available = set_condition available >> set_condition reconcile_success

module _ {W : Type 0} (kube : ContainerKube W) where
  abbrev pub update_status : M Container W (Option Err)
  update_status = kube_update kube.update_status

module _ {W : Type 0} (kube : ContainerKube W) ⦃v : Vendor⦄ where
  abbrev pub fail_with : Err → M Container W Reconciled
  fail_with e = do
    set_condition (reconcile_error e)
    x ← update_status kube
    pure (result_requeue, x)

module _ {W : Type 0} (csd : Syncdeleter W) ⦃v : Vendor⦄ where
  abbrev release : M Container W Reconciled
  release = do
    modify λ c. record c { finalizers = v.remove_finalizer finalizer c.finalizers }
    x ← kube_update csd.kube.update
    pure (no_result, x)

  abbrev deleted : Option Err → M Container W Reconciled
  deleted none = release
  deleted (some e) = if not (is_not_found (some e)) then fail_with csd.kube e else release

  unfoldable pub delete : M Container W Reconciled
  unfolding is_not_found
  delete = do
    set_condition deleting
    c ← get_object
    if c.deletion_policy == "Delete"
        then (do x ← call csd.operations.delete; deleted x)
        else release

  abbrev created : Option Err → M Container W Reconciled
  created (some e) = fail_with csd.kube e
  created none = do set_available; x ← update_status csd.kube; pure (no_result, x)

  abbrev finalizer_added : Option Err → M Container W Reconciled
  finalizer_added (some e) =
      pure (result_requeue, v.wrap (some e) "failed to update container spec")
  finalizer_added none = do
    c ← get_object
    x ← call (csd.operations.create c.public_access_type c.metadata)
    created x

  unfoldable pub create : M Container W Reconciled
  create = do
    set_condition creating
    modify λ c. record c { finalizers = v.add_finalizer finalizer c.finalizers }
    x ← kube_update csd.kube.update
    finalizer_added x

  abbrev updated : Option Err → M Container W Reconciled
  updated (some e) = fail_with csd.kube e
  updated none = do set_available; x ← update_status csd.kube; pure (requeue_in csd.poll, x)

  unfoldable pub update : String → GoMap String → M Container W Reconciled
  update access_type meta = do
    c ← get_object
    if not (access_type == c.public_access_type) || not (map_eq ◌==◌ meta c.metadata)
        then (do x ← call (csd.operations.update c.public_access_type c.metadata); updated x)
        else updated none

  abbrev synchronize : Result (String × GoMap String) → M Container W Reconciled
  synchronize (ok (access, meta)) = update access meta
  synchronize (err e) = if not (is_not_found_error e) then fail_with csd.kube e else create

  unfoldable pub sync : M Container W Reconciled
  unfolding create update is_not_found_error
  sync = do x ← call csd.operations.get; synchronize x
