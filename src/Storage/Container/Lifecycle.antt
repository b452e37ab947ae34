-- ===== src/Storage/Container/Lifecycle.antt =====
-- What the reconciler of storage containers does over its methods.
use Prim.Native.String.{◌++◌}
use provider_azure.Prelude.{
  ℕ, String, ◌≡◌, refl, false, some, List, [], ◌∷◌, arith, eq_iff, ◌==◌, eq_refl,
}
use provider_azure.Go.Errors.{Err, storage_error, wrapped, kube_not_found, Result, ok, err}
use provider_azure.Go.Maps.{entries, Distinct}
use provider_azure.Go.Maps.Laws.{map_eq_refl}
use provider_azure.Go.Effect.{Session}
use provider_azure.Go.Panic.{returns}
use provider_azure.Vendor.{
  Vendor, Documented, contains, creating, deleting, available, reconcile_success, reconcile_error,
}
use provider_azure.Vendor.Standard.{standard, Documented-standard}
use provider_azure.Storage.Reconcile.{result_requeue, requeue_in}
use provider_azure.Storage.Container.{Container, ContainerOperations}
use provider_azure.Storage.Container.Controller.{
  Syncdeleter, set_condition, update_status, sync, create, update, delete, finalizer,
}
use provider_azure.Storage.Container.Manager.{Manager, account_name_of, new_syncdeleter}

module _ {W : Type 0} (csd : Syncdeleter W) ⦃v : Vendor⦄ where
  -- When the blob service answers a deletion by a `StorageError`, of any status code, 404 included,
  -- `delete` asks for another try, and it does not use `Update`, which alone could remove the
  -- finalizer at the API server.
  pub delete-storage_error :
      (s : Session Container W) (n : ℕ) (w : W)
      → s.object.deletion_policy ≡ "Delete"
      → csd.operations.delete s.world ≡ (some (storage_error n), w)
      → (u : Container → W → Result Container × W)
      → ((delete csd s).0 ≡ (
        result_requeue,
        (update_status csd.kube
            (set_condition
              (reconcile_error (storage_error n))
              (record { object = (set_condition deleting s).1.object; world = w })).1).0,
      ))
        × (delete (record csd { kube = record (csd.kube) { update = u } }) s ≡ delete csd s)
  unfolding delete
  delete-storage_error s n w p r u = (
    ground (arith, eq_iff s.object.deletion_policy "Delete"),
    ground (arith, eq_iff s.object.deletion_policy "Delete"),
  )

  -- If the API server has not stored the finalizer, no container is created in Azure: `create`
  -- returns an error and ends alike whatever the operations are.
  pub create-unstored :
      (s : Session Container W) (e : Err) (w : W) (o : ContainerOperations W)
      → csd.kube.update
          (record (s.object) {
            conditions = v.set_condition creating s.object.conditions;
            finalizers = v.add_finalizer finalizer s.object.finalizers;
          })
          s.world
        ≡ (err e, w)
      → ((create csd s).0 ≡ (result_requeue, v.wrap (some e) "failed to update container spec"))
        × (create (record csd { operations = o }) s ≡ create csd s)
  unfolding create
  create-unstored s e w o h = (ground arith, ground arith)

  -- Where Azure has the container with the access type and the metadata of the specification, `sync`
  -- only sets the status, to available and synced, and looks again after the poll interval.
  pub sync-in_sync :
      Documented v
      → (s : Session Container W) (w : W) → Distinct (entries s.object.metadata)
      → csd.operations.get s.world ≡ (ok (s.object.public_access_type, s.object.metadata), w)
      → sync csd s ≡ (
          let (x, t) = update_status csd.kube (record {
            object = record (s.object) {
              conditions = record { ready = some available; synced = some reconcile_success };
            };
            world = w;
          }) in
          ((requeue_in csd.poll, x), t))
  unfolding sync update
  sync-in_sync d s w k g = ground (
    arith,
    g,
    eq_refl s.object.public_access_type,
    map_eq_refl ◌==◌ s.object.metadata eq_refl k,
    Documented-standard d,
  )

remove_finalizer-contains :
    (f : String) (fs : List String) → contains f (standard.remove_finalizer f fs) ≡ false
remove_finalizer-contains f [] = refl
remove_finalizer-contains f (g ∷ fs) = ground (arith, remove_finalizer-contains f fs)

module _ {W K U : Type 0} (m : Manager W K U) ⦃v : Vendor⦄ (d : Documented v) where
  -- For a container that is being deleted and whose storage account does not exist any more,
  -- newSyncdeleter returns an error, and has stored the container without the finalizer.
  pub new_syncdeleter-account_gone :
      (c c' : Container) (name t : String) (w w1 w2 : W)
      → account_name_of c.references ≡ some name
      → c.deletion_timestamp ≡ some t
      → m.get_account name w ≡ (err kube_not_found, w1)
      → m.kube.update (record c { finalizers = v.remove_finalizer finalizer c.finalizers }) w1
        ≡ (ok c', w2)
      → (new_syncdeleter m (record { object = c; world = w }) ≡ (
        returns (err (wrapped ("failed to retrieve storage account: " ++ name) kube_not_found)),
        record { object = c'; world = w2 },
      ))
        × (contains finalizer (v.remove_finalizer finalizer c.finalizers) ≡ false)
  unfolding new_syncdeleter
  new_syncdeleter-account_gone c c' name t w w1 w2 n h g u = (
    ground (
      arith,
      n,
      h,
      g,
      u,
      d.wrap_error kube_not_found ("failed to retrieve storage account: " ++ name),
    ),
    rw (Documented-standard d) (remove_finalizer-contains finalizer c.finalizers),
  )
