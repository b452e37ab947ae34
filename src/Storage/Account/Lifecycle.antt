-- ===== src/Storage/Account/Lifecycle.antt =====
-- What the reconciler of storage accounts does over its methods.
use provider_azure.Prelude.{◌≡◌, refl, ◌≢◌, true, false, none, some, arith, eq_iff}
use provider_azure.Go.Errors.{Err, Result, ok}
use provider_azure.Go.Maps.{entries, Distinct}
use provider_azure.Go.Effect.{Session}
use provider_azure.Go.Panic.{returns}
use provider_azure.Vendor.{
  Vendor, Documented, deleting, available, reconcile_success, reconcile_error,
}
use provider_azure.Vendor.Standard.{Documented-standard}
use provider_azure.Azure.Convert.{is_not_found}
use provider_azure.Storage.Types.{StorageAccountSpec}
use provider_azure.Storage.Sdk.{AccountProperties, AzureAccount, AccountCreateParameters}
use provider_azure.Storage.Convert.ToSdk.{to_storage_account_create}
use provider_azure.Storage.Convert.Parts.{IsNormalSku, IsNormalProperties}
use provider_azure.Storage.Convert.RoundTrip.{
  Stores, new_storage_account_spec-to_storage_account_create,
}
use provider_azure.Storage.DeepEqual.{spec_eq_refl}
use provider_azure.Storage.Reconcile.{result_requeue, requeue_in}
use provider_azure.Storage.Account.{Account, AccountOperations}
use provider_azure.Storage.Account.Controller.{
  Reconciler, set_condition, update_status, sync, update, delete, deletes,
}

module _ {W : Type 0} (r : Reconciler W) ⦃v : Vendor⦄ where
  -- Where the deletion policy keeps the external resource, `delete` does not call Azure: its outcome
  -- is the same whatever the operations are.
  pub delete-orphan :
      (s : Session Account W) (o : AccountOperations W)
      → s.object.deletion_policy ≢ "Delete"
      → s.object.deletion_policy ≢ ""
      → delete (record r { operations = o }) s ≡ delete r s
  unfolding delete
  delete-orphan s o h n =
      ground (arith, eq_iff s.object.deletion_policy "Delete", eq_iff s.object.deletion_policy "")

  -- If Azure refuses the deletion, for another reason than that the account is not there, `delete`
  -- asks for another try, leaves the finalizers to the status update, and does not use `Update`,
  -- which alone could remove the finalizer at the API server.
  pub delete-refused :
      (s : Session Account W) (e : Err) (w : W)
      → deletes s.object.deletion_policy ≡ true
      → r.operations.delete s.world ≡ (some e, w)
      → is_not_found (some e) ≡ false
      → (u : Account → W → Result Account × W)
      → ((delete r s).0
          ≡ returns (
            result_requeue,
            (update_status r.kube
                (set_condition
                  (reconcile_error e)
                  (record { object = (set_condition deleting s).1.object; world = w })).1).0,
          ))
        × (delete (record r { kube = record (r.kube) { update = u } }) s ≡ delete r s)
  unfolding delete
  delete-refused s e w p c n u = (ground arith, ground arith)

  -- An account that Azure has is never created again: whatever `Create` would do, `sync` ends alike.
  pub sync-existing :
      (s : Session Account W) (a : AzureAccount) (w : W)
      → r.operations.get s.world ≡ (ok a, w)
      → (c : AccountCreateParameters → W → Result AzureAccount × W)
      → sync (record r { operations = record (r.operations) { create = c } }) s ≡ sync r s
  unfolding sync update
  sync-existing s a w g c = rw g refl

module _ {W : Type 0} (r : Reconciler W) ⦃v : Vendor⦄ (d : Documented v) where
  -- Once Azure has provisioned an account as its creation asked for, `sync` finds it in sync: it only
  -- sets the status, to available and synced, and looks again after the poll interval. The
  -- specification must have tags, of distinct keys, and no slice that is empty but not nil.
  pub sync-settled :
      (t : Session Account W) (s : StorageAccountSpec) (p : AccountCreateParameters)
      (a : AzureAccount) (q : AccountProperties) (w : W)
      → t.object.storage_account_spec ≡ some s
      → to_storage_account_create (some s) ≡ returns p
      → s.tags ≢ none
      → Distinct (entries s.tags)
      → IsNormalSku s.sku
      → IsNormalProperties s.properties
      → Stores p a
      → a.properties ≡ some q
      → q.provisioning_state ≡ "Succeeded"
      → r.operations.get t.world ≡ (ok a, w)
      → sync r t ≡ (
          let (x, u) = update_status r.kube (record {
            object = record (t.object) {
              conditions = record { ready = some available; synced = some reconcile_success };
            };
            world = w;
          }) in
          (returns (requeue_in r.poll, x), u))
  unfolding sync update
  sync-settled t s p a q w h c n k m o b e f g = ground (
    arith,
    h,
    e,
    g,
    new_storage_account_spec-to_storage_account_create d s p a c n m o b,
    spec_eq_refl s k,
    eq_iff q.provisioning_state "Succeeded",
    Documented-standard d,
  )
