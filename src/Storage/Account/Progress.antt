-- ===== src/Storage/Account/Progress.antt =====
-- A storage account from the start of its creation to its end, over any number of reconciles.
use provider_azure.Prelude.{
  ◌≡◌, refl, ap, ◌∙◌, inl, inr, String, Bool-cases, Option-cases, ◌==◌, Option, none, some, List,
  [], ◌∷◌, arith,
}
use provider_azure.Go.Errors.{Err, Result, ok, err}
use provider_azure.Go.Effect.{Session}
use provider_azure.Go.Panic.{Outcome, returns, panics}
use provider_azure.Vendor.{Vendor, Condition, reconcile_success, reconcile_error}
use provider_azure.Managed.{ConnectionDetails, kube_update}
use provider_azure.Sql.Types.{SecretReference}
use provider_azure.Storage.Types.{StorageAccountSpec}
use provider_azure.Storage.Sdk.{AzureAccount}
use provider_azure.Storage.Convert.FromSdk.{new_storage_account_spec, new_storage_account_status}
use provider_azure.Storage.Account.{Account, AccountKey}
use provider_azure.Storage.Account.Controller.{
  AccountKube, Reconciler, set_condition, update_status, provisioning_state, endpoint_of,
  secret_data, secret_created, with_keys, secret_for, update_secret, synced, in_state, stored,
  sync_back,
}

-- What the API server answers to an update of the object or of its status has the specification
-- that it was given.
pub record KeepsSpec {W : Type 0} (k : AccountKube W) : Type 0 where
  pub updated :
      (a b : Account) (w w' : W)
      → k.update a w ≡ (ok b, w')
      → b.storage_account_spec ≡ a.storage_account_spec
  pub status_updated :
      (a b : Account) (w w' : W)
      → k.update_status a w ≡ (ok b, w')
      → b.storage_account_spec ≡ a.storage_account_spec

module _ {W : Type 0} where
  abbrev pub HasSpec : StorageAccountSpec → Session Account W → Type 0
  HasSpec s t = t.object.storage_account_spec ≡ some s

  kube_update-HasSpec :
      (f : Account → W → Result Account × W)
      → ((a b : Account) (w w' : W)
          → f a w ≡ (ok b, w')
          → b.storage_account_spec ≡ a.storage_account_spec)
      → (s : StorageAccountSpec) (t : Session Account W) → HasSpec s t
      → HasSpec s (kube_update f t).1
  kube_update-HasSpec f k s t h = by_answer (f t.object t.world) refl
    where
      by_answer : (o : Result Account × W) → f t.object t.world ≡ o → HasSpec s (kube_update f t).1
      by_answer (ok b, w) e = rw e (k t.object b t.world w e ∙ h)
      by_answer (err x, w) e = rw e h

module _ {W : Type 0} (r : Reconciler W) ⦃v : Vendor⦄ where
  secret_created-object :
      (ref : SecretReference) (d : ConnectionDetails) (x : Option Err) (t : Session Account W)
      → (secret_created r ref d x t).1.object ≡ t.object
  secret_created-object ref d none t = refl
  secret_created-object ref d (some e) t = ground arith

  with_keys-object :
      (ref : SecretReference) (p : Option String) (k : Outcome (Result (List AccountKey)))
      (t : Session Account W)
      → (with_keys r ref p k t).1.object ≡ t.object
  with_keys-object ref p panics t = refl
  with_keys-object ref p (returns (err e)) t = refl
  with_keys-object ref p (returns (ok [])) t = refl
  with_keys-object ref p (returns (ok (k ∷ ks))) t =
      let d = secret_data r p t.object k in
      let made = r.kube.create_secret ref d t.world in
      secret_created-object ref d made.0 (record t { world = made.1 })

  secret_for-object :
      (a : AzureAccount) (ref : Outcome SecretReference) (t : Session Account W)
      → (secret_for r a ref t).1.object ≡ t.object
  secret_for-object a panics t = refl
  secret_for-object a (returns ref) t = elim (Option-cases a.properties) [
    | inl e ↦ rw e refl
    | inr (p, e) ↦ rw e (
        let listed = r.operations.list_keys t.world in
        with_keys-object ref (endpoint_of r p) listed.0 (record t { world = listed.1 }))
  ]

  update_secret-object :
      (a : AzureAccount) (t : Session Account W) → (update_secret r a t).1.object ≡ t.object
  unfolding update_secret
  update_secret-object a t = secret_for-object a (r.kube.connection_secret_for t.object) t

  module _ (k : KeepsSpec r.kube) (s : StorageAccountSpec) where
    marked-HasSpec :
        (c : Condition) (t : Session Account W)
        → HasSpec s t
        → HasSpec s (update_status r.kube (set_condition c t).1).1
    marked-HasSpec c t h =
        kube_update-HasSpec r.kube.update_status k.status_updated s (set_condition c t).1 h

    synced-HasSpec :
        (o : Outcome (Option Err)) (t : Session Account W)
        → HasSpec s t
        → HasSpec s (synced r o t).1
    synced-HasSpec panics t h = h
    synced-HasSpec (returns (some e)) t h = marked-HasSpec (reconcile_error e) t h
    synced-HasSpec (returns none) t h = marked-HasSpec reconcile_success t h

    in_state-HasSpec :
        (a : AzureAccount) (o : Outcome String) (t : Session Account W)
        → HasSpec s t
        → HasSpec s (in_state r a o t).1
    in_state-HasSpec a panics t h = h
    in_state-HasSpec a (returns state) t h = elim (Bool-cases (state == "Succeeded")) [
      | inl e ↦ rw e (
          synced-HasSpec (update_secret r a t).0 (update_secret r a t).1
            (ap (λ (b : Account). b.storage_account_spec) (update_secret-object a t) ∙ h))
      | inr e ↦ rw e (marked-HasSpec reconcile_success t h)
    ]

    stored-HasSpec :
        (a : AzureAccount) (x : Option Err) (t : Session Account W)
        → HasSpec s t
        → HasSpec s (stored r a x t).1
    stored-HasSpec a (some e) t h = h
    stored-HasSpec a none t h =
        in_state-HasSpec a (provisioning_state a)
          (record t {
            object = record (t.object) {
              storage_account_status = new_storage_account_status (some a);
            };
          })
          h

    -- An account that reads back as the specification leaves it in place.
    pub sync_back-HasSpec :
        (a : AzureAccount) (t : Session Account W)
        → new_storage_account_spec (some a) ≡ some s
        → HasSpec s (sync_back r a t).1
    unfolding sync_back
    sync_back-HasSpec a t h =
        let u = record t {
          object = record (t.object) { storage_account_spec = new_storage_account_spec (some a) };
        } in
        let put = kube_update r.kube.update u in
        stored-HasSpec a put.0 put.1 (kube_update-HasSpec r.kube.update k.updated s u h)
