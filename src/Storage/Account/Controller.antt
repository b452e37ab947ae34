-- ===== src/Storage/Account/Controller.antt =====
-- pkg/controller/storage/account/account.go: the reconciler of storage accounts.

use Prim.Native.String.{◌++◌}
use provider_azure.Prelude.{
  ℕ, String, Bool, true, false, ◌||◌, not, Option, none, some, List, [], ◌∷◌, ◌==◌, ptr_eq,
  if◌then◌else◌,
}
use provider_azure.Go.Errors.{Err, message, kube_not_found, kube_already_exists, Result, ok, err}
use provider_azure.Go.Effect.{M, ◌>>=◌, ◌>>◌, pure, get_object, modify, call}
use provider_azure.Go.Panic.{Outcome, returns, panics, on_value}
use provider_azure.Vendor.{
  Vendor, Condition, creating, deleting, available, reconcile_success, reconcile_error,
}
use provider_azure.Azure.Convert.{is_not_found}
use provider_azure.Managed.{ConnectionDetails, kube_update}
use provider_azure.Sql.Types.{SecretReference}
use provider_azure.Storage.Sdk.{AccountProperties, AzureAccount}
use provider_azure.Storage.Convert.FromSdk.{new_storage_account_spec, new_storage_account_status}
use provider_azure.Storage.Convert.ToSdk.{to_storage_account_create, to_storage_account_update}
use provider_azure.Storage.DeepEqual.{spec_eq}
use provider_azure.Storage.Reconcile.{
  Reconciled, no_result, result_requeue, requeue_in, requeue_on_wait,
}
use provider_azure.Storage.Account.{Account, AccountKey, AccountOperations}

-- The API server, and crossplane-runtime where it works on an account: the initializer,
-- `resource.ConnectionSecretFor` and the text of a namespaced name.
pub record AccountKube (W : Type 0) : Type 0 where
  pub get : String → W → Result Account × W
  pub initialize : Account → W → (Account × Option Err) × W
  pub update : Account → W → Result Account × W
  pub update_status : Account → W → Result Account × W
  pub connection_secret_for : Account → Outcome SecretReference
  pub create_secret : SecretReference → ConnectionDetails → W → Option Err × W
  pub update_secret : SecretReference → ConnectionDetails → W → Option Err × W
  pub key_text : SecretReference → String

abbrev pub finalizer : String
finalizer = "finalizer.account.storage.azure.crossplane.io"

abbrev pub succeeded : String
succeeded = "Succeeded"

-- `account.ProvisioningState`, through the embedded pointer to the properties.
abbrev pub provisioning_state : AzureAccount → Outcome String
provisioning_state a = elim a.properties [ none ↦ panics | some p ↦ returns p.provisioning_state ]

abbrev is_already_exists : Err → Bool
is_already_exists kube_already_exists = true
is_already_exists _ = false

-- `kerrors.IsNotFound`
abbrev pub is_kube_not_found : Err → Bool
is_kube_not_found kube_not_found = true
is_kube_not_found _ = false

-- `case xpv1.DeletionDelete, "":`
abbrev pub deletes : String → Bool
deletes policy = policy == "Delete" || policy == ""

-- What `delete`, `sync` and the rest work with: the API server, the operations of the account's
-- handle, and the interval of the polls.
pub record Reconciler (W : Type 0) : Type 0 where
  pub kube : AccountKube W
  pub operations : AccountOperations W
  pub poll : ℕ

module _ {W : Type 0} ⦃v : Vendor⦄ where
  abbrev pub set_condition : Condition → M Account W (Unit {0})
  set_condition c = modify λ acct. record acct { conditions = v.set_condition c acct.conditions }

module _ {W : Type 0} (kube : AccountKube W) where
  abbrev pub update_status : M Account W (Option Err)
  update_status = kube_update kube.update_status

module _ {W : Type 0} (kube : AccountKube W) ⦃v : Vendor⦄ where
  abbrev pub fail_with : Err → M Account W (Outcome Reconciled)
  fail_with e = do
    set_condition (reconcile_error e)
    x ← update_status kube
    pure (returns (result_requeue, x))

module _ {W : Type 0} (r : Reconciler W) ⦃v : Vendor⦄ where
  -- `secret.Data[...EndpointKey] = []byte(to.String(acct.PrimaryEndpoints.Blob))`, if there is one.
  abbrev pub endpoint_of : AccountProperties → Option String
  endpoint_of p = elim p.primary_endpoints [ none ↦ none | some ep ↦ some (v.string ep.blob) ]

  abbrev pub secret_created :
      SecretReference → ConnectionDetails → Option Err → M Account W (Outcome (Option Err))
  secret_created ref secret none = pure (returns none)
  secret_created ref secret (some e) =
      if is_already_exists e
      then (do
        x ← call (r.kube.update_secret ref secret)
        pure (returns (v.wrap x ("failed to update secret: " ++ r.kube.key_text ref))))
      else pure (returns (v.wrap (some e) ("failed to create secret: " ++ r.kube.key_text ref)))

  abbrev pub secret_data : Option String → Account → AccountKey → ConnectionDetails
  secret_data endpoint acct key = record {
    endpoint = endpoint;
    username = some acct.external_name;
    password = some (v.string key.value);
    port = none;
  }

  abbrev pub with_keys :
      SecretReference
      → Option String
      → Outcome (Result (List AccountKey))
      → M Account W (Outcome (Option Err))
  with_keys ref endpoint panics = pure panics
  with_keys ref endpoint (returns (err e)) =
      pure (returns (v.wrap (some e) "failed to list account keys"))
  with_keys ref endpoint (returns (ok [])) =
      pure (returns (some (message "account keys are empty")))
  with_keys ref endpoint (returns (ok (key ∷ keys))) = do
    acct ← get_object
    let secret = secret_data endpoint acct key
    x ← call (r.kube.create_secret ref secret)
    secret_created ref secret x

  abbrev pub secret_for :
      AzureAccount → Outcome SecretReference → M Account W (Outcome (Option Err))
  secret_for acct panics = pure panics
  secret_for acct (returns ref) = elim acct.properties [
    | none ↦ pure panics
    | some p ↦ do keys ← call r.operations.list_keys; with_keys ref (endpoint_of p) keys
  ]

  unfoldable pub update_secret : AzureAccount → M Account W (Outcome (Option Err))
  update_secret acct = do a ← get_object; secret_for acct (r.kube.connection_secret_for a)

  abbrev pub synced : Outcome (Option Err) → M Account W (Outcome Reconciled)
  synced panics = pure panics
  synced (returns (some e)) = fail_with r.kube e
  synced (returns none) = do
    set_condition reconcile_success
    x ← update_status r.kube
    pure (returns (requeue_in r.poll, x))

  abbrev pub in_state : AzureAccount → Outcome String → M Account W (Outcome Reconciled)
  in_state acct panics = pure panics
  in_state acct (returns state) =
      if not (state == succeeded)
      then (do
        set_condition reconcile_success
        x ← update_status r.kube
        pure (returns (requeue_on_wait, x)))
      else (do x ← update_secret acct; synced x)

  abbrev pub stored : AzureAccount → Option Err → M Account W (Outcome Reconciled)
  stored acct (some e) = pure (returns (result_requeue, some e))
  stored acct none = do
    modify λ a. record a { storage_account_status = new_storage_account_status (some acct) }
    in_state acct (provisioning_state acct)

  unfoldable pub sync_back : AzureAccount → M Account W (Outcome Reconciled)
  unfolding update_secret
  sync_back acct = do
    modify λ a. record a { storage_account_spec = new_storage_account_spec (some acct) }
    x ← kube_update r.kube.update
    stored acct x

  abbrev pub sent : Result AzureAccount → M Account W (Outcome Reconciled)
  sent (err e) = fail_with r.kube e
  sent (ok acct) = sync_back acct

  unfoldable pub create : M Account W (Outcome Reconciled)
  unfolding sync_back
  create = do
    set_condition creating
    modify λ a. record a { finalizers = v.add_finalizer finalizer a.finalizers }
    a ← get_object
    on_value (to_storage_account_create a.storage_account_spec)
        λ params. do acct ← call (r.operations.create params); sent acct

  -- An account that Azure has provisioned.
  abbrev pub update_provisioned : AzureAccount → M Account W (Outcome Reconciled)
  update_provisioned account = do
    set_condition available
    a ← get_object
    if ptr_eq spec_eq (new_storage_account_spec (some account)) a.storage_account_spec
        then (do
          set_condition reconcile_success
          x ← update_status r.kube
          pure (returns (requeue_in r.poll, x)))
        else (on_value (to_storage_account_update a.storage_account_spec)
            λ params. do acct ← call (r.operations.update params); sent acct)

  unfoldable pub update : AzureAccount → M Account W (Outcome Reconciled)
  unfolding sync_back
  update account =
      on_value (provisioning_state account)
        λ state. if state == succeeded then update_provisioned account else sync_back account

  abbrev synchronize : Result AzureAccount → M Account W (Outcome Reconciled)
  synchronize (ok account) = update account
  synchronize (err e) = if not (is_not_found (some e)) then fail_with r.kube e else create

  unfoldable pub sync : M Account W (Outcome Reconciled)
  unfolding create update is_not_found
  sync = do account ← call r.operations.get; synchronize account

  -- The end of `delete`, common to the branches that succeed.
  abbrev release : M Account W (Outcome Reconciled)
  release = do
    modify λ a. record a { finalizers = v.remove_finalizer finalizer a.finalizers }
    x ← kube_update r.kube.update
    pure (returns (no_result, x))

  abbrev deleted : Option Err → M Account W (Outcome Reconciled)
  deleted none = release
  deleted (some e) = if not (is_not_found (some e)) then fail_with r.kube e else release

  unfoldable pub delete : M Account W (Outcome Reconciled)
  unfolding is_not_found
  delete = do
    set_condition deleting
    a ← get_object
    if deletes a.deletion_policy then (do x ← call r.operations.delete; deleted x) else release
