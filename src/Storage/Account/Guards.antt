-- ===== src/Storage/Account/Guards.antt =====
-- Guards of storage accounts: what is not called once a check has failed.
use Prim.Native.String.{◌++◌}
use provider_azure.Prelude.{String, ◌≡◌, ◌≢◌, true, Option, none, some, arith}
use provider_azure.Go.Errors.{Err, Result, ok, err, message, wrapped}
use provider_azure.Vendor.{Vendor, Documented}
use provider_azure.Vendor.Standard.{standard, Documented-standard}
use provider_azure.Azure.Auth.{get_auth_info}
use provider_azure.Storage.Sdk.{AccountCreateParameters}
use provider_azure.Storage.Account.{Account}
use provider_azure.Storage.Account.Client.{
  AccountsClient, AccountHandle, NameAvailability, create_account,
}
use provider_azure.Storage.Account.Manager.{Manager, reconcile}

module _ {W F : Type 0} (a : AccountHandle W F) ⦃v : Vendor⦄ (d : Documented v) where
  -- Unless Azure says that the name is available, `AccountHandle.Create` returns an error and does
  -- not start a creation: whatever the client's `Create` would do, it ends alike.
  pub create_account-taken :
      (params : AccountCreateParameters) (w : W) (r : NameAvailability) (w' : W)
      → a.client.check_name_availability
          (some a.account_name)
          (some "Microsoft.Storage/storageAccounts")
          w
        ≡ (ok r, w')
      → r.name_available ≢ some true
      → (c : String → String → AccountCreateParameters → W → Result F × W)
      → ((e : Err) × (create_account a params w ≡ (err e, w')))
        × (create_account (record a { client = record (a.client) { create = c } }) params w
            ≡ create_account a params w)
  unfolding create_account
  create_account-taken params w r w' h n c = rw (Documented-standard d) (
    (
      wrapped "failed to check account name availability"
          (message (r.reason ++ (" - " ++ standard.string r.message))),
      ground arith,
    ),
    ground arith,
  )

module _ {W A S F : Type 0} (m : Manager W A S F) ⦃v : Vendor⦄ (d : Documented v) where
  -- An account for which no credentials can be had is reconciled without a call to Azure's storage:
  -- whatever the clients of the storage API do, the end is the same.
  pub reconcile-unauthorized :
      (name : String) (w : W) (b : Account) (b' : Account) (w1 : W) (w2 : W) (e : Err)
      → m.kube.get name w ≡ (ok b, w1)
      → m.kube.initialize b w1 ≡ ((b', none), w2)
      → (get_auth_info m.auth b'.references w2).0.error ≡ some e
      → (f : String → Option A → AccountsClient W F)
      → reconcile (record m { accounts_client = f }) name w ≡ reconcile m name w
  unfolding reconcile
  reconcile-unauthorized name w b b' w1 w2 e g i h f =
      ground (arith, g, i, h, d.wrap_error e "cannot get auth information")
