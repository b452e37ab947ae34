-- ===== src/Storage/Account/Manager.antt =====
-- pkg/controller/storage/account/account.go: Reconcile and newSyncdeleter.
use provider_azure.Prelude.{ℕ, String, Option, none, some, if◌then◌else◌}
use provider_azure.Go.Errors.{Err, Result, ok, err}
use provider_azure.Go.Maps.{entries}
use provider_azure.Go.Effect.{Session}
use provider_azure.Go.Panic.{Outcome, returns}
use provider_azure.Vendor.{Vendor}
use provider_azure.Azure.Auth.{AuthEnv, AuthInfo, get_auth_info, index}
use provider_azure.Storage.Reconcile.{Reconciled, no_result}
use provider_azure.Storage.Account.{Account, AccountOperations}
use provider_azure.Storage.Account.Client.{AccountsClient, account_operations}
use provider_azure.Storage.Account.Controller.{
  AccountKube, Reconciler, fail_with, sync, delete, is_kube_not_found,
}

-- `Reconciler` of the package: the API server, what authentication calls, and the making of an
-- `AccountsClient` from a subscription and an authorizer.
pub record Manager (W A S F : Type 0) : Type 0 where
  pub kube : AccountKube W
  pub auth : AuthEnv W A S
  pub accounts_client : String → Option A → AccountsClient W F
  pub poll : ℕ

module _ {W A S F : Type 0} (m : Manager W A S F) ⦃v : Vendor⦄ where
  abbrev operations_for : Account → AuthInfo A → AccountOperations W
  operations_for b info = account_operations (record {
    client = m.accounts_client (index (entries info.content) "subscriptionId") info.authorizer;
    group_name = b.resource_group_name;
    account_name = b.external_name;
  })

  -- `newSyncdeleter`: an error, or what `delete` and `sync` work with.
  unfoldable pub new_syncdeleter : Account → W → Result (Reconciler W) × W
  unfolding get_auth_info
  new_syncdeleter b w =
      let (info, w') = get_auth_info m.auth b.references w in
      (
        elim (v.wrap info.error "cannot get auth information") [
          | some e ↦ err e
          | none ↦ ok (record { kube = m.kube; operations = operations_for b info; poll = m.poll })
        ],
        w',
      )

  abbrev connected : Account → Result (Reconciler W) × W → Outcome Reconciled × Session Account W
  connected b (err e, w) = fail_with m.kube e (record { object = b; world = w })
  connected b (ok r, w) = elim b.deletion_timestamp [
    | some _ ↦ delete r (record { object = b; world = w })
    | none ↦ sync r (record { object = b; world = w })
  ]

  abbrev initialized : (Account × Option Err) × W → Outcome Reconciled × Session Account W
  initialized ((b, some e), w) = (returns (no_result, some e), record { object = b; world = w })
  initialized ((b, none), w) = connected b (new_syncdeleter b w)

  -- The outcome and the world after it.
  abbrev read : Result Account × W → Outcome Reconciled × W
  read (err e, w) = (returns (no_result, if is_kube_not_found e then none else some e), w)
  read (ok b, w) = let (x, s) = initialized (m.kube.initialize b w) in (x, s.world)

  unfoldable pub reconcile : String → W → Outcome Reconciled × W
  unfolding new_syncdeleter sync delete
  reconcile name w = read (m.kube.get name w)
