-- ===== src/Storage/Account/Completion.antt =====
-- The end that the creation of a storage account comes to.
use provider_azure.Prelude.{String, ◌≡◌, ◌≢◌, true, none, some, arith, eq_iff}
use provider_azure.Go.Errors.{Err, ok, err}
use provider_azure.Go.Maps.{entries, Distinct}
use provider_azure.Go.Effect.{Session}
use provider_azure.Go.Panic.{returns}
use provider_azure.Vendor.{Vendor, Documented, creating, available, reconcile_success}
use provider_azure.Azure.Convert.{is_not_found}
use provider_azure.Storage.Types.{StorageAccountSpec}
use provider_azure.Storage.Sdk.{AccountProperties, AzureAccount, AccountCreateParameters}
use provider_azure.Storage.Convert.ToSdk.{to_storage_account_create}
use provider_azure.Storage.Convert.FromSdk.{new_storage_account_spec}
use provider_azure.Storage.Convert.Parts.{IsNormalSku, IsNormalProperties}
use provider_azure.Storage.Convert.RoundTrip.{
  Stores, new_storage_account_spec-to_storage_account_create,
}
use provider_azure.Storage.Reconcile.{requeue_in}
use provider_azure.Storage.Account.{Account}
use provider_azure.Storage.Account.Controller.{
  Reconciler, finalizer, update_status, create, update, sync,
}
use provider_azure.Storage.Account.Lifecycle.{sync-settled}
use provider_azure.Storage.Account.Progress.{KeepsSpec, HasSpec, sync_back-HasSpec}

-- A specification with tags, of distinct keys, and with no slice that is empty but not nil, and what
-- it is sent as.
pub record SentAs ⦃v : Vendor⦄ (s : StorageAccountSpec) (p : AccountCreateParameters) : Type 0 where
  pub sent : to_storage_account_create (some s) ≡ returns p
  pub tags : s.tags ≢ none
  pub distinct : Distinct (entries s.tags)
  pub sku : IsNormalSku s.sku
  pub properties : IsNormalProperties s.properties

module _ {W : Type 0} (r : Reconciler W) (p : AccountCreateParameters) where
  -- Azure answers with the account that was asked for, in the state `state`.
  pub record Answers (w : W) (state : String) : Type 0 where
    pub account : AzureAccount
    pub provisioned : AccountProperties
    pub after_get : W
    pub got : r.operations.get w ≡ (ok account, after_get)
    pub stores : Stores p account
    pub properties : account.properties ≡ some provisioned
    pub in_state : provisioned.provisioning_state ≡ state

module _ {W : Type 0} (r : Reconciler W) ⦃v : Vendor⦄ where
  -- What an object can become by being reconciled while Azure has not provisioned the account yet,
  -- time and again; before each reconcile the world may change in any way.
  pub data Waited (p : AccountCreateParameters) (a : Account) : Session Account W → Type 0 where
    start : (w : W) → Waited p a (record { object = a; world = w })
    again :
        {t : Session Account W} (state : String) (w : W)
        → Waited p a t
        → Answers r p t.world state
        → state ≢ "Succeeded"
        → Waited p a (record { object = (sync r t).1.object; world = w })

  module _ (d : Documented v) (k : KeepsSpec r.kube) (s : StorageAccountSpec)
      (p : AccountCreateParameters) (sent : SentAs s p) where
    reads_back : (a : AzureAccount) → Stores p a → new_storage_account_spec (some a) ≡ some s
    reads_back a b =
        new_storage_account_spec-to_storage_account_create d s p a sent.sent sent.tags sent.sku
          sent.properties b

    created-HasSpec :
        (t : Session Account W) (e : Err) (w w' : W) (a : AzureAccount)
        → HasSpec s t
        → r.operations.get t.world ≡ (err e, w)
        → is_not_found (some e) ≡ true
        → r.operations.create p w ≡ (ok a, w')
        → Stores p a
        → HasSpec s (sync r t).1
    unfolding sync create
    created-HasSpec t e w w' a h g n c b =
        let asked = record t {
          object = record (t.object) {
            finalizers = v.add_finalizer finalizer t.object.finalizers;
            conditions = v.set_condition creating t.object.conditions;
          };
          world = w';
        } in
        let back = sync_back-HasSpec r k s a asked (reads_back a b) in
        rw g (rw n (rw h (rw (sent.sent) (rw c back))))

    waiting-HasSpec :
        (t : Session Account W) (state : String)
        → HasSpec s t
        → Answers r p t.world state
        → state ≢ "Succeeded"
        → HasSpec s (sync r t).1
    unfolding sync update
    waiting-HasSpec t state h b n =
        let back =
          sync_back-HasSpec r k s b.account (record t { world = b.after_get })
            (reads_back b.account b.stores) in
        rw (b.got)
          (rw (b.properties) (ground (arith, b.in_state, n, back, eq_iff state "Succeeded")))

    Waited-HasSpec :
        {o : Account} {t : Session Account W}
        → o.storage_account_spec ≡ some s
        → Waited p o t
        → HasSpec s t
    Waited-HasSpec h (start w) = h
    Waited-HasSpec h (again {t = t} state w o b n) =
        waiting-HasSpec t state (Waited-HasSpec h o) b n

    -- The creation of an account comes to its end. Suppose that Azure does not have the account and
    -- accepts what `sync` asks for, and that the API server keeps the specifications that it is given.
    -- However often the account is then reconciled while Azure answers with it as it was asked for and
    -- not yet provisioned, whatever else fails meanwhile: the reconcile that finds it provisioned, as
    -- it was asked for, only sets the status, to available and synced, and looks again after the poll
    -- interval. The specification must have tags, of distinct keys, and no slice that is empty but not
    -- nil.
    pub sync-completes :
        (t u : Session Account W) (e : Err) (w w' : W) (a : AzureAccount)
        → t.object.storage_account_spec ≡ some s
        → r.operations.get t.world ≡ (err e, w)
        → is_not_found (some e) ≡ true
        → r.operations.create p w ≡ (ok a, w')
        → Stores p a
        → Waited p (sync r t).1.object u
        → (b : Answers r p u.world "Succeeded")
        → sync r u ≡ (
            let (x, z) = update_status r.kube (record {
              object = record (u.object) {
                conditions = record { ready = some available; synced = some reconcile_success };
              };
              world = b.after_get;
            }) in
            (returns (requeue_in r.poll, x), z))
    sync-completes t u e w w' a h g n c m o b =
        sync-settled r d u s p b.account b.provisioned b.after_get
          (Waited-HasSpec (created-HasSpec t e w w' a h g n c m) o) sent.sent sent.tags
          sent.distinct sent.sku sent.properties b.stores b.properties b.in_state b.got
