-- ===== src/Storage/ContainerTests.antt =====
-- The reconciler of storage containers over a concrete API server and blob service: the world counts
-- the calls.
use provider_azure.Prelude.{ℕ, ◌+◌, ◌≡◌, refl, String, true, none, some, [], ◌∷◌}
use provider_azure.Go.Errors.{ok, err, message, storage_error, kube_not_found}
use provider_azure.Go.Effect.{Session}
use provider_azure.Vendor.{reconcile_error, deleting}
use provider_azure.Vendor.Standard.{standard, standard-Documented}
use provider_azure.Managed.{no_details}
use provider_azure.Storage.Reconcile.{result_requeue}
use provider_azure.Storage.Account.{Account}
use provider_azure.Storage.Container.{Container, ContainerOperations}
use provider_azure.Storage.Container.Client.{
  ContainerUrl, BlobService, new_container_handle, container_operations,
}
use provider_azure.Storage.Container.Controller.{
  ContainerKube, Syncdeleter, set_condition, update_status, delete, finalizer,
}
use provider_azure.Storage.Container.Manager.{Manager, account_name_of, new_syncdeleter}
use provider_azure.Storage.Container.Lifecycle.{delete-storage_error}
use provider_azure.Storage.Container.Ownership.{Stored, new_syncdeleter-Stored}

abbrev container : Container
container = record {
  external_name = "box";
  deletion_timestamp = none;
  finalizers = [];
  owner_references = [];
  references = record { provider_config_ref = some "acct"; provider_ref = none };
  deletion_policy = "Delete";
  metadata = some (("team", "a") ∷ []);
  public_access_type = "blob";
  conditions = record { ready = none; synced = none };
}

abbrev session : Session Container ℕ
session = record { object = container; world = 0 }

abbrev kube : ContainerKube ℕ
kube = record {
  get = λ name w. (ok container, w + 1);
  initialize = λ a w. ((a, none), w);
  update = λ a w. (ok a, w + 1);
  update_status = λ a w. (ok a, w + 1);
}

-- A blob service that has the container, and cannot find it when it is to be deleted.
abbrev operations : ContainerOperations ℕ
operations = record {
  create = λ a m w. (none, w + 1);
  update = λ a m w. (none, w + 1);
  get = λ w. (ok ("blob", some (("team", "a") ∷ [])), w + 1);
  delete = λ w. (some (storage_error 404), w + 1);
}

abbrev syncdeleter : Syncdeleter ℕ
syncdeleter = record { kube = kube; operations = operations; poll = 60 }

delete-storage_error_example :
    ((delete syncdeleter ⦃v = standard⦄ session).0 ≡ (
      result_requeue,
      (update_status kube
          (set_condition ⦃v = standard⦄ (reconcile_error (storage_error 404)) (record {
            object = (set_condition ⦃v = standard⦄ deleting session).1.object;
            world = 1;
          })).1).0,
    ))
    × (delete
          (record syncdeleter { kube = record kube { update = λ a w. (err kube_not_found, w) } })
          ⦃v = standard⦄
          session
        ≡ delete syncdeleter ⦃v = standard⦄ session)
delete-storage_error_example =
    delete-storage_error syncdeleter ⦃v = standard⦄ session 404 1 refl refl
      (λ a w. (err kube_not_found, w))

-- The API server refuses updates.
abbrev read_only : Syncdeleter ℕ
read_only = record syncdeleter {
  kube = record kube { update = λ a w. (err (message "read-only"), w + 1) };
}

abbrev account : Account
account = record {
  external_name = "acct";
  deletion_timestamp = none;
  finalizers = [];
  references = record { provider_config_ref = none; provider_ref = none };
  deletion_policy = "Delete";
  write_connection_secret_to_ref = some (record { name = "s"; namespace = "ns" });
  resource_group_name = "rg";
  storage_account_spec = none;
  storage_account_status = none;
  conditions = record { ready = none; synced = none };
}

abbrev url : ContainerUrl ℕ
url = record {
  create = λ m a w. (none, w + 1);
  set_metadata = λ m w. (none, w + 1);
  set_access_policy = λ a w. (none, w + 1);
  get_properties = λ w. (err (storage_error 404), w + 1);
  delete = λ w. (none, w + 1);
}

abbrev service : BlobService ℕ String String
service = record {
  new_shared_key_credential = λ n k. ok n;
  parse = λ s. some s;
  new_container_url = λ k u n. url;
}

abbrev manager : Manager ℕ String String
manager = record {
  kube = kube;
  get_account = λ n w. (ok account, w + 1);
  get_secret = λ r w. (ok no_details, w + 1);
  service = service;
  as_owner = λ a. record { uid = a.external_name; block_owner_deletion = none };
  add_owner_reference = λ r rs. r ∷ rs;
  key_text = λ r. "ns/s";
  poll = 60;
}

-- The manager where the account is gone, and a container that is being deleted.
abbrev bereft : Manager ℕ String String
bereft = record manager { get_account = λ n w. (err kube_not_found, w + 1) }

abbrev dying : Container
dying = record container { deletion_timestamp = some "now"; finalizers = finalizer ∷ "other" ∷ [] }

abbrev ready : Syncdeleter ℕ
ready = record { kube = kube; operations = container_operations url; poll = 60 }

new_syncdeleter-Stored_example :
    (name : String) × (acct : Account) × (account_name_of container.references ≡ some name)
    × ((manager.get_account name 0).0 ≡ ok acct)
    × Stored manager acct 1 container ready (record container {
      owner_references = record { uid = "acct"; block_owner_deletion = some true } ∷ [];
    })
unfolding new_syncdeleter new_container_handle
new_syncdeleter-Stored_example =
    new_syncdeleter-Stored manager ⦃v = standard⦄ standard-Documented session
      (record {
        object = record container {
          owner_references = record { uid = "acct"; block_owner_deletion = some true } ∷ [];
        };
        world = 2;
      })
      ready refl
