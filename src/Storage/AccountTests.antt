-- ===== src/Storage/AccountTests.antt =====
-- The reconciler of storage accounts over a concrete Azure: the world counts the calls.
use provider_azure.Prelude.{
  ℕ, ◌+◌, ◌≡◌, refl, ◌≢◌, String, false, none, some, [], ◌∷◌, arith, eq_iff, ◌==◌,
}
use provider_azure.Go.Errors.{ok, err, message, kube_not_found}
use provider_azure.Go.Effect.{Session}
use provider_azure.Go.Panic.{returns, panics}
use provider_azure.Vendor.{available, reconcile_success, reconcile_error, deleting}
use provider_azure.Vendor.Standard.{standard, standard-Documented}
use provider_azure.Azure.Auth.{AuthEnv}
use provider_azure.Azure.Convert.{is_not_found}
use provider_azure.Storage.Tests.{
  spec, creation, account, provisioned, creation_of_spec, account-Stores, some_ne_none,
}
use provider_azure.Storage.Reconcile.{result_requeue, requeue_in}
use provider_azure.Storage.Account.{Account, AccountOperations}
use provider_azure.Storage.Account.Client.{AccountsClient, AccountHandle, NameAvailability}
use provider_azure.Storage.Account.Controller.{
  AccountKube, Reconciler, set_condition, update_status, sync, delete,
}
use provider_azure.Storage.Account.Manager.{Manager}
use provider_azure.Storage.Account.Lifecycle.{delete-refused, sync-settled}

abbrev object : Account
object = record {
  external_name = "acct";
  deletion_timestamp = none;
  finalizers = [];
  references = record { provider_config_ref = none; provider_ref = none };
  deletion_policy = "Delete";
  write_connection_secret_to_ref = none;
  resource_group_name = "rg";
  storage_account_spec = some spec;
  storage_account_status = none;
  conditions = record { ready = none; synced = none };
}

abbrev pub session : Session Account ℕ
session = record { object = object; world = 0 }

abbrev pub kube : AccountKube ℕ
kube = record {
  get = λ name w. (ok object, w + 1);
  initialize = λ a w. ((a, none), w);
  update = λ a w. (ok a, w + 1);
  update_status = λ a w. (ok a, w + 1);
  connection_secret_for = λ a. returns (record { name = "s"; namespace = "ns" });
  create_secret = λ r d w. (none, w + 1);
  update_secret = λ r d w. (none, w + 1);
  key_text = λ r. "ns/s";
}

-- An Azure that has the account and refuses to delete it.
abbrev pub operations : AccountOperations ℕ
operations = record {
  create = λ p w. (ok account, w + 1);
  update = λ p w. (ok account, w + 1);
  get = λ w. (ok account, w + 1);
  delete = λ w. (some (message "locked"), w + 1);
  is_account_name_available = λ n w. (none, w + 1);
  list_keys = λ w. (returns (ok (record { value = some "k" } ∷ [])), w + 1);
}

-- An Azure of which each call panics or fails.
abbrev broken : AccountOperations ℕ
broken = record {
  create = λ p w. (err (message "down"), w + 1);
  update = λ p w. (err (message "down"), w + 1);
  get = λ w. (err (message "down"), w + 1);
  delete = λ w. (some (message "down"), w + 1);
  is_account_name_available = λ n w. (some (message "down"), w + 1);
  list_keys = λ w. (panics, w + 1);
}

abbrev reconciler : Reconciler ℕ
reconciler = record { kube = kube; operations = operations; poll = 60 }

pub text_differs : (s t : String) → (s == t) ≡ false → s ≢ t
text_differs s t h = ground (arith, eq_iff s t)

abbrev orphan : Session Account ℕ
orphan = record session { object = record object { deletion_policy = "Orphan" } }

locked_found : is_not_found (some (message "locked")) ≡ false
unfolding is_not_found
locked_found = refl

delete-refused_example :
    ((delete reconciler ⦃v = standard⦄ session).0
      ≡ returns (
        result_requeue,
        (update_status kube
            (set_condition ⦃v = standard⦄ (reconcile_error (message "locked")) (record {
              object = (set_condition ⦃v = standard⦄ deleting session).1.object;
              world = 1;
            })).1).0,
      ))
    × (delete
          (record reconciler { kube = record kube { update = λ a w. (err kube_not_found, w) } })
          ⦃v = standard⦄
          session
        ≡ delete reconciler ⦃v = standard⦄ session)
delete-refused_example =
    delete-refused reconciler ⦃v = standard⦄ session (message "locked") 1 refl refl locked_found
      (λ a w. (err kube_not_found, w))

sync-settled_example : sync reconciler ⦃v = standard⦄ session ≡ (
  returns (requeue_in 60, none),
  record {
    object = record object {
      conditions = record { ready = some available; synced = some reconcile_success };
    };
    world = 2;
  },
)
sync-settled_example =
    sync-settled reconciler ⦃v = standard⦄ standard-Documented session spec creation account
      provisioned 1 refl creation_of_spec (some_ne_none _) (tt, tt) tt tt account-Stores refl refl
      refl

abbrev unavailable_name : NameAvailability
unavailable_name = record {
  name_available = some false;
  reason = "AlreadyExists";
  message = some "taken";
}

abbrev client : AccountsClient ℕ String
client = record {
  check_name_availability = λ n t w. (ok unavailable_name, w + 1);
  create = λ g n p w. (ok "future", w + 1);
  wait_for_completion = λ f w. (none, w + 1);
  result = λ f w. (ok account, w + 1);
  update = λ g n p w. (ok account, w + 1);
  get_properties = λ g n w. (ok account, w + 1);
  delete = λ g n w. (none, w + 1);
  list_keys = λ g n w. (ok none, w + 1);
}

abbrev handle : AccountHandle ℕ String
handle = record { client = client; group_name = "rg"; account_name = "acct" }

abbrev auth : AuthEnv ℕ String String
auth = record {
  get_provider = λ n w. (err (message "no such provider"), w + 1);
  get_secret = λ n ns w. (ok [], w + 1);
  track_usage = λ mg w. (none, w + 1);
  get_provider_config = λ n w. (err (message "no such config"), w + 1);
  extract_credentials = λ s w. (ok s, w);
  unmarshal = λ t. ok [];
  new_client_credentials_config = λ i s t. record {
    client_id = i;
    client_secret = s;
    tenant_id = t;
    aad_endpoint = "";
    resource = "";
  };
  authorizer = λ c w. (some c.client_id, none, w + 1);
}

abbrev manager : Manager ℕ String String String
manager = record { kube = kube; auth = auth; accounts_client = λ s a. client; poll = 60 }
