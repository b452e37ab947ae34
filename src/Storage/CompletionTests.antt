-- ===== src/Storage/CompletionTests.antt =====
-- An account that is created, over a concrete Azure that answers by the world.
use provider_azure.Prelude.{ℕ, ◌+◌, ◌≡◌, refl, true, none, some, arith, nat_eq, if◌then◌else◌}
use provider_azure.Go.Errors.{Result, ok, err, detailed, int_code}
use provider_azure.Go.Effect.{Session}
use provider_azure.Go.Panic.{returns}
use provider_azure.Vendor.{available, reconcile_success}
use provider_azure.Vendor.Standard.{standard, standard-Documented}
use provider_azure.Azure.Convert.{is_not_found}
use provider_azure.Storage.Tests.{
  spec, creation, account, provisioned, creation_of_spec, account-Stores, some_ne_none,
}
use provider_azure.Storage.Reconcile.{requeue_in}
use provider_azure.Storage.Account.{Account, AccountOperations}
use provider_azure.Storage.Account.Controller.{Reconciler, sync}
use provider_azure.Storage.Account.Progress.{KeepsSpec}
use provider_azure.Storage.Account.Completion.{SentAs, Answers, start, again, sync-completes}
use provider_azure.Storage.Sdk.{AzureAccount}
use provider_azure.Storage.Convert.RoundTrip.{Stores}
use provider_azure.Storage.AccountTests.{session, kube, operations, text_differs}

-- An Azure that does not have the account in the world 0, has provisioned it in the world 10, and is
-- creating it in every other.
abbrev ongoing : AzureAccount
ongoing = record account {
  properties = some (record provisioned { provisioning_state = "Creating" });
}

abbrev answer : ℕ → Result AzureAccount
answer w =
    if nat_eq w 0
    then err (detailed (int_code 404))
    else if nat_eq w 10
    then ok account
    else ok ongoing

abbrev creating_operations : AccountOperations ℕ
creating_operations = record operations {
  create = λ p w. (ok ongoing, w + 1);
  get = λ w. (answer w, w + 1);
}

abbrev creator : Reconciler ℕ
creator = record { kube = kube; operations = creating_operations; poll = 60 }

kube-KeepsSpec : KeepsSpec kube
kube-KeepsSpec = record {
  updated = λ a b w w' h. ground arith;
  status_updated = λ a b w w' h. ground arith;
}

spec-SentAs : SentAs ⦃v = standard⦄ spec creation
spec-SentAs = record {
  sent = creation_of_spec;
  tags = some_ne_none _;
  distinct = (tt, tt);
  sku = tt;
  properties = tt;
}

ongoing-Stores : Stores creation ongoing
ongoing-Stores = record {
  identity = refl;
  kind = refl;
  location = refl;
  sku = refl;
  tags = refl;
  properties = refl;
}

missing_not_found : is_not_found (some (detailed (int_code 404))) ≡ true
unfolding is_not_found
missing_not_found = refl

-- The account while Azure is creating it.
abbrev started : Account
started = (sync creator ⦃v = standard⦄ session).1.object

abbrev ongoing_answers : Answers creator creation 1 "Creating"
ongoing_answers = record {
  account = ongoing;
  provisioned = record provisioned { provisioning_state = "Creating" };
  after_get = 2;
  got = refl;
  stores = ongoing-Stores;
  properties = refl;
  in_state = refl;
}

abbrev done_answers : Answers creator creation 10 "Succeeded"
done_answers = record {
  account = account;
  provisioned = provisioned;
  after_get = 11;
  got = refl;
  stores = account-Stores;
  properties = refl;
  in_state = refl;
}

abbrev waited : Session Account ℕ
waited = record {
  object = (sync creator ⦃v = standard⦄ (record { object = started; world = 1 })).1.object;
  world = 10;
}

sync-completes_example : sync creator ⦃v = standard⦄ waited ≡ (
  returns (requeue_in 60, none),
  record {
    object = record waited.object {
      conditions = record { ready = some available; synced = some reconcile_success };
    };
    world = 12;
  },
)
sync-completes_example =
    sync-completes creator ⦃v = standard⦄ standard-Documented kube-KeepsSpec spec creation
      spec-SentAs session waited (detailed (int_code 404)) 1 2 ongoing refl refl missing_not_found
      refl ongoing-Stores
      (again "Creating" 10 (start 1) ongoing_answers (text_differs "Creating" "Succeeded" refl))
      done_answers
