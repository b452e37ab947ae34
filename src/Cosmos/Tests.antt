-- ===== src/Cosmos/Tests.antt =====
-- An account with a staleness bound, which Azure has as it was sent: the world counts the calls.
use provider_azure.Prelude.{ℕ, ◌+◌, ◌≡◌, refl, ◌↔◌, Bool, true, false, none, some, [], ◌∷◌, arith}
use provider_azure.Go.Errors.{ok}
use provider_azure.Vendor.Standard.{standard, standard-Documented}
use provider_azure.Azure.Convert.{to_bool}
use provider_azure.Go.Panic.{returns}
use provider_azure.Managed.{no_observation}
use provider_azure.Cosmos.{AccountProperties, CosmosAccount, AzureProperties, DatabaseAccount}
use provider_azure.Cosmos.Properties.{to_database_properties}
use provider_azure.Cosmos.Controller.{AccountClient, observed, observe_account}
use provider_azure.Cosmos.InSync.{Applied, Unlimited, observe_account-sent}

abbrev properties : AccountProperties
properties = record {
  consistency_policy = some (record {
    default_consistency_level = "BoundedStaleness";
    max_staleness_prefix = some (record { address = 1; pointee = 100 });
    max_interval_in_seconds = none;
  });
  locations =
      some
        (record { location_name = "west"; failover_priority = 0; is_zone_redundant = false } ∷ []);
  database_account_offer_type = "Standard";
  ip_range_filter = none;
  enable_automatic_failover = some true;
  enable_multiple_write_locations = some true;
  enable_cassandra_connector = none;
}

abbrev account : CosmosAccount
account = record {
  external_name = "docs";
  for_provider = record {
    resource_group_name = "rg";
    kind = "GlobalDocumentDB";
    location = "west";
    properties = properties;
    tags = none;
  };
  at_provider = none;
  conditions = record { ready = none; synced = none };
}

abbrev azure_properties : AzureProperties
azure_properties = record {
  provisioning_state = some "Succeeded";
  consistency_policy = some (record {
    default_consistency_level = "BoundedStaleness";
    max_staleness_prefix = some (record { address = 2; pointee = 100 });
    max_interval_in_seconds = none;
  });
  read_locations = some (
      record {
        location_name = some "west";
        failover_priority = some 0;
        is_zone_redundant = some false;
      }
      ∷ []);
  database_account_offer_type = "Standard";
  enable_automatic_failover = some true;
  enable_cassandra_connector = none;
  enable_multiple_write_locations = some true;
}

abbrev azure_account : DatabaseAccount
azure_account = record { id = some "id"; properties = azure_properties }

abbrev client : AccountClient ℕ
client = record {
  check_name_exists = λ n w. ((some 200, none), w + 1);
  get = λ g n w. (ok azure_account, w + 1);
  create_or_update = λ g n p w. (none, w + 1);
  delete = λ g n w. (none, w + 1);
}

applied : Applied (to_database_properties ⦃v = standard⦄ properties) azure_properties
unfolding to_database_properties
applied = record {
  consistency_policy = (refl, (refl, λ h. absurd (omega arith)), tt);
  locations = refl;
  failover = refl;
  multiple_writes = refl;
}

observe_account-sent_example :
    (b : Bool) × (observe_account client
        (λ l. l)
        ⦃v = standard⦄
        (record { object = account; world = 0 })
      ≡ (
        returns (record no_observation { resource_exists = true; resource_up_to_date = b }, none),
        record {
          object = observed client (λ l. l) ⦃v = standard⦄ azure_account account;
          world = 2;
        },
      ))
    × ((b ≡ true) ↔ (
        (to_bool ⦃v = standard⦄ (some true) ≡ to_bool ⦃v = standard⦄ (some true))
        × Unlimited properties.consistency_policy))
observe_account-sent_example =
    observe_account-sent client (λ l. l) ⦃v = standard⦄ standard-Documented
      (record { object = account; world = 0 }) azure_account 200 1 2 refl
      (λ h. absurd (omega arith)) refl applied (omega arith, tt)
