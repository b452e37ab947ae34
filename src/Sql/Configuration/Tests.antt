-- ===== src/Sql/Configuration/Tests.antt =====
-- A server configuration over an Azure whose world is the configuration itself.
use provider_azure.Prelude.{String, ◌≡◌, refl, true, false, Bool, Option, none, some}
use provider_azure.Go.Errors.{ok}
use provider_azure.Vendor.Standard.{standard, standard-Documented}
use provider_azure.Managed.{no_observation}
use provider_azure.Sql.Configuration.{mysql, postgresql, ServerConfiguration, AzureConfiguration}
use provider_azure.Sql.Configuration.Controller.{
  External, texts_of, observe_configuration, delete_managed,
}
use provider_azure.Sql.Configuration.Deletion.{observe_configuration-delete_managed}
use provider_azure.Sql.Configuration.Update.{
  LateInitializes, Compared, observe_configuration-Compared,
}

abbrev late : Option String → Option String → Option String × Bool
late (some s) from = (some s, false)
late none (some s) = (some s, true)
late none none = (none, false)

abbrev azure : External AzureConfiguration
azure = record {
  client = record {
    get = λ g s n w. (ok w, w);
    create_or_update = λ g s n c w. (ok "url", record w { value = c.value; source = c.source });
  };
  futures = record {
    unmarshal_json = λ j. none;
    done_with_context = λ j w. (record { status = "Succeeded"; error = none }, w);
    error_text = λ e. "";
  };
  subscription_id = "sub";
  late_initialize = late;
}

abbrev configuration : ServerConfiguration
configuration = record {
  external_name = "";
  deleted = true;
  for_provider = record {
    resource_group_name = "rg";
    server_name = "db";
    name = "max_connections";
    value = some "8";
  };
  at_provider = record {
    id = "";
    name = "max_connections";
    type = "";
    data_type = "";
    value = "8";
    default_value = "4";
    source = "user-override";
    description = "";
    last_operation = record { method = ""; polling_url = ""; status = ""; error_message = "" };
  };
  conditions = record { ready = none; synced = none };
}

abbrev azure_has : String → String → AzureConfiguration
azure_has value source = record {
  id = none;
  name = some "max_connections";
  type = none;
  data_type = none;
  value = some value;
  default_value = some "4";
  source = some source;
  description = none;
}

abbrev reset : AzureConfiguration
reset = azure_has "4" "system-default"

observe_configuration-delete_managed_example :
    let t =
      (delete_managed
        (texts_of mysql)
        azure
        ⦃v = standard⦄
        (record { object = configuration; world = azure_has "8" "user-override" })).1.object in
    let u =
      (observe_configuration azure ⦃v = standard⦄ mysql
        (record { object = t; world = reset })).1.object in
    (t.at_provider.last_operation.method ≡ "PUT")
    × (t.at_provider.last_operation.polling_url ≡ "url")
    × (observe_configuration azure ⦃v = standard⦄ mysql (record { object = u; world = reset })
        ≡ ((no_observation, none), record { object = u; world = reset }))
observe_configuration-delete_managed_example =
    observe_configuration-delete_managed azure ⦃v = standard⦄ standard-Documented mysql
      (record { object = configuration; world = azure_has "8" "user-override" }) "url" reset reset
      reset reset reset reset reset refl refl refl refl refl refl refl

late-LateInitializes : LateInitializes late
late-LateInitializes = record { kept = λ s from. refl; taken = λ s. refl; absent = refl }

abbrev unset : ServerConfiguration
unset = record configuration {
  deleted = false;
  for_provider = record (configuration.for_provider) { value = none };
}

observe_configuration-Compared_example : Compared ⦃v = standard⦄ none (some "8") (
    observe_configuration azure ⦃v = standard⦄ postgresql
      (record { object = unset; world = azure_has "8" "user-override" }))
observe_configuration-Compared_example =
    observe_configuration-Compared azure ⦃v = standard⦄ standard-Documented postgresql
      (record { object = unset; world = azure_has "8" "user-override" })
      (azure_has "8" "user-override") (azure_has "8" "user-override") late-LateInitializes refl refl
