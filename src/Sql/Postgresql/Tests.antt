-- ===== src/Sql/Postgresql/Tests.antt =====
-- A PostgreSQL server over a concrete Azure: the world counts the calls.
use provider_azure.Prelude.{
  ℕ, ◌+◌, ◌≡◌, refl, ◌≢◌, String, inl, ◌↔◌, true, none, some, [], ◌∷◌, arith, eq_iff, ◌==◌, false,
}
use provider_azure.Go.Num.{itoa}
use provider_azure.Go.Errors.{Result, ok, err}
use provider_azure.Go.Effect.{Session}
use provider_azure.Vendor.Standard.{standard, standard-Documented}
use provider_azure.Azure.Convert.{
  to_string, to_string_ptr, to_string_ptr_map, to_int32_ptr, to_int32_ptr_from_int_ptr,
}
use provider_azure.Managed.{no_details}
use provider_azure.Sql.Types.{SqlServerParameters, SqlServer, AzureSku, AzureStorageProfile}
use provider_azure.Sql.Postgresql.Params.{
  Server, to_postgresql_sku, server_update_parameters, is_postgresql_up_to_date,
}
use provider_azure.Sql.Postgresql.InSync.{
  Agrees, is_postgresql_up_to_date_iff, is_postgresql_up_to_date-server_update_parameters,
}
use provider_azure.Sql.Postgresql.Client.{started}
use provider_azure.Sql.Postgresql.Controller.{External, observe_server}
use provider_azure.Sql.Postgresql.Creation.{
  Unfinished, start, again, NotAbsent, observe_server-Watched,
}
use provider_azure.Sql.Postgresql.Controller.{create_managed}
use provider_azure.Sql.Postgresql.Lifecycle.{Found, observe_server-Found, not_found}

abbrev pub parameters : SqlServerParameters
parameters = record {
  resource_group_name = "rg";
  sku = record { tier = "Basic"; capacity = 1; size = none; family = "Gen5" };
  location = "west";
  administrator_login = "admin";
  minimal_tls_version = "";
  public_network_access = none;
  create_mode = none;
  restore_point_in_time = none;
  source_server_id = none;
  tags = some (("team", "a") ∷ []);
  version = "11";
  ssl_enforcement = "Enabled";
  storage_profile = record {
    backup_retention_days = some 7;
    geo_redundant_backup = none;
    storage_mb = 5120;
    storage_autogrow = none;
  };
}

abbrev pub sku : AzureSku
sku = record {
  name = some "B_Gen5_1";
  tier = "Basic";
  capacity = some 1;
  family = some "Gen5";
  size = none;
}

pub to_postgresql_sku_basic : to_postgresql_sku ⦃v = standard⦄ parameters.sku ≡ ok sku
unfolding to_postgresql_sku to_string_ptr to_int32_ptr itoa
to_postgresql_sku_basic = refl

-- The server after an update with the parameters above.
abbrev pub server : Server
server = record {
  id = none;
  name = some "db";
  type = none;
  sku = some sku;
  tags = some (("team", some "a") ∷ []);
  version = "11";
  ssl_enforcement = "Enabled";
  minimal_tls_version = "";
  user_visible_state = "Ready";
  fully_qualified_domain_name = some "db.example";
  master_server_id = none;
  public_network_access = "";
  storage_profile = some (record {
    backup_retention_days = some 7;
    geo_redundant_backup = "";
    storage_mb = some 5120;
    storage_autogrow = "";
  });
}

is_postgresql_up_to_date_iff_example :
    (is_postgresql_up_to_date ⦃v = standard⦄ parameters server ≡ true) ↔ (
      (profile : AzureStorageProfile) × (k : AzureSku) × Agrees ⦃v = standard⦄ parameters server
        profile k)
is_postgresql_up_to_date_iff_example = is_postgresql_up_to_date_iff ⦃v = standard⦄ parameters server

is_postgresql_up_to_date-server_update_parameters_example :
    is_postgresql_up_to_date ⦃v = standard⦄ parameters server ≡ true
unfolding server_update_parameters to_string to_string_ptr_map to_int32_ptr
    to_int32_ptr_from_int_ptr
is_postgresql_up_to_date-server_update_parameters_example =
    is_postgresql_up_to_date-server_update_parameters ⦃v = standard⦄ standard-Documented parameters
      sku server to_postgresql_sku_basic (tt, tt) (inl (omega arith)) (inl (omega arith))
      (record {
        sku = refl;
        profile = refl;
        version = refl;
        tls = refl;
        ssl = refl;
        access = refl;
        tags = refl;
      })

-- Azure answers every request by the given reply to GET, and starts operations at the URL "u".
abbrev azure : Result Server → External ℕ
azure reply = record {
  client = record {
    get = λ g n w. (reply, w + 1);
    create = λ g n p w. (ok "u", w + 1);
    update = λ g n p w. (ok "u", w + 1);
    delete = λ g n w. (err not_found, w + 1);
  };
  futures = record {
    unmarshal_json = λ j. none;
    done_with_context = λ j w. (record { status = "InProgress"; error = none }, w + 1);
    error_text = λ e. "";
  };
  update_object = λ c w. (ok c, w + 1);
  get_secret = λ r w. (ok (record no_details { password = some "old" }), w + 1);
  new_password = λ w. (ok "new", w + 1);
}

abbrev object : SqlServer
object = record {
  external_name = "db";
  write_connection_secret_to_ref = some (record { name = "s"; namespace = "ns" });
  for_provider = parameters;
  conditions = record { ready = none; synced = none };
  at_provider = record {
    id = "";
    name = "";
    type = "";
    user_visible_state = "";
    fully_qualified_domain_name = "";
    master_server_id = "";
    last_operation = started "" "";
  };
}

abbrev pub session : Session SqlServer ℕ
session = record { object = object; world = 0 }

abbrev while_running : Session SqlServer ℕ
while_running = record session {
  object = record object {
    at_provider = record (object.at_provider) {
      last_operation = record (started "PATCH" "u") { status = "InProgress" };
    };
  };
}

pub text_ne_empty : (s : String) → (s == "") ≡ false → s ≢ ""
text_ne_empty s h = ground (arith, eq_iff s "")

-- The server whose creation has started, and the first observation of it.
abbrev first : Session SqlServer ℕ
first = record {
  object = (create_managed (azure (err not_found)) ⦃v = standard⦄ session).1.object;
  world = 5;
}

unfinished : Unfinished (azure (err not_found)) ⦃v = standard⦄ first
unfolding create_managed to_string_ptr to_int32_ptr itoa
unfinished = record { reply = not_found; after_get = 6; answer = refl; in_progress = λ n. refl }

abbrev second : Session SqlServer ℕ
second = record {
  object = (observe_server (azure (err not_found)) ⦃v = standard⦄ first).1.object;
  world = 9;
}

observe_server-Watched_example :
    NotAbsent (observe_server (azure (err not_found)) ⦃v = standard⦄ second).0
unfolding create_managed observe_server to_string_ptr to_int32_ptr itoa
observe_server-Watched_example =
    observe_server-Watched (azure (err not_found)) ⦃v = standard⦄ standard-Documented session second
      (err not_found) 10 refl (text_ne_empty "u" refl) (again 9 (start 5) unfinished) refl
      (λ x r n. refl)

observe_server-Found_example :
    Found
      (azure (ok server))
      ⦃v = standard⦄
      server
      (observe_server (azure (ok server)) ⦃v = standard⦄ session)
observe_server-Found_example =
    observe_server-Found (azure (ok server)) ⦃v = standard⦄ standard-Documented session server 1
      refl
