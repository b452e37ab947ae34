-- ===== src/Sql/Configuration/Controller.antt =====
-- pkg/controller/database/mysqlserverconfiguration/managed.go and postgresqlserverconfiguration:
-- what the managed reconciler calls. The two differ in their texts, and in what Observe makes of a
-- configuration that is not found.
use Prim.Native.String.{◌++◌}
use provider_azure.Prelude.{
  String, Bool, true, false, ◌&&◌, Option, none, some, ◌==◌, if◌then◌else◌,
}
use provider_azure.Go.Errors.{Err, message, Result, ok, err}
use provider_azure.Go.Effect.{M, ◌>>=◌, ◌>>◌, pure, get_object, modify}
use provider_azure.Vendor.{Vendor, Condition, available, unavailable}
use provider_azure.Azure.Convert.{is_not_found, is_not_found_error, to_string}
use provider_azure.Azure.Operation.{Futures, in_progress, fetch_async_operation}
use provider_azure.Managed.{no_details, no_observation, Observed, Detailed, of_kind}
use provider_azure.Sql.Configuration.{
  Engine, mysql, postgresql, ServerConfiguration, AzureConfiguration,
}
use provider_azure.Sql.Configuration.Client.{
  ConfigurationsClient, source_system_managed, with_operation, get_configuration,
  create_or_update_configuration, delete_configuration, update_configuration_observation,
  is_configuration_up_to_date,
}

-- `external`: the Azure client with the sender that polls, the subscription, and
-- `resource.LateInitializer` of crossplane-runtime: what LateInitializeStringPtr returns, and
-- IsChanged after it.
pub record External (W : Type 0) : Type 0 where
  pub client : ConfigurationsClient W
  pub futures : Futures W
  pub subscription_id : String
  pub late_initialize : Option String → Option String → Option String × Bool

pub record Texts : Type 0 where
  pub not_kind : String
  pub create : String
  pub update : String
  pub get : String
  pub delete : String
  pub provider : String  -- in the external name

abbrev pub mysql_texts : Texts
mysql_texts = record {
  not_kind = "managed resource is not a MySQLServerConfiguration";
  create = "cannot create MySQLServerConfiguration";
  update = "cannot update MySQLServerConfiguration";
  get = "cannot get MySQLServerConfiguration";
  delete = "cannot delete MySQLServerConfiguration";
  provider = "Microsoft.DBforMySQL";
}

abbrev pub postgresql_texts : Texts
postgresql_texts = record {
  not_kind = "managed resource is not a PostgreSQLServerConfiguration";
  create = "cannot create PostgreSQLServerConfiguration";
  update = "cannot update PostgreSQLServerConfiguration";
  get = "cannot get PostgreSQLServerConfiguration";
  delete = "cannot delete PostgreSQLServerConfiguration";
  provider = "Microsoft.DBforPostgreSQL";
}

abbrev pub texts_of : Engine → Texts
texts_of mysql = mysql_texts
texts_of postgresql = postgresql_texts

-- `managed.ExternalCreation`, of which the code sets one field, and the error.
abbrev pub Created : Type 0
Created = Bool × Option Err

abbrev fetch_text : String
fetch_text = "cannot fetch last operation"

module _ (texts : Texts) {W : Type 0} (e : External W) ⦃v : Vendor⦄ where
  abbrev set_condition : Condition → M ServerConfiguration W (Unit {0})
  set_condition c = modify λ cr. record cr { conditions = v.set_condition c cr.conditions }

  unfoldable pub generate_ext_name : String → String → String → String
  generate_ext_name group server name =
      "/subscriptions/"
      ++ (e.subscription_id
          ++ ("/resourceGroups/"
              ++ (group
                  ++ ("/providers/"
                      ++ (texts.provider
                          ++ ("/servers/" ++ (server ++ ("/configurations/" ++ name))))))))

  abbrev pub named : ServerConfiguration → ServerConfiguration
  named cr = record cr {
    external_name =
        generate_ext_name cr.for_provider.resource_group_name cr.for_provider.server_name
          cr.for_provider.name;
  }

  unfoldable pub fetch_last_operation : M ServerConfiguration W (Option Err)
  unfolding fetch_async_operation
  fetch_last_operation s =
      let (x, op, w) =
        fetch_async_operation e.futures s.object.at_provider.last_operation s.world in
      (x, record { object = with_operation op s.object; world = w })

  -- Azure never answers that a configuration is not found: one that was reset counts as gone.
  abbrev pub is_reset : ServerConfiguration → Bool
  is_reset cr =
      cr.deleted
      && cr.at_provider.source == source_system_managed
      && cr.at_provider.value == cr.at_provider.default_value

  abbrev pub fetched : Bool → AzureConfiguration → Option Err → M ServerConfiguration W Observed
  fetched changed az (some x) = pure (no_observation, v.wrap (some x) fetch_text)
  fetched changed az none = do
    cr ← get_object
    set_condition
        (if cr.at_provider.value == to_string cr.for_provider.value then available else unavailable)
    pure (
      record no_observation {
        resource_exists = true;
        resource_up_to_date = is_configuration_up_to_date cr.for_provider az;
        resource_late_initialized = changed;
      },
      none,
    )

  -- The value that the user left out is taken from Azure, and the observation is updated.
  abbrev pub refreshed : AzureConfiguration → ServerConfiguration → ServerConfiguration
  refreshed az cr = record cr {
    for_provider = record (cr.for_provider) {
      value = (e.late_initialize cr.for_provider.value az.value).0;
    };
    at_provider = update_configuration_observation cr.at_provider az;
  }

  -- Create may never have been called, so that the external name may not be set.
  abbrev pub with_name : ServerConfiguration → ServerConfiguration
  with_name cr = if cr.external_name == "" then named cr else cr

  abbrev pub refresh : AzureConfiguration → Bool → M ServerConfiguration W Observed
  refresh az changed = do
    modify λ cr. refreshed az (with_name cr)
    x ← fetch_last_operation
    fetched changed az x

  abbrev pub present : AzureConfiguration → M ServerConfiguration W Observed
  present az = do
    cr ← get_object
    if is_reset cr
        then pure (no_observation, none)
        else refresh az (e.late_initialize cr.for_provider.value az.value).1

  -- Observe, by what it does where Azure answers that the configuration is not found.
  abbrev pub observed :
      (Err → M ServerConfiguration W Observed)
      → Result AzureConfiguration
      → M ServerConfiguration W Observed
  observed missing (err x) =
      if is_not_found (some x) then missing x else pure (no_observation, v.wrap (some x) texts.get)
  observed missing (ok az) = present az

  abbrev created : Option Err → M ServerConfiguration W Created
  created (some x) = pure (false, v.wrap (some x) texts.create)
  created none = do modify named; x ← fetch_last_operation; pure (true, v.wrap x fetch_text)

  unfoldable pub create_configuration : M ServerConfiguration W Created
  unfolding create_or_update_configuration fetch_last_operation
  create_configuration = do x ← create_or_update_configuration e.client; created x

  abbrev put : Option Err → M ServerConfiguration W Detailed
  put (some x) = pure (no_details, v.wrap (some x) texts.update)
  put none = do x ← fetch_last_operation; pure (no_details, v.wrap x fetch_text)

  unfoldable pub update_configuration : M ServerConfiguration W Detailed
  unfolding create_or_update_configuration fetch_last_operation
  update_configuration = do
    cr ← get_object
    if cr.at_provider.last_operation.status == in_progress
        then pure (no_details, none)
        else do x ← create_or_update_configuration e.client; put x

  abbrev dropped : Option Err → Option Err → M ServerConfiguration W (Option Err)
  dropped x (some y) = pure (v.wrap x texts.delete)
  dropped x none = do y ← fetch_last_operation; pure (v.wrap y fetch_text)

  unfoldable pub delete_managed : M ServerConfiguration W (Option Err)
  unfolding delete_configuration fetch_last_operation is_not_found
  delete_managed = do x ← delete_configuration e.client; dropped x (v.ignore is_not_found_error x)

  abbrev no_kind : Err
  no_kind = message texts.not_kind

  unfoldable pub create : M (Option ServerConfiguration) W Created
  unfolding create_configuration
  create = of_kind (false, some no_kind) create_configuration

  unfoldable pub update : M (Option ServerConfiguration) W Detailed
  unfolding update_configuration
  update = of_kind (no_details, some no_kind) update_configuration

  unfoldable pub delete : M (Option ServerConfiguration) W (Option Err)
  unfolding delete_managed
  delete = of_kind (some no_kind) delete_managed

module _ {W : Type 0} (e : External W) ⦃v : Vendor⦄ where
  -- Configurations are given with the server, so that one that is not found is an error.
  unfoldable pub observe_mysql : M ServerConfiguration W Observed
  unfolding get_configuration fetch_last_operation is_not_found
  observe_mysql = do
    az ← get_configuration e.client
    observed mysql_texts e
        (λ x.
          pure (
            no_observation,
            v.wrap (some x) "the specified MySQLServerConfiguration does not exist",
          ))
        az

  abbrev creating : ServerConfiguration → Bool
  creating cr =
      cr.at_provider.last_operation.method == "PUT"
      && cr.at_provider.last_operation.status == in_progress

  abbrev polled : Option Err → M ServerConfiguration W Observed
  polled (some x) = pure (no_observation, v.wrap (some x) fetch_text)
  polled none = do
    cr ← get_object
    pure (record no_observation { resource_exists = creating cr }, none)

  unfoldable pub observe_postgresql : M ServerConfiguration W Observed
  unfolding get_configuration fetch_last_operation is_not_found
  observe_postgresql = do
    az ← get_configuration e.client
    observed postgresql_texts e (λ x. do y ← fetch_last_operation postgresql_texts e; polled y) az

  unfoldable pub mysql_observe : M (Option ServerConfiguration) W Observed
  unfolding observe_mysql
  mysql_observe = of_kind (no_observation, some (no_kind mysql_texts e)) observe_mysql

  unfoldable pub postgresql_observe : M (Option ServerConfiguration) W Observed
  unfolding observe_postgresql
  postgresql_observe =
      of_kind (no_observation, some (no_kind postgresql_texts e)) observe_postgresql

  abbrev pub observe_configuration : Engine → M ServerConfiguration W Observed
  observe_configuration mysql = observe_mysql
  observe_configuration postgresql = observe_postgresql
