-- ===== src/Sql/Configuration/Client.antt =====
-- pkg/clients/database/configuration: the calls of the Azure API, the observation and the update
-- test, which are the same for MySQL and for PostgreSQL.
use provider_azure.Prelude.{String, Bool, Option, none, some, ◌==◌}
use provider_azure.Go.Errors.{Err, Result, ok, err}
use provider_azure.Go.Effect.{M, ◌>>=◌, ◌>>◌, pure, get_object, modify, call}
use provider_azure.Vendor.{Vendor}
use provider_azure.Azure.Convert.{to_string}
use provider_azure.Azure.Operation.{AsyncOperation}
use provider_azure.Sql.Postgresql.Client.{started}
use provider_azure.Sql.Configuration.{
  ConfigurationParameters, ConfigurationObservation, ServerConfiguration, AzureConfiguration,
}

abbrev pub source_system_managed : String
source_system_managed = "system-default"

-- The two properties of a `Configuration` that the code sends.
pub record SentConfiguration : Type 0 where
  pub value : Option String
  pub source : Option String

-- `ConfigurationsClient` of the SDK: each call takes the resource group, the server and the name of
-- the configuration. What starts an operation answers with the URL to poll it at.
pub record ConfigurationsClient (W : Type 0) : Type 0 where
  pub get : String → String → String → W → Result AzureConfiguration × W
  pub create_or_update : String → String → String → SentConfiguration → W → Result String × W

abbrev pub with_operation : AsyncOperation → ServerConfiguration → ServerConfiguration
with_operation op cr = record cr { at_provider = record (cr.at_provider) { last_operation = op } }

module _ {W : Type 0} (client : ConfigurationsClient W) where
  unfoldable pub get_configuration : M ServerConfiguration W (Result AzureConfiguration)
  get_configuration = do
    cr ← get_object
    call (
        client.get cr.for_provider.resource_group_name cr.for_provider.server_name
          cr.for_provider.name)

  abbrev record_put : Result String → M ServerConfiguration W (Option Err)
  record_put (err e) = pure (some e)
  record_put (ok url) = do modify (with_operation (started "PUT" url)); pure none

  unfoldable pub update_configuration :
      Option String → Option String → M ServerConfiguration W (Option Err)
  update_configuration value source = do
    cr ← get_object
    r ← call (
        client.create_or_update cr.for_provider.resource_group_name cr.for_provider.server_name
          cr.for_provider.name (record { value = value; source = source }))
    record_put r

  unfoldable pub create_or_update_configuration : M ServerConfiguration W (Option Err)
  unfolding update_configuration
  create_or_update_configuration = do
    cr ← get_object
    update_configuration cr.for_provider.value none

  -- The value goes back to the default, and the system manages it again.
  unfoldable pub delete_configuration : M ServerConfiguration W (Option Err)
  unfolding update_configuration
  delete_configuration = do
    cr ← get_object
    update_configuration (some cr.at_provider.default_value) (some source_system_managed)

module _ ⦃v : Vendor⦄ where
  unfoldable pub update_configuration_observation :
      ConfigurationObservation → AzureConfiguration → ConfigurationObservation
  unfolding to_string
  update_configuration_observation o az = record o {
    id = to_string az.id;
    name = to_string az.name;
    type = to_string az.type;
    data_type = to_string az.data_type;
    value = to_string az.value;
    default_value = to_string az.default_value;
    source = to_string az.source;
    description = to_string az.description;
  }

  unfoldable pub is_configuration_up_to_date : ConfigurationParameters → AzureConfiguration → Bool
  unfolding to_string
  is_configuration_up_to_date p az = to_string p.value == to_string az.value
