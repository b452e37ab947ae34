-- ===== src/Sql/Mysql/Params.antt =====
-- pkg/clients/database/mysql.go: the pure part.
use provider_azure.Prelude.{String, Bool, some}
use provider_azure.Go.Errors.{Result}
use provider_azure.Vendor.{Vendor}
use provider_azure.Azure.Convert.{to_string, to_string_ptr_map}
use provider_azure.Azure.LateInit.{late_initialize_string_map}
use provider_azure.Sql.Types.{
  Sku, SqlServerParameters, SqlServerObservation, AzureSku, sku_short_tiers, pointer_to_create_mode,
  safe_date,
}
use provider_azure.Sql.Postgresql.Params.{
  Server, PropertiesForCreate, ServerForCreate, ServerUpdateParameters, properties_in_mode,
  sku_of_tier, storage_profile_of, late_initialize_sku, late_initialize_storage_profile,
  late_initialize_public_network_access, if_empty, up_to_date_with,
}

module _ ⦃v : Vendor⦄ where
  unfoldable pub to_mysql_properties : SqlServerParameters → String → PropertiesForCreate
  unfolding pointer_to_create_mode safe_date
  to_mysql_properties s admin_password =
      properties_in_mode (pointer_to_create_mode s.create_mode) s admin_password

  unfoldable pub to_mysql_sku : Sku → Result AzureSku
  to_mysql_sku sku = sku_of_tier (sku_short_tiers sku.tier) sku

  -- The parameters that CreateServer sends.
  unfoldable pub mysql_server_for_create : SqlServerParameters → AzureSku → String → ServerForCreate
  unfolding to_mysql_properties
  mysql_server_for_create s sku admin_password = record {
    sku = sku;
    properties = to_mysql_properties s admin_password;
    location = some s.location;
    tags = to_string_ptr_map s.tags;
  }

  -- The parameters that UpdateServer sends.
  unfoldable pub mysql_update_parameters : SqlServerParameters → AzureSku → ServerUpdateParameters
  mysql_update_parameters s sku = record {
    sku = sku;
    version = s.version;
    minimal_tls_version = s.minimal_tls_version;
    ssl_enforcement = s.ssl_enforcement;
    public_network_access = to_string s.public_network_access;
    storage_profile = storage_profile_of s.storage_profile;
    tags = to_string_ptr_map s.tags;
  }

  unfoldable pub update_mysql_observation : SqlServerObservation → Server → SqlServerObservation
  update_mysql_observation o server = record o {
    id = to_string server.id;
    name = to_string server.name;
    type = to_string server.type;
    user_visible_state = server.user_visible_state;
    fully_qualified_domain_name = to_string server.fully_qualified_domain_name;
    master_server_id = to_string server.master_server_id;
  }

  unfoldable pub late_initialize_mysql : SqlServerParameters → Server → SqlServerParameters
  late_initialize_mysql p server = record p {
    sku = late_initialize_sku p.sku server.sku;
    tags = late_initialize_string_map p.tags server.tags;
    storage_profile = late_initialize_storage_profile p.storage_profile server.storage_profile;
    minimal_tls_version = if_empty p.minimal_tls_version server.minimal_tls_version;
    ssl_enforcement = if_empty p.ssl_enforcement server.ssl_enforcement;
    public_network_access =
        late_initialize_public_network_access p.public_network_access server.public_network_access;
  }

  unfoldable pub is_mysql_up_to_date : SqlServerParameters → Server → Bool
  is_mysql_up_to_date p server = up_to_date_with p server server.storage_profile server.sku
