-- ===== src/Sql/Postgresql/Params.antt =====
-- pkg/clients/database/postgresql.go: the pure part. What is sent to Azure, what is late initialised,
-- what is observed, and when a server is up to date.
use Prim.Native.String.{◌++◌}
use provider_azure.Prelude.{
  String, Bool, false, ◌&&◌, not, Option, none, some, [], ◌==◌, nat_eq, ptr_eq, if◌then◌else◌,
}
use provider_azure.Go.Errors.{message, Result, ok, err}
use provider_azure.Go.Maps.{GoMap, map_eq}
use provider_azure.Vendor.{Vendor}
use provider_azure.Azure.Convert.{
  to_string_ptr, to_string, to_int32_ptr, to_int32_ptr_from_int_ptr, to_int, to_string_ptr_map,
}
use provider_azure.Azure.LateInit.{
  late_initialize_string_ptr_from_ptr, late_initialize_string_ptr_from_val,
  late_initialize_string_map, late_initialize_int_ptr_from_int32_ptr,
}
use provider_azure.Sql.Types.{
  Sku, StorageProfile, SqlServerParameters, SqlServerObservation, AzureSku, AzureStorageProfile,
  sku_short_tiers, sku_name, pointer_to_create_mode, safe_date, create_mode_point_in_time_restore,
  create_mode_geo_restore, create_mode_replica,
}

-- `postgresql.Server` of the SDK. Its embedded `*ServerProperties` is taken to be there, as in every
-- answer of the service: the code reads through it without a test.
pub record Server : Type 0 where
  pub id : Option String
  pub name : Option String
  pub type : Option String
  pub sku : Option AzureSku
  pub tags : GoMap (Option String)
  pub version : String
  pub ssl_enforcement : String
  pub minimal_tls_version : String
  pub user_visible_state : String
  pub fully_qualified_domain_name : Option String
  pub master_server_id : Option String
  pub public_network_access : String
  pub storage_profile : Option AzureStorageProfile

-- The fields that every variant of `postgresql.BasicServerPropertiesForCreate` has.
pub record CommonProperties : Type 0 where
  pub minimal_tls_version : String
  pub version : String
  pub ssl_enforcement : String
  pub public_network_access : String
  pub create_mode : String
  pub storage_profile : AzureStorageProfile

-- The four variants, each with its fields of its own: the restore point and the source server, the
-- source server, or the administrator's login and password.
pub data PropertiesForCreate : Type 0 where
  for_restore : CommonProperties → Option String → Option String → PropertiesForCreate
  for_geo_restore : CommonProperties → Option String → PropertiesForCreate
  for_replica : CommonProperties → Option String → PropertiesForCreate
  for_default_create : CommonProperties → Option String → Option String → PropertiesForCreate

pub record ServerForCreate : Type 0 where
  pub sku : AzureSku
  pub properties : PropertiesForCreate
  pub location : Option String
  pub tags : GoMap (Option String)

pub record ServerUpdateParameters : Type 0 where
  pub sku : AzureSku
  pub version : String
  pub minimal_tls_version : String
  pub ssl_enforcement : String
  pub public_network_access : String
  pub storage_profile : AzureStorageProfile
  pub tags : GoMap (Option String)

module _ ⦃v : Vendor⦄ where
  abbrev pub storage_profile_of : StorageProfile → AzureStorageProfile
  storage_profile_of p = record {
    backup_retention_days = to_int32_ptr_from_int_ptr p.backup_retention_days;
    geo_redundant_backup = to_string p.geo_redundant_backup;
    storage_mb = to_int32_ptr p.storage_mb [];
    storage_autogrow = to_string p.storage_autogrow;
  }

  abbrev common_properties : SqlServerParameters → String → CommonProperties
  common_properties s mode = record {
    minimal_tls_version = s.minimal_tls_version;
    version = s.version;
    ssl_enforcement = s.ssl_enforcement;
    public_network_access = to_string s.public_network_access;
    create_mode = mode;
    storage_profile = storage_profile_of s.storage_profile;
  }

  -- The `switch` on the create mode; the modes of the SDK are spelled as those of the API.
  abbrev pub properties_in_mode : String → SqlServerParameters → String → PropertiesForCreate
  properties_in_mode mode s admin_password =
      if mode == create_mode_point_in_time_restore
      then for_restore (common_properties s "PointInTimeRestore")
          (safe_date s.restore_point_in_time) s.source_server_id
      else if mode == create_mode_geo_restore
      then for_geo_restore (common_properties s "GeoRestore") s.source_server_id
      else if mode == create_mode_replica
      then for_replica (common_properties s "Replica") s.source_server_id
      else for_default_create (common_properties s "Default")
          (to_string_ptr s.administrator_login []) (some admin_password)

  unfoldable pub to_pgsql_properties : SqlServerParameters → String → PropertiesForCreate
  unfolding pointer_to_create_mode safe_date
  to_pgsql_properties s admin_password =
      properties_in_mode (pointer_to_create_mode s.create_mode) s admin_password

  abbrev pub sku_of_tier : Option String → Sku → Result AzureSku
  sku_of_tier none sku = err (
      message (
        "tier '"
        ++ (sku.tier
            ++ "' is not one of the supported values: [Basic GeneralPurpose MemoryOptimized]")))
  sku_of_tier (some t) sku = ok (record {
    name = to_string_ptr (sku_name t sku.family sku.capacity) [];
    tier = sku.tier;
    capacity = to_int32_ptr sku.capacity [];
    family = to_string_ptr sku.family [];
    size = sku.size;
  })

  unfoldable pub to_postgresql_sku : Sku → Result AzureSku
  to_postgresql_sku sku = sku_of_tier (sku_short_tiers sku.tier) sku

  -- The parameters that CreateServer sends.
  unfoldable pub server_for_create : SqlServerParameters → AzureSku → String → ServerForCreate
  unfolding to_pgsql_properties
  server_for_create s sku admin_password = record {
    sku = sku;
    properties = to_pgsql_properties s admin_password;
    location = some s.location;
    tags = to_string_ptr_map s.tags;
  }

  -- The parameters that UpdateServer sends.
  unfoldable pub server_update_parameters : SqlServerParameters → AzureSku → ServerUpdateParameters
  server_update_parameters s sku = record {
    sku = sku;
    version = s.version;
    minimal_tls_version = s.minimal_tls_version;
    ssl_enforcement = s.ssl_enforcement;
    public_network_access = to_string s.public_network_access;
    storage_profile = storage_profile_of s.storage_profile;
    tags = to_string_ptr_map s.tags;
  }

  unfoldable pub update_postgresql_observation :
      SqlServerObservation → Server → SqlServerObservation
  update_postgresql_observation o server = record o {
    id = to_string server.id;
    name = to_string server.name;
    type = to_string server.type;
    user_visible_state = server.user_visible_state;
    fully_qualified_domain_name = to_string server.fully_qualified_domain_name;
    master_server_id = to_string server.master_server_id;
  }

  abbrev pub late_initialize_sku : Sku → Option AzureSku → Sku
  late_initialize_sku sku none = sku
  late_initialize_sku sku (some az) = record sku {
    size = late_initialize_string_ptr_from_ptr sku.size az.size;
  }

  abbrev pub late_initialize_storage_profile :
      StorageProfile → Option AzureStorageProfile → StorageProfile
  late_initialize_storage_profile p none = p
  late_initialize_storage_profile p (some az) = record p {
    backup_retention_days =
        late_initialize_int_ptr_from_int32_ptr p.backup_retention_days az.backup_retention_days;
    geo_redundant_backup =
        late_initialize_string_ptr_from_val p.geo_redundant_backup az.geo_redundant_backup;
    storage_autogrow = late_initialize_string_ptr_from_val p.storage_autogrow az.storage_autogrow;
  }

  abbrev pub late_initialize_public_network_access : Option String → String → Option String
  late_initialize_public_network_access none az = to_string_ptr az []
  late_initialize_public_network_access (some p) az = some p

  abbrev pub if_empty : String → String → String
  if_empty s from = if s == "" then from else s

  unfoldable pub late_initialize_postgresql : SqlServerParameters → Server → SqlServerParameters
  late_initialize_postgresql p server = record p {
    sku = late_initialize_sku p.sku server.sku;
    tags = late_initialize_string_map p.tags server.tags;
    storage_profile = late_initialize_storage_profile p.storage_profile server.storage_profile;
    minimal_tls_version = if_empty p.minimal_tls_version server.minimal_tls_version;
    ssl_enforcement = if_empty p.ssl_enforcement server.ssl_enforcement;
    public_network_access =
        late_initialize_public_network_access p.public_network_access server.public_network_access;
  }

  -- The `switch` of IsPostgreSQLUpToDate, whose cases all return false.
  abbrev pub no_difference : SqlServerParameters → Server → AzureStorageProfile → AzureSku → Bool
  no_difference p server profile sku =
      not (
        not (p.minimal_tls_version == server.minimal_tls_version)
        && not (p.ssl_enforcement == "Disabled"))
      && p.ssl_enforcement == server.ssl_enforcement
      && p.version == server.version
      && map_eq (ptr_eq ◌==◌) (to_string_ptr_map p.tags) server.tags
      && p.sku.tier == sku.tier
      && nat_eq p.sku.capacity (to_int sku.capacity)
      && p.sku.family == to_string sku.family
      && ptr_eq nat_eq (to_int32_ptr_from_int_ptr p.storage_profile.backup_retention_days)
          profile.backup_retention_days
      && to_string p.storage_profile.geo_redundant_backup == profile.geo_redundant_backup
      && nat_eq p.storage_profile.storage_mb (to_int profile.storage_mb)
      && to_string p.storage_profile.storage_autogrow == profile.storage_autogrow
      && to_string p.public_network_access == server.public_network_access

  abbrev pub up_to_date_with :
      SqlServerParameters → Server → Option AzureStorageProfile → Option AzureSku → Bool
  up_to_date_with p server (some profile) (some sku) = no_difference p server profile sku
  up_to_date_with p server _ _ = false

  unfoldable pub is_postgresql_up_to_date : SqlServerParameters → Server → Bool
  is_postgresql_up_to_date p server = up_to_date_with p server server.storage_profile server.sku
