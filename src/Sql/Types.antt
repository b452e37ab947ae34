-- ===== src/Sql/Types.antt =====
-- apis/database/v1beta1/sql_types.go: the parameters and the observation that MySQL and PostgreSQL
-- servers share; pkg/clients/database: what both clients use. References and selectors, which are
-- resolved before a controller sees the object, and type metadata are left out.
use Prim.Native.String.{◌++◌}
use provider_azure.Prelude.{ℕ, String, Option, none, some, ◌==◌, if◌then◌else◌}
use provider_azure.Go.Num.{itoa}
use provider_azure.Go.Maps.{GoMap}
use provider_azure.Vendor.{Conditions}
use provider_azure.Azure.Operation.{AsyncOperation}

abbrev pub state_dropping : String
state_dropping = "Dropping"

abbrev pub state_ready : String
state_ready = "Ready"

abbrev pub postgresql_server_port : String
postgresql_server_port = "5432"

pub record Sku : Type 0 where
  pub tier : String
  pub capacity : ℕ  -- int
  pub size : Option String
  pub family : String

pub record StorageProfile : Type 0 where
  pub backup_retention_days : Option ℕ  -- *int
  pub geo_redundant_backup : Option String
  pub storage_mb : ℕ  -- int
  pub storage_autogrow : Option String

-- `CreateMode` is a string type.
abbrev pub CreateMode : Type 0
CreateMode = String

abbrev pub create_mode_default : CreateMode
create_mode_default = "Default"

abbrev pub create_mode_replica : CreateMode
create_mode_replica = "Replica"

abbrev pub create_mode_geo_restore : CreateMode
create_mode_geo_restore = "GeoRestore"

abbrev pub create_mode_point_in_time_restore : CreateMode
create_mode_point_in_time_restore = "PointInTimeRestore"

pub record SqlServerParameters : Type 0 where
  pub resource_group_name : String
  pub sku : Sku
  pub location : String
  pub administrator_login : String
  pub minimal_tls_version : String
  pub public_network_access : Option String
  pub create_mode : Option CreateMode
  pub restore_point_in_time : Option String  -- *metav1.Time, as its text
  pub source_server_id : Option String
  pub tags : GoMap String
  pub version : String
  pub ssl_enforcement : String
  pub storage_profile : StorageProfile

pub record SqlServerObservation : Type 0 where
  pub id : String
  pub name : String
  pub type : String
  pub user_visible_state : String
  pub fully_qualified_domain_name : String
  pub master_server_id : String
  pub last_operation : AsyncOperation

-- A reference to a secret, of the common resource spec of crossplane-runtime.
pub record SecretReference : Type 0 where
  pub name : String
  pub namespace : String

-- `MySQLServer` and `PostgreSQLServer`: the external name is the annotation that
-- `meta.GetExternalName` reads.
pub record SqlServer : Type 0 where
  pub external_name : String
  pub write_connection_secret_to_ref : Option SecretReference
  pub for_provider : SqlServerParameters
  pub conditions : Conditions
  pub at_provider : SqlServerObservation

-- pkg/clients/database/util.go
unfoldable pub pointer_to_create_mode : Option CreateMode → CreateMode
pointer_to_create_mode none = create_mode_default
pointer_to_create_mode (some mode) = mode

-- A `metav1.Time` and a `date.Time` wrap the same `time.Time`.
unfoldable pub safe_date : Option String → Option String
safe_date none = none
safe_date (some t) = some t

-- `mysql.Sku` and `postgresql.Sku` of the SDK.
pub record AzureSku : Type 0 where
  pub name : Option String
  pub tier : String
  pub capacity : Option ℕ  -- *int32
  pub family : Option String
  pub size : Option String

-- pkg/clients/database/mysql.go: skuShortTiers
abbrev pub sku_short_tiers : String → Option String
sku_short_tiers tier =
    if tier == "Basic"
    then some "B"
    else if tier == "GeneralPurpose"
    then some "GP"
    else if tier == "MemoryOptimized"
    then some "MO"
    else none

abbrev pub sku_name : String → String → ℕ → String
sku_name t family capacity = t ++ ("_" ++ (family ++ ("_" ++ itoa capacity)))

-- `mysql.StorageProfile` and `postgresql.StorageProfile` of the SDK.
pub record AzureStorageProfile : Type 0 where
  pub backup_retention_days : Option ℕ  -- *int32
  pub geo_redundant_backup : String
  pub storage_mb : Option ℕ  -- *int32
  pub storage_autogrow : String
