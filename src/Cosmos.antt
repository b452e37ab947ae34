-- ===== src/Cosmos.antt =====
-- Cosmos DB accounts: apis/database/v1alpha3/nosql_types.go, without references and selectors, and the
-- SDK's package documentdb by the fields that the code uses. An int32 or an int64 is its bit pattern.
pub mod Properties
pub mod Controller
pub mod InSync
pub mod LocationTests
pub mod Locations
pub mod Tests
use provider_azure.Prelude.{ℕ, String, Bool, Option, List}
use provider_azure.Go.Maps.{GoMap, Slice}
use provider_azure.Vendor.{Conditions}

-- A pointer of which the address matters: Go's `==` on pointers compares the addresses.
pub record Pointer (A : Type 0) : Type 0 where
  pub address : ℕ
  pub pointee : A

pub record ConsistencyPolicy : Type 0 where
  pub default_consistency_level : String
  pub max_staleness_prefix : Option (Pointer ℕ)  -- *int64
  pub max_interval_in_seconds : Option (Pointer ℕ)  -- *int32

pub record AccountLocation : Type 0 where
  pub location_name : String
  pub failover_priority : ℕ  -- int32
  pub is_zone_redundant : Bool

pub record AccountProperties : Type 0 where
  pub consistency_policy : Option ConsistencyPolicy
  pub locations : Slice AccountLocation
  pub database_account_offer_type : String
  pub ip_range_filter : Option String
  pub enable_automatic_failover : Option Bool
  pub enable_multiple_write_locations : Option Bool
  pub enable_cassandra_connector : Option Bool

pub record AccountParameters : Type 0 where
  pub resource_group_name : String
  pub kind : String
  pub location : String
  pub properties : AccountProperties
  pub tags : GoMap String

pub record AccountObservation : Type 0 where
  pub id : String
  pub state : String

pub record CosmosAccount : Type 0 where
  pub external_name : String
  pub for_provider : AccountParameters
  pub at_provider : Option AccountObservation
  pub conditions : Conditions

-- `documentdb.ConsistencyPolicy`
pub record AzurePolicy : Type 0 where
  pub default_consistency_level : String
  pub max_staleness_prefix : Option (Pointer ℕ)
  pub max_interval_in_seconds : Option (Pointer ℕ)

-- `documentdb.Location`
pub record AzureLocation : Type 0 where
  pub location_name : Option String
  pub failover_priority : Option ℕ
  pub is_zone_redundant : Option Bool

-- `documentdb.DatabaseAccountCreateUpdateProperties`
pub record SentProperties : Type 0 where
  pub consistency_policy : Option AzurePolicy
  pub locations : Option (List AzureLocation)
  pub database_account_offer_type : Option String
  pub enable_automatic_failover : Option Bool
  pub enable_cassandra_connector : Option Bool
  pub enable_multiple_write_locations : Option Bool

-- `documentdb.DatabaseAccountCreateUpdateParameters`
pub record SentAccount : Type 0 where
  pub kind : String
  pub location : Option String
  pub tags : GoMap (Option String)
  pub properties : Option SentProperties

-- `documentdb.DatabaseAccountProperties`
pub record AzureProperties : Type 0 where
  pub provisioning_state : Option String
  pub consistency_policy : Option AzurePolicy
  pub read_locations : Option (List AzureLocation)
  pub database_account_offer_type : String
  pub enable_automatic_failover : Option Bool
  pub enable_cassandra_connector : Option Bool
  pub enable_multiple_write_locations : Option Bool

-- `documentdb.DatabaseAccount`. The properties of an answer, a pointer that
-- UpdateCosmosDBAccountObservation reads through without a test, are taken to be there.
pub record DatabaseAccount : Type 0 where
  pub id : Option String
  pub properties : AzureProperties
