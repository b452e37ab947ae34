-- ===== src/Cosmos/Properties.antt =====
-- pkg/clients/database/cosmosdb/account.go: conversions, and the comparison of what is desired with
-- what Azure has. `cmpopts.SortSlices`, which orders locations by name before they are compared, is
-- a parameter.
use provider_azure.Prelude.{
  Bool, true, false, ◌&&◌, Option, none, some, List, [], map, ◌==◌, nat_eq, bool_eq, list_eq,
  if◌then◌else◌,
}
use provider_azure.Go.Num.{int32_of_int}
use provider_azure.Go.Panic.{Outcome, returns, panics, map_outcome}
use provider_azure.Go.Maps.{Slice, length, entries}
use provider_azure.Vendor.{Vendor}
use provider_azure.Azure.Convert.{to_string, to_string_ptr, to_string_ptr_map, to_int, to_bool}
use provider_azure.Cosmos.{
  Pointer, ConsistencyPolicy, AccountLocation, AccountProperties, AccountParameters,
  AccountObservation, AzurePolicy, AzureLocation, SentProperties, SentAccount, AzureProperties,
  DatabaseAccount,
}

abbrev pub to_database_consistency_policy : Option ConsistencyPolicy → Option AzurePolicy
to_database_consistency_policy none = none
to_database_consistency_policy (some a) = some (record {
  default_consistency_level = a.default_consistency_level;
  max_staleness_prefix = a.max_staleness_prefix;
  max_interval_in_seconds = a.max_interval_in_seconds;
})

abbrev pub from_database_consistency_policy : Option AzurePolicy → Option ConsistencyPolicy
from_database_consistency_policy none = none
from_database_consistency_policy (some a) = some (record {
  default_consistency_level = a.default_consistency_level;
  max_staleness_prefix = a.max_staleness_prefix;
  max_interval_in_seconds = a.max_interval_in_seconds;
})

abbrev pub to_location : AccountLocation → AzureLocation
to_location l = record {
  location_name = some l.location_name;
  failover_priority = some l.failover_priority;
  is_zone_redundant = some l.is_zone_redundant;
}

-- No locations become an empty slice.
abbrev pub to_database_locations : Slice AccountLocation → Option (List AzureLocation)
to_database_locations none = some []
to_database_locations (some a) = some (map to_location a)

-- `==` on two pointers
abbrev pub same_pointer : {A : Type 0} → Option (Pointer A) → Option (Pointer A) → Bool
same_pointer none none = true
same_pointer none (some q) = false
same_pointer (some p) none = false
same_pointer (some p) (some q) = nat_eq p.address q.address

-- `==` on two policies, with their pointers.
abbrev pub same_policy : ConsistencyPolicy → ConsistencyPolicy → Bool
same_policy a b =
    a.default_consistency_level == b.default_consistency_level
    && same_pointer a.max_staleness_prefix b.max_staleness_prefix
    && same_pointer a.max_interval_in_seconds b.max_interval_in_seconds

-- A current policy that is nil is dereferenced. One that is not is a new record of
-- fromDatabaseConsistencyPolicy, so that its address is not the desired one's.
unfoldable pub equal_consistency_policy_if_not_null :
    Option ConsistencyPolicy → Option ConsistencyPolicy → Outcome Bool
equal_consistency_policy_if_not_null none current = returns true
equal_consistency_policy_if_not_null (some spec) none = panics
equal_consistency_policy_if_not_null (some spec) (some current) = returns (same_policy spec current)

abbrev pub location_eq : AccountLocation → AccountLocation → Bool
location_eq a b =
    a.location_name == b.location_name
    && nat_eq a.failover_priority b.failover_priority
    && bool_eq a.is_zone_redundant b.is_zone_redundant

abbrev pub Sorter : Type 0
Sorter = List AccountLocation → List AccountLocation

unfoldable pub check_equal_locations : Sorter → Slice AccountLocation → Slice AccountLocation → Bool
check_equal_locations sort a b =
    if nat_eq (length (entries a)) 0 && nat_eq (length (entries b)) 0
    then true
    else list_eq location_eq (sort (entries a)) (sort (entries b))

-- `&&`, where the left side may panic.
infixl 35 ◌and_also◌
abbrev ◌and_also◌ : Outcome Bool → Bool → Outcome Bool
o and_also rest = map_outcome (λ (b : Bool). b && rest) o

module _ ⦃v : Vendor⦄ where
  unfoldable pub equal_bool_if_not_null : Option Bool → Option Bool → Bool
  unfolding to_bool
  equal_bool_if_not_null spec current = bool_eq (to_bool spec) (to_bool current)

  -- EnableMultipleWriteLocations is sent with the value of EnableAutomaticFailover.
  unfoldable pub to_database_properties : AccountProperties → SentProperties
  unfolding to_string_ptr
  to_database_properties a = record {
    consistency_policy = to_database_consistency_policy a.consistency_policy;
    locations = to_database_locations a.locations;
    database_account_offer_type = to_string_ptr a.database_account_offer_type [];
    enable_automatic_failover = a.enable_automatic_failover;
    enable_cassandra_connector = a.enable_cassandra_connector;
    enable_multiple_write_locations = a.enable_automatic_failover;
  }

  unfoldable pub to_database_account_create_or_update : AccountParameters → SentAccount
  unfolding to_database_properties to_string_ptr to_string_ptr_map
  to_database_account_create_or_update p = record {
    kind = p.kind;
    location = to_string_ptr p.location [];
    tags = to_string_ptr_map p.tags;
    properties = some (to_database_properties p.properties);
  }

  abbrev pub from_location : AzureLocation → AccountLocation
  from_location l = record {
    location_name = to_string l.location_name;
    failover_priority = int32_of_int (to_int l.failover_priority);
    is_zone_redundant = to_bool l.is_zone_redundant;
  }

  abbrev pub from_database_locations : Option (List AzureLocation) → Slice AccountLocation
  from_database_locations none = some []
  from_database_locations (some a) = some (map from_location a)

  unfoldable pub from_database_properties : Option AzureProperties → AccountProperties
  unfolding to_string to_int to_bool int32_of_int
  from_database_properties none = record {
    consistency_policy = none;
    locations = none;
    database_account_offer_type = "";
    ip_range_filter = none;
    enable_automatic_failover = none;
    enable_multiple_write_locations = none;
    enable_cassandra_connector = none;
  }
  from_database_properties (some a) = record {
    consistency_policy = from_database_consistency_policy a.consistency_policy;
    locations = from_database_locations a.read_locations;
    database_account_offer_type = a.database_account_offer_type;
    ip_range_filter = none;
    enable_automatic_failover = a.enable_automatic_failover;
    enable_multiple_write_locations = a.enable_multiple_write_locations;
    enable_cassandra_connector = a.enable_cassandra_connector;
  }

  unfoldable pub check_equal_database_properties :
      Sorter → AccountProperties → DatabaseAccount → Outcome Bool
  unfolding from_database_properties equal_consistency_policy_if_not_null check_equal_locations
      equal_bool_if_not_null
  check_equal_database_properties sort p a =
      let o = from_database_properties (some a.properties) in
      equal_consistency_policy_if_not_null p.consistency_policy o.consistency_policy
      and_also (check_equal_locations sort p.locations o.locations
          && equal_bool_if_not_null p.enable_automatic_failover o.enable_automatic_failover
          && equal_bool_if_not_null p.enable_multiple_write_locations
              o.enable_multiple_write_locations)

  abbrev pub update_cosmos_db_account_observation : DatabaseAccount → AccountObservation
  update_cosmos_db_account_observation a = record {
    id = to_string a.id;
    state = to_string a.properties.provisioning_state;
  }
