-- ===== src/Dns/Sdk.antt =====
-- The types of the SDK's package dns, by the fields that the code uses. A record of the SDK has a
-- pointer where a record of the API type has one; its numbers have 32 or 64 bits. The properties of a
-- zone or a record set in an answer of Azure, a pointer that the code reads through without a test,
-- are taken to be there.
use provider_azure.Prelude.{ℕ, String, Option, List}
use provider_azure.Go.Maps.{GoMap, Slice}
use provider_azure.Dns.{SubResource, ARecord, AaaaRecord, CnameRecord, NsRecord, PtrRecord}

-- The part of a `dns.Zone` that the code sends, or compares.
pub record AzureZoneParameters : Type 0 where
  pub name : Option String
  pub zone_type : String
  pub location : Option String
  pub registration_virtual_networks : Option (List SubResource)
  pub resolution_virtual_networks : Option (List SubResource)
  pub tags : GoMap (Option String)

pub record AzureZone : Type 0 where
  pub parameters : AzureZoneParameters
  pub id : Option String
  pub etag : Option String
  pub type : Option String
  pub max_number_of_record_sets : Option ℕ  -- *int64
  pub number_of_record_sets : Option ℕ  -- *int64
  pub name_servers : Option (Slice String)

pub record AzureCaaRecord : Type 0 where
  pub flags : Option ℕ  -- *int32
  pub tag : Option String
  pub value : Option String

pub record AzureMxRecord : Type 0 where
  pub preference : Option ℕ  -- *int32
  pub exchange : Option String

pub record AzureSrvRecord : Type 0 where
  pub priority : Option ℕ  -- *int32
  pub weight : Option ℕ  -- *int32
  pub port : Option ℕ  -- *int32
  pub target : Option String

pub record AzureTxtRecord : Type 0 where
  pub value : Option (Slice String)

pub record AzureSoaRecord : Type 0 where
  pub host : Option String
  pub email : Option String
  pub serial_number : Option ℕ  -- *int64
  pub refresh_time : Option ℕ  -- *int64
  pub retry_time : Option ℕ  -- *int64
  pub expire_time : Option ℕ  -- *int64
  pub minimum_ttl : Option ℕ  -- *int64

-- `dns.RecordSetProperties`
pub record RecordSetProperties : Type 0 where
  pub metadata : GoMap (Option String)
  pub ttl : Option ℕ  -- *int64
  pub fqdn : Option String
  pub provisioning_state : Option String
  pub target_resource : Option SubResource
  pub a_records : Option (List ARecord)
  pub aaaa_records : Option (List AaaaRecord)
  pub mx_records : Option (List AzureMxRecord)
  pub ns_records : Option (List NsRecord)
  pub ptr_records : Option (List PtrRecord)
  pub srv_records : Option (List AzureSrvRecord)
  pub txt_records : Option (List AzureTxtRecord)
  pub cname_record : Option CnameRecord
  pub soa_record : Option AzureSoaRecord
  pub caa_records : Option (List AzureCaaRecord)

-- `dns.RecordSet`
pub record AzureRecordSet : Type 0 where
  pub id : Option String
  pub etag : Option String
  pub name : Option String
  pub type : Option String
  pub properties : RecordSetProperties
