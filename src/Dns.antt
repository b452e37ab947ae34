-- ===== src/Dns.antt =====
-- DNS zones and record sets: apis/dns/v1alpha1/dns_types.go, without references and selectors. An
-- `int` is its bit pattern of 64 bits.
pub mod Sdk
pub mod Params
pub mod Records
pub mod Zones
pub mod RecordSets
pub mod InSync
pub mod Deletion
pub mod Tests
use provider_azure.Prelude.{ℕ, String, Option}
use provider_azure.Go.Maps.{GoMap, Slice}
use provider_azure.Vendor.{Conditions}

pub record SubResource : Type 0 where
  pub id : Option String

pub record ZoneParameters : Type 0 where
  pub resource_group_name : String
  pub location : String
  pub zone_type : Option String
  pub registration_virtual_networks : Slice SubResource
  pub resolution_virtual_networks : Slice SubResource
  pub tags : GoMap (Option String)

pub record ZoneObservation : Type 0 where
  pub id : String
  pub etag : String
  pub name : String
  pub max_number_of_record_sets : ℕ
  pub number_of_record_sets : ℕ
  pub name_servers : Slice String
  pub type : String

pub record DnsZone : Type 0 where
  pub external_name : String
  pub for_provider : ZoneParameters
  pub at_provider : ZoneObservation
  pub conditions : Conditions

pub record ARecord : Type 0 where
  pub ipv4_address : Option String

pub record AaaaRecord : Type 0 where
  pub ipv6_address : Option String

pub record CaaRecord : Type 0 where
  pub flags : Option ℕ
  pub tag : Option String
  pub value : Option String

pub record CnameRecord : Type 0 where
  pub cname : Option String

pub record MxRecord : Type 0 where
  pub preference : Option ℕ
  pub exchange : Option String

pub record NsRecord : Type 0 where
  pub nsd_name : Option String

pub record PtrRecord : Type 0 where
  pub ptrd_name : Option String

pub record SoaRecord : Type 0 where
  pub host : Option String
  pub email : Option String
  pub serial_number : Option ℕ
  pub refresh_time : Option ℕ
  pub retry_time : Option ℕ
  pub expire_time : Option ℕ
  pub minimum_ttl : Option ℕ

pub record SrvRecord : Type 0 where
  pub priority : Option ℕ
  pub weight : Option ℕ
  pub port : Option ℕ
  pub target : Option String

pub record TxtRecord : Type 0 where
  pub value : Slice String

pub record RecordSetParameters : Type 0 where
  pub resource_group_name : String
  pub zone_name : String
  pub metadata : GoMap String
  pub ttl : ℕ
  pub target_resource : Option SubResource
  pub record_type : String
  pub a_records : Slice ARecord
  pub aaaa_records : Slice AaaaRecord
  pub mx_records : Slice MxRecord
  pub ns_records : Slice NsRecord
  pub ptr_records : Slice PtrRecord
  pub srv_records : Slice SrvRecord
  pub txt_records : Slice TxtRecord
  pub cname_record : CnameRecord
  pub soa_record : SoaRecord
  pub caa_records : Slice CaaRecord

pub record RecordSetObservation : Type 0 where
  pub id : String
  pub etag : String
  pub name : String
  pub type : String
  pub fqdn : String
  pub provisioning_state : String

pub record RecordSet : Type 0 where
  pub external_name : String
  pub for_provider : RecordSetParameters
  pub at_provider : RecordSetObservation
  pub conditions : Conditions
