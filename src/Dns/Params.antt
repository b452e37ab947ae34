-- ===== src/Dns/Params.antt =====
-- pkg/clients/dns/dns.go: parameters, statuses and the update test of zones; parameters of record
-- sets.
use provider_azure.Prelude.{
  String, Bool, false, true, ◌||◌, not, Option, none, some, List, [], ◌∷◌, map, ◌==◌, ptr_eq,
  list_eq, if◌then◌else◌,
}
use provider_azure.Go.Maps.{GoMap, Slice, map_eq}
use provider_azure.Vendor.{Vendor}
use provider_azure.Azure.Convert.{
  to_string, to_string_ptr, to_string_ptr_map, to_string_array, to_int64, int64_to_int,
  to_int32_ptr_from_int_ptr,
}
use provider_azure.Dns.{
  SubResource, DnsZone, CaaRecord, CnameRecord, MxRecord, SoaRecord, SrvRecord, TxtRecord,
  RecordSetParameters, RecordSet,
}
use provider_azure.Dns.Sdk.{
  AzureZoneParameters, AzureZone, AzureCaaRecord, AzureMxRecord, AzureSrvRecord, AzureTxtRecord,
  AzureSoaRecord, RecordSetProperties, AzureRecordSet,
}

abbrev pub new_sub_resource_parameters : Slice SubResource → Option (List SubResource)
new_sub_resource_parameters none = none
new_sub_resource_parameters (some e) = some (map (λ (s : SubResource). record { id = s.id }) e)

abbrev zone_type_of : Option String → String
zone_type_of none = ""
zone_type_of (some t) = t

-- The SDK answers with an empty map for a nil one.
abbrev tags_or_empty : GoMap (Option String) → GoMap (Option String)
tags_or_empty none = some []
tags_or_empty (some m) = some m

abbrev pub sub_resources_eq : Option (List SubResource) → Option (List SubResource) → Bool
sub_resources_eq = ptr_eq (list_eq λ (a : SubResource) (b : SubResource). ptr_eq ◌==◌ a.id b.id)

-- No pointer where there is no record.
abbrev pub records_of : {A B : Type 0} → (A → B) → Slice A → Option (List B)
records_of f none = none
records_of f (some []) = none
records_of f (some (x ∷ l)) = some (map f (x ∷ l))

abbrev pub cname_of : CnameRecord → Option CnameRecord
cname_of r = elim r.cname [ none ↦ none | some s ↦ some (record { cname = some s }) ]

-- A target, empty where there is none.
abbrev pub target_of : Option SubResource → Option SubResource
target_of none = some (record { id = none })
target_of (some t) = some (record { id = t.id })

module _ ⦃v : Vendor⦄ where
  -- Both networks come from the registration networks.
  unfoldable pub new_zone_parameters : DnsZone → AzureZoneParameters
  unfolding to_string_ptr
  new_zone_parameters r = record {
    name = to_string_ptr r.external_name [];
    zone_type = zone_type_of r.for_provider.zone_type;
    location = some r.for_provider.location;
    registration_virtual_networks =
        new_sub_resource_parameters r.for_provider.registration_virtual_networks;
    resolution_virtual_networks =
        new_sub_resource_parameters r.for_provider.registration_virtual_networks;
    tags = tags_or_empty r.for_provider.tags;
  }

  unfoldable pub zone_is_up_to_date : DnsZone → AzureZone → Bool
  zone_is_up_to_date r az =
      let up = new_zone_parameters r in
      if not (map_eq (ptr_eq ◌==◌) up.tags az.parameters.tags)
        || not (
            sub_resources_eq up.registration_virtual_networks
              az.parameters.registration_virtual_networks)
        || not (
            sub_resources_eq up.resolution_virtual_networks
              az.parameters.resolution_virtual_networks)
      then false
      else true

  unfoldable pub update_zone_status_from_azure : DnsZone → AzureZone → DnsZone
  unfolding to_string int64_to_int to_string_array
  update_zone_status_from_azure r az = record r {
    at_provider = record {
      id = to_string az.id;
      etag = to_string az.etag;
      name = to_string az.parameters.name;
      type = to_string az.type;
      max_number_of_record_sets = int64_to_int az.max_number_of_record_sets;
      name_servers = to_string_array az.name_servers;
      number_of_record_sets = int64_to_int az.number_of_record_sets;
    };
  }

  unfoldable pub update_record_set_status_from_azure : RecordSet → AzureRecordSet → RecordSet
  unfolding to_string
  update_record_set_status_from_azure r az = record r {
    at_provider = record {
      id = to_string az.id;
      etag = to_string az.etag;
      name = to_string az.name;
      type = to_string az.type;
      provisioning_state = to_string az.properties.provisioning_state;
      fqdn = to_string az.properties.fqdn;
    };
  }

  abbrev pub caa_of : CaaRecord → AzureCaaRecord
  caa_of r = record { flags = to_int32_ptr_from_int_ptr r.flags; tag = r.tag; value = r.value }

  abbrev pub mx_of : MxRecord → AzureMxRecord
  mx_of r = record { preference = to_int32_ptr_from_int_ptr r.preference; exchange = r.exchange }

  abbrev pub srv_of : SrvRecord → AzureSrvRecord
  srv_of r = record {
    priority = to_int32_ptr_from_int_ptr r.priority;
    weight = to_int32_ptr_from_int_ptr r.weight;
    port = to_int32_ptr_from_int_ptr r.port;
    target = r.target;
  }

  abbrev pub txt_of : TxtRecord → AzureTxtRecord
  txt_of r = record { value = v.string_slice_ptr r.value }

  abbrev pub soa_of : SoaRecord → Option AzureSoaRecord
  soa_of r = elim r.host [
    | none ↦ none
    | some h ↦ some (record {
      host = some h;
      email = r.email;
      serial_number = to_int64 r.serial_number;
      refresh_time = to_int64 r.refresh_time;
      retry_time = to_int64 r.retry_time;
      expire_time = to_int64 r.expire_time;
      minimum_ttl = to_int64 r.minimum_ttl;
    })
  ]

  -- With newRecordParameters, which fills in the records.
  unfoldable pub new_record_set_parameters : RecordSetParameters → RecordSetProperties
  unfolding to_string_ptr_map to_int64 to_int32_ptr_from_int_ptr
  new_record_set_parameters r = record {
    metadata = to_string_ptr_map r.metadata;
    ttl = to_int64 (some r.ttl);
    fqdn = none;
    provisioning_state = none;
    target_resource = target_of r.target_resource;
    a_records = records_of (λ x. record { ipv4_address = x.ipv4_address }) r.a_records;
    aaaa_records = records_of (λ x. record { ipv6_address = x.ipv6_address }) r.aaaa_records;
    caa_records = records_of caa_of r.caa_records;
    mx_records = records_of mx_of r.mx_records;
    ns_records = records_of (λ x. record { nsd_name = x.nsd_name }) r.ns_records;
    ptr_records = records_of (λ x. record { ptrd_name = x.ptrd_name }) r.ptr_records;
    srv_records = records_of srv_of r.srv_records;
    txt_records = records_of txt_of r.txt_records;
    cname_record = cname_of r.cname_record;
    soa_record = soa_of r.soa_record;
  }
