-- ===== src/Dns/Tests.antt =====
-- A DNS zone and a record set in it: the world counts the calls.
use provider_azure.Prelude.{
  ℕ, String, List, ◌+◌, ◌≡◌, refl, ◌≢◌, ◌⊎◌, ◌↔◌, true, false, Option, none, some, [], ◌∷◌, ◌==◌,
  ptr_eq, if◌then◌else◌,
}
use provider_azure.Go.Errors.{int_code, detailed, ok}
use provider_azure.Go.Maps.{map_eq}
use provider_azure.Go.Effect.{Session}
use provider_azure.Vendor.{Conditions, available}
use provider_azure.Vendor.Standard.{standard, standard-Documented}
use provider_azure.Azure.Convert.{is_not_found, to_string}
use provider_azure.Dns.{SubResource, DnsZone, RecordSet, RecordSetParameters, RecordSetObservation}
use provider_azure.Dns.Sdk.{AzureZone, RecordSetProperties, AzureRecordSet}
use provider_azure.Dns.Params.{
  new_sub_resource_parameters, new_zone_parameters, new_record_set_parameters,
  update_record_set_status_from_azure,
}
use provider_azure.Dns.Zones.{ZonesClient, available_zone, observe_zone}
use provider_azure.Dns.RecordSets.{
  RecordSetsClient, late_initialized, observe_record_set, delete_record_set,
}
use provider_azure.Dns.InSync.{with_ignored, observe_record_set_iff, observe_zone_iff}
use provider_azure.Dns.Deletion.{delete_record_set-etag}

abbrev no_conditions : Conditions
no_conditions = record { ready = none; synced = none }

abbrev networks : Option String → Option (List SubResource)
networks id = some (record { id = id } ∷ [])

-- A private zone with two networks, and the zone that Azure has with just these.
abbrev zone : DnsZone
zone = record {
  external_name = "example.org";
  for_provider = record {
    resource_group_name = "rg";
    location = "global";
    zone_type = some "Private";
    registration_virtual_networks = networks (some "a");
    resolution_virtual_networks = networks (some "b");
    tags = none;
  };
  at_provider = record {
    id = "";
    etag = "";
    name = "";
    max_number_of_record_sets = 0;
    number_of_record_sets = 0;
    name_servers = none;
    type = "";
  };
  conditions = no_conditions;
}

abbrev azure_zone : AzureZone
azure_zone = record {
  parameters = record {
    name = some "example.org";
    zone_type = "Private";
    location = some "global";
    registration_virtual_networks = networks (some "a");
    resolution_virtual_networks = networks (some "b");
    tags = some [];
  };
  id = some "id";
  etag = some "1";
  type = some "zone";
  max_number_of_record_sets = some 5000;
  number_of_record_sets = some 2;
  name_servers = none;
}

abbrev zones : ZonesClient ℕ
zones = record {
  get = λ g n w. (ok azure_zone, w + 1);
  create_or_update = λ g n p w. (none, w + 1);
  delete = λ g n e w. (none, w + 1);
}

abbrev zone_session : Session DnsZone ℕ
zone_session = record { object = zone; world = 0 }

zone_is_out_of_date :
    (observe_zone zones ⦃v = standard⦄ zone_session).0.0.resource_up_to_date ≡ false
unfolding observe_zone provider_azure.Dns.Params.zone_is_up_to_date map_eq new_zone_parameters
    provider_azure.Dns.Params.update_zone_status_from_azure
zone_is_out_of_date = refl

observe_zone_iff_example :
    let (o, t) = observe_zone zones ⦃v = standard⦄ zone_session in
    let sent = new_zone_parameters ⦃v = standard⦄ zone in
    let asked = new_sub_resource_parameters zone.for_provider.registration_virtual_networks in
    (o.1 ≡ none)
    × (o.0.resource_exists ≡ true)
    × ((o.0.resource_up_to_date ≡ true) ↔ (
        (map_eq (ptr_eq ◌==◌) sent.tags azure_zone.parameters.tags ≡ true)
        × (azure_zone.parameters.registration_virtual_networks ≡ asked)
        × (azure_zone.parameters.resolution_virtual_networks ≡ asked)))
    × (t ≡ record { object = available_zone zones ⦃v = standard⦄ azure_zone zone; world = 1 })
observe_zone_iff_example = observe_zone_iff ⦃v = standard⦄ zones zone_session azure_zone 1 refl

abbrev parameters : RecordSetParameters
parameters = record {
  resource_group_name = "rg";
  zone_name = "example.org";
  metadata = none;
  ttl = 3600;
  target_resource = none;
  record_type = "A";
  a_records = some (record { ipv4_address = some "10.0.0.1" } ∷ []);
  aaaa_records = none;
  mx_records = none;
  ns_records = none;
  ptr_records = none;
  srv_records = none;
  txt_records = some [];
  cname_record = record { cname = none };
  soa_record = record {
    host = none;
    email = none;
    serial_number = none;
    refresh_time = none;
    retry_time = none;
    expire_time = none;
    minimum_ttl = none;
  };
  caa_records = none;
}

abbrev no_status : RecordSetObservation
no_status = record { id = ""; etag = ""; name = ""; type = ""; fqdn = ""; provisioning_state = "" }

abbrev record_set : RecordSet
record_set = record {
  external_name = "www";
  for_provider = parameters;
  at_provider = no_status;
  conditions = no_conditions;
}

abbrev properties_in : String → RecordSetProperties
properties_in state = record {
  metadata = some (("team", some "a") ∷ []);
  ttl = some 3600;
  fqdn = some "www.example.org";
  provisioning_state = some state;
  target_resource = some (record { id = none });
  a_records = some (record { ipv4_address = some "10.0.0.1" } ∷ []);
  aaaa_records = none;
  mx_records = none;
  ns_records = none;
  ptr_records = none;
  srv_records = none;
  txt_records = none;
  cname_record = none;
  soa_record = none;
  caa_records = none;
}

abbrev azure_record_set : AzureRecordSet
azure_record_set = record {
  id = some "id";
  etag = some "7";
  name = some "www";
  type = some "A";
  properties = properties_in "Succeeded";
}

-- A deletion finds that the record set is gone.
abbrev record_sets : RecordSetsClient ℕ
record_sets = record {
  get = λ g z n t w. (ok azure_record_set, w + 1);
  create_or_update = λ g z n t p w. (none, w + 1);
  delete = λ g z n t e w. (some (detailed (int_code 404)), w + 1);
}

abbrev session : Session RecordSet ℕ
session = record { object = record_set; world = 0 }

record_set_is_up_to_date_test :
    (observe_record_set record_sets ⦃v = standard⦄ session).0.0.resource_up_to_date ≡ true
unfolding observe_record_set update_record_set_status_from_azure
    provider_azure.Dns.Records.record_set_is_up_to_date map_eq new_record_set_parameters
    late_initialized provider_azure.Go.Maps.lookup
record_set_is_up_to_date_test = refl

observe_record_set_iff_example :
    let (o, t) = observe_record_set record_sets ⦃v = standard⦄ session in
    let az = azure_record_set in
    let late = late_initialized record_sets ⦃v = standard⦄ az record_set in
    let r = update_record_set_status_from_azure ⦃v = standard⦄ late az in
    let sent = new_record_set_parameters ⦃v = standard⦄ r.for_provider in
    (o.1 ≡ none)
    × (o.0.resource_exists ≡ true)
    × ((o.0.resource_up_to_date ≡ true) ↔ (
        (r.at_provider.provisioning_state ≢ "Succeeded")
        ⊎ ((map_eq (ptr_eq ◌==◌) sent.metadata az.properties.metadata ≡ true)
            × (with_ignored sent az.properties ≡ az.properties))))
    × (t ≡ record {
      object =
          if r.at_provider.provisioning_state == "Succeeded"
          then record r { conditions = standard.set_condition available r.conditions }
          else r;
      world = 1;
    })
observe_record_set_iff_example =
    observe_record_set_iff ⦃v = standard⦄ record_sets session azure_record_set 1 refl

delete_record_set-etag_example :
    let r = update_record_set_status_from_azure ⦃v = standard⦄ record_set azure_record_set in
    let gone = some (detailed (int_code 404)) in
    delete_record_set record_sets ⦃v = standard⦄
      (record { object = record record_set { at_provider = no_status }; world = 0 })
    ≡ (if to_string ⦃v = standard⦄ azure_record_set.properties.provisioning_state == "Deleting"
        then (none, record { object = r; world = 1 })
        else (
          standard.wrap (if is_not_found gone then none else gone) "cannot delete DNS RecordSet",
          record { object = r; world = 2 },
        ))
delete_record_set-etag_example =
    delete_record_set-etag record_sets ⦃v = standard⦄ standard-Documented session no_status
      azure_record_set 1 refl
