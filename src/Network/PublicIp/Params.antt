-- ===== src/Network/PublicIp/Params.antt =====
-- pkg/clients/network/network.go: parameters, late initialisation, update test and observation of
-- public IP addresses.
use provider_azure.Prelude.{
  String, Bool, false, not, Option, none, some, List, [], ◌∷◌, ◌==◌, nat_eq, if◌then◌else◌,
}
use provider_azure.Go.Maps.{GoMap, Slice, entries, entries_eq}
use provider_azure.Vendor.{Vendor}
use provider_azure.Azure.Convert.{to_string, to_int, to_string_map, to_string_ptr_map}
use provider_azure.Azure.LateInit.{
  late_initialize_string_map, late_initialize_string_ptr_from_ptr,
  late_initialize_int32_ptr_from_int32_ptr,
}
use provider_azure.Network.Tags.{IpTag, is_ip_tags_up_to_date}
use provider_azure.Network.PublicIp.{
  DnsSettings, Sku, PublicIpAddressProperties, IpConfiguration, DnsSettingsObservation,
  PublicIpAddressObservation, PublicIpAddress, AzureDnsSettings, SubResource,
  AzureAddressParameters, AzureIpConfiguration, AzureAddress,
}

abbrev pub new_public_ip_prefix_ref : Option String → Option SubResource
new_public_ip_prefix_ref none = none
new_public_ip_prefix_ref (some ref) = some (record { id = some ref })

-- Nil where there are no tags.
abbrev pub new_ip_tags : Slice IpTag → Option (List IpTag)
new_ip_tags none = none
new_ip_tags (some []) = none
new_ip_tags (some (t ∷ l)) = some (t ∷ l)

abbrev pub new_dns_settings : Option DnsSettings → Option AzureDnsSettings
new_dns_settings none = none
new_dns_settings (some s) = some (record {
  domain_name_label = some s.domain_name_label;
  fqdn = none;
  reverse_fqdn = s.reverse_fqdn;
})

abbrev pub new_public_ip_address_sku : Option Sku → Option Sku
new_public_ip_address_sku none = none
new_public_ip_address_sku (some s) = some (record { name = s.name })

-- `make`, and a copy of each tag: the pointers of each tag of Azure are read without a test.
abbrev pub late_initialize_ip_tags : Slice IpTag → Option (List IpTag) → Slice IpTag
late_initialize_ip_tags (some (x ∷ t)) from = some (x ∷ t)
late_initialize_ip_tags t none = t
late_initialize_ip_tags t (some []) = t
late_initialize_ip_tags t (some (x ∷ from)) = some (x ∷ from)

abbrev pub late_initialize_address_sku : Option Sku → Option Sku → Option Sku
late_initialize_address_sku (some s) from = some s
late_initialize_address_sku none none = none
late_initialize_address_sku none (some s) = some (record { name = s.name })

abbrev pub late_initialize_prefix : Option String → Option SubResource → Option String
late_initialize_prefix (some p) from = some p
late_initialize_prefix none none = none
late_initialize_prefix none (some ref) = ref.id

abbrev pub prefix_id : Option SubResource → Option String
prefix_id none = none
prefix_id (some ref) = ref.id

abbrev pub name_or_empty : Option Sku → String
name_or_empty none = ""
name_or_empty (some s) = s.name

abbrev pub is_sku_up_to_date : Option Sku → Option Sku → Bool
is_sku_up_to_date s from = name_or_empty s == name_or_empty from

-- `cmp.Equal` with `cmpopts.EquateEmpty`: a nil map equals an empty one.
abbrev pub equal_or_empty : GoMap String → GoMap String → Bool
equal_or_empty m n = entries_eq ◌==◌ (entries m) (entries n)

-- The empty settings that stand for nil.
abbrev pub dns_or_empty : Option DnsSettings → DnsSettings
dns_or_empty none = record { domain_name_label = ""; reverse_fqdn = none }
dns_or_empty (some d) = d

abbrev pub azure_dns_or_empty : Option AzureDnsSettings → AzureDnsSettings
azure_dns_or_empty none = record { domain_name_label = none; fqdn = none; reverse_fqdn = none }
azure_dns_or_empty (some d) = d

module _ ⦃v : Vendor⦄ where
  unfoldable pub new_public_ip_address_parameters : PublicIpAddress → AzureAddressParameters
  unfolding to_string_ptr_map
  new_public_ip_address_parameters s = record {
    sku = new_public_ip_address_sku s.for_provider.sku;
    public_ip_allocation_method = s.for_provider.public_ip_allocation_method;
    public_ip_address_version = s.for_provider.public_ip_address_version;
    dns_settings = new_dns_settings s.for_provider.dns_settings;
    public_ip_prefix = new_public_ip_prefix_ref s.for_provider.public_ip_prefix_id;
    idle_timeout_in_minutes = s.for_provider.tcp_idle_timeout_in_minutes;
    ip_tags = new_ip_tags s.for_provider.ip_tags;
    location = some s.for_provider.location;
    tags = to_string_ptr_map s.for_provider.tags;
  }

  abbrev pub observed_configuration : Option AzureIpConfiguration → Option IpConfiguration
  observed_configuration none = none
  observed_configuration (some c) = elim c.properties [
    | none ↦ none
    | some p ↦ some (record {
      private_ip_address = p.private_ip_address;
      private_ip_allocation_method = p.private_ip_allocation_method;
      provisioning_state = to_string p.provisioning_state;
    })
  ]

  abbrev pub observed_dns : Option AzureDnsSettings → Option DnsSettingsObservation
  observed_dns none = none
  observed_dns (some d) = some (record {
    domain_name_label = d.domain_name_label;
    reverse_fqdn = d.reverse_fqdn;
    fqdn = d.fqdn;
  })

  -- A new observation, whose message is the zero value.
  unfoldable pub generate_public_ip_address_observation : AzureAddress → PublicIpAddressObservation
  generate_public_ip_address_observation az = record {
    state = to_string az.provisioning_state;
    message = "";
    etag = to_string az.etag;
    id = to_string az.id;
    address = to_string az.ip_address;
    version = az.parameters.public_ip_address_version;
    dns_settings = observed_dns az.parameters.dns_settings;
    ip_configuration = observed_configuration az.ip_configuration;
  }

  abbrev pub late_initialize_dns_settings :
      Option DnsSettings → Option AzureDnsSettings → Option DnsSettings
  late_initialize_dns_settings d none = d
  late_initialize_dns_settings d (some from) =
      let s = dns_or_empty d in
      some (record {
        domain_name_label =
            if s.domain_name_label == ""
            then to_string from.domain_name_label
            else s.domain_name_label;
        reverse_fqdn = late_initialize_string_ptr_from_ptr s.reverse_fqdn from.reverse_fqdn;
      })

  unfoldable pub late_initialize_public_ip_address :
      PublicIpAddressProperties → AzureAddress → PublicIpAddressProperties
  late_initialize_public_ip_address p az = record p {
    dns_settings = late_initialize_dns_settings p.dns_settings az.parameters.dns_settings;
    tags = late_initialize_string_map p.tags az.parameters.tags;
    sku = late_initialize_address_sku p.sku az.parameters.sku;
    public_ip_prefix_id =
        late_initialize_prefix p.public_ip_prefix_id az.parameters.public_ip_prefix;
    tcp_idle_timeout_in_minutes =
        late_initialize_int32_ptr_from_int32_ptr p.tcp_idle_timeout_in_minutes
          az.parameters.idle_timeout_in_minutes;
    ip_tags = late_initialize_ip_tags p.ip_tags az.parameters.ip_tags;
  }

  abbrev pub is_dns_settings_up_to_date : Option DnsSettings → Option AzureDnsSettings → Bool
  is_dns_settings_up_to_date d from =
      let s = dns_or_empty d in
      let az = azure_dns_or_empty from in
      if s.domain_name_label == to_string az.domain_name_label
      then to_string s.reverse_fqdn == to_string az.reverse_fqdn
      else false

  abbrev pub is_ip_prefix_id_up_to_date : Option String → Option SubResource → Bool
  is_ip_prefix_id_up_to_date p from = to_string p == to_string (prefix_id from)

  unfoldable pub is_public_ip_address_up_to_date : PublicIpAddressProperties → AzureAddress → Bool
  is_public_ip_address_up_to_date p az =
      if not (equal_or_empty p.tags (to_string_map az.parameters.tags))
      then false
      else if not (is_ip_prefix_id_up_to_date p.public_ip_prefix_id az.parameters.public_ip_prefix)
      then false
      else if not (
          nat_eq (to_int p.tcp_idle_timeout_in_minutes)
            (to_int az.parameters.idle_timeout_in_minutes))
      then false
      else if not (is_ip_tags_up_to_date p.ip_tags az.parameters.ip_tags)
      then false
      else if not (is_sku_up_to_date p.sku az.parameters.sku)
      then false
      else is_dns_settings_up_to_date p.dns_settings az.parameters.dns_settings
