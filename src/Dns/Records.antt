-- ===== src/Dns/Records.antt =====
-- pkg/clients/dns/dns.go: RecordSetIsUpToDate, with the equality of the SDK's record types that
-- cmp.Equal decides.
use provider_azure.Prelude.{String, ℕ, Bool, ◌&&◌, Option, List, ◌==◌, nat_eq, ptr_eq, list_eq}
use provider_azure.Go.Maps.{Slice, map_eq}
use provider_azure.Vendor.{Vendor}
use provider_azure.Dns.{
  SubResource, ARecord, AaaaRecord, CnameRecord, NsRecord, PtrRecord, RecordSetParameters,
}
use provider_azure.Dns.Sdk.{
  AzureCaaRecord, AzureMxRecord, AzureSrvRecord, AzureTxtRecord, AzureSoaRecord,
  RecordSetProperties,
}
use provider_azure.Dns.Params.{new_record_set_parameters}

abbrev pub string_ptr_eq : Option String → Option String → Bool
string_ptr_eq = ptr_eq ◌==◌

abbrev pub number_ptr_eq : Option ℕ → Option ℕ → Bool
number_ptr_eq = ptr_eq nat_eq

abbrev pub records_eq : {A : Type 0} → (A → A → Bool) → Option (List A) → Option (List A) → Bool
records_eq eq = ptr_eq (list_eq eq)

abbrev pub sub_resource_eq : SubResource → SubResource → Bool
sub_resource_eq a b = string_ptr_eq a.id b.id

abbrev pub a_eq : ARecord → ARecord → Bool
a_eq a b = string_ptr_eq a.ipv4_address b.ipv4_address

abbrev pub aaaa_eq : AaaaRecord → AaaaRecord → Bool
aaaa_eq a b = string_ptr_eq a.ipv6_address b.ipv6_address

abbrev pub caa_eq : AzureCaaRecord → AzureCaaRecord → Bool
caa_eq a b =
    number_ptr_eq a.flags b.flags && string_ptr_eq a.tag b.tag && string_ptr_eq a.value b.value

abbrev pub mx_eq : AzureMxRecord → AzureMxRecord → Bool
mx_eq a b = number_ptr_eq a.preference b.preference && string_ptr_eq a.exchange b.exchange

abbrev pub ns_eq : NsRecord → NsRecord → Bool
ns_eq a b = string_ptr_eq a.nsd_name b.nsd_name

abbrev pub record_ptr_eq : PtrRecord → PtrRecord → Bool
record_ptr_eq a b = string_ptr_eq a.ptrd_name b.ptrd_name

abbrev pub srv_eq : AzureSrvRecord → AzureSrvRecord → Bool
srv_eq a b =
    number_ptr_eq a.priority b.priority
    && number_ptr_eq a.weight b.weight
    && number_ptr_eq a.port b.port
    && string_ptr_eq a.target b.target

abbrev pub texts_eq : Option (Slice String) → Option (Slice String) → Bool
texts_eq = ptr_eq (ptr_eq (list_eq ◌==◌))

abbrev pub txt_eq : AzureTxtRecord → AzureTxtRecord → Bool
txt_eq a b = texts_eq a.value b.value

abbrev pub cname_eq : CnameRecord → CnameRecord → Bool
cname_eq a b = string_ptr_eq a.cname b.cname

abbrev pub soa_eq : AzureSoaRecord → AzureSoaRecord → Bool
soa_eq a b =
    string_ptr_eq a.host b.host
    && string_ptr_eq a.email b.email
    && number_ptr_eq a.serial_number b.serial_number
    && number_ptr_eq a.refresh_time b.refresh_time
    && number_ptr_eq a.retry_time b.retry_time
    && number_ptr_eq a.expire_time b.expire_time
    && number_ptr_eq a.minimum_ttl b.minimum_ttl

-- All fields of the properties but the metadata, `Fqdn` and `ProvisioningState`.
unfoldable pub records_agree : RecordSetProperties → RecordSetProperties → Bool
records_agree a b =
    number_ptr_eq a.ttl b.ttl
    && ptr_eq sub_resource_eq a.target_resource b.target_resource
    && records_eq a_eq a.a_records b.a_records
    && records_eq aaaa_eq a.aaaa_records b.aaaa_records
    && records_eq mx_eq a.mx_records b.mx_records
    && records_eq ns_eq a.ns_records b.ns_records
    && records_eq record_ptr_eq a.ptr_records b.ptr_records
    && records_eq srv_eq a.srv_records b.srv_records
    && records_eq txt_eq a.txt_records b.txt_records
    && ptr_eq cname_eq a.cname_record b.cname_record
    && ptr_eq soa_eq a.soa_record b.soa_record
    && records_eq caa_eq a.caa_records b.caa_records

module _ ⦃v : Vendor⦄ where
  unfoldable pub record_set_is_up_to_date : RecordSetParameters → RecordSetProperties → Bool
  unfolding records_agree
  record_set_is_up_to_date r az =
      let up = new_record_set_parameters r in
      map_eq string_ptr_eq up.metadata az.metadata && records_agree up az
