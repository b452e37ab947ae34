-- ===== src/Dns/InSync.antt =====
-- When DNS zones and record sets count as up to date.
use provider_azure.Prelude.{
  ◌≡◌, refl, ◌↔◌, ◌⊎◌, inl, inr, ◌≢◌, Bool, true, ◌&&◌, Option, none, List, arith, eq_iff, String,
  ptr_eq_iff, Bool-cases, list_eq, if◌then◌else◌, list_eq_iff, nat_eq_iff, nat_eq, ◌==◌, ptr_eq,
}
use provider_azure.Go.Errors.{ok}
use provider_azure.Go.Maps.{Slice, map_eq}
use provider_azure.Go.Effect.{Session}
use provider_azure.Vendor.{Vendor, available}
use provider_azure.Dns.{SubResource, DnsZone, RecordSet}
use provider_azure.Dns.Sdk.{
  AzureZone, AzureCaaRecord, AzureMxRecord, AzureSrvRecord, AzureSoaRecord, RecordSetProperties,
  AzureRecordSet,
}
use provider_azure.Dns.Params.{
  new_sub_resource_parameters, new_zone_parameters, zone_is_up_to_date, new_record_set_parameters,
  update_record_set_status_from_azure, update_zone_status_from_azure,
}
use provider_azure.Dns.Records.{
  string_ptr_eq, number_ptr_eq, records_eq, sub_resource_eq, a_eq, aaaa_eq, caa_eq, mx_eq, ns_eq,
  record_ptr_eq, srv_eq, texts_eq, txt_eq, cname_eq, soa_eq, records_agree,
  record_set_is_up_to_date,
}
use provider_azure.Dns.Zones.{ZonesClient, available_zone, observe_zone}
use provider_azure.Dns.RecordSets.{RecordSetsClient, late_initialized, observe_record_set}

infixl 5 ◌and◌
◌and◌ : {P Q : Type 0} {a b : Bool} → (a ≡ true) ↔ P → (b ≡ true) ↔ Q → ((a && b) ≡ true) ↔ (P × Q)
◌and◌ {a = a} {b = b} p q = ground (arith, p, q)

string_iff : (p q : Option _) → (string_ptr_eq p q ≡ true) ↔ (p ≡ q)
string_iff p q = ptr_eq_iff ◌==◌ p q eq_iff

number_iff : (p q : Option _) → (number_ptr_eq p q ≡ true) ↔ (p ≡ q)
number_iff p q = ptr_eq_iff nat_eq p q nat_eq_iff

records_iff :
    {A : Type 0} (eq : A → A → Bool) (p q : Option (List A))
    → ((a b : A) → (eq a b ≡ true) ↔ (a ≡ b))
    → (records_eq eq p q ≡ true) ↔ (p ≡ q)
records_iff eq p q h = ptr_eq_iff (list_eq eq) p q (λ l m. list_eq_iff eq l m h)

sub_resource_iff : (a b : SubResource) → (sub_resource_eq a b ≡ true) ↔ (a ≡ b)
sub_resource_iff a b = ground (arith, string_iff a.id b.id)

caa_iff : (a b : AzureCaaRecord) → (caa_eq a b ≡ true) ↔ (a ≡ b)
caa_iff a b =
    ground (arith, number_iff a.flags b.flags, string_iff a.tag b.tag, string_iff a.value b.value)

mx_iff : (a b : AzureMxRecord) → (mx_eq a b ≡ true) ↔ (a ≡ b)
mx_iff a b = ground (arith, number_iff a.preference b.preference, string_iff a.exchange b.exchange)

srv_iff : (a b : AzureSrvRecord) → (srv_eq a b ≡ true) ↔ (a ≡ b)
srv_iff a b = ground (
  arith,
  number_iff a.priority b.priority,
  number_iff a.weight b.weight,
  number_iff a.port b.port,
  string_iff a.target b.target,
)

texts_iff : (p q : Option (Slice String)) → (texts_eq p q ≡ true) ↔ (p ≡ q)
texts_iff p q = ptr_eq_iff (records_eq ◌==◌) p q (λ s t. records_iff ◌==◌ s t eq_iff)

soa_iff : (a b : AzureSoaRecord) → (soa_eq a b ≡ true) ↔ (a ≡ b)
soa_iff a b =
    let e =
      string_iff a.host b.host
      and string_iff a.email b.email
      and number_iff a.serial_number b.serial_number
      and number_iff a.refresh_time b.refresh_time
      and number_iff a.retry_time b.retry_time
      and number_iff a.expire_time b.expire_time
      and number_iff a.minimum_ttl b.minimum_ttl in
    (λ h. let q = e.0 h in ground arith, λ h. e.1 (ground arith))

-- The properties `a`, with the fields that the comparison leaves out taken from `b`.
abbrev pub with_ignored : RecordSetProperties → RecordSetProperties → RecordSetProperties
with_ignored a b = record a {
  metadata = b.metadata;
  fqdn = b.fqdn;
  provisioning_state = b.provisioning_state;
}

records_agree_iff :
    (a b : RecordSetProperties) → (records_agree a b ≡ true) ↔ (with_ignored a b ≡ b)
unfolding records_agree
records_agree_iff a b =
    let e =
      number_iff a.ttl b.ttl
      and ptr_eq_iff sub_resource_eq a.target_resource b.target_resource sub_resource_iff
      and records_iff a_eq a.a_records b.a_records
          (λ x y. ground (arith, string_iff x.ipv4_address y.ipv4_address))
      and records_iff aaaa_eq a.aaaa_records b.aaaa_records
          (λ x y. ground (arith, string_iff x.ipv6_address y.ipv6_address))
      and records_iff mx_eq a.mx_records b.mx_records mx_iff
      and records_iff ns_eq a.ns_records b.ns_records
          (λ x y. ground (arith, string_iff x.nsd_name y.nsd_name))
      and records_iff record_ptr_eq a.ptr_records b.ptr_records
          (λ x y. ground (arith, string_iff x.ptrd_name y.ptrd_name))
      and records_iff srv_eq a.srv_records b.srv_records srv_iff
      and records_iff txt_eq a.txt_records b.txt_records
          (λ x y. ground (arith, texts_iff x.value y.value))
      and ptr_eq_iff cname_eq a.cname_record b.cname_record
          (λ x y. ground (arith, string_iff x.cname y.cname))
      and ptr_eq_iff soa_eq a.soa_record b.soa_record soa_iff
      and records_iff caa_eq a.caa_records b.caa_records caa_iff in
    (λ h. let q = e.0 h in ground arith, λ h. e.1 (ground arith))

module _ {W : Type 0} ⦃v : Vendor⦄ where
  -- Where Azure answers with a record set, Observe returns no error and says that it exists; the
  -- object has its status, and its metadata where it had none. It is up to date exactly if Azure has
  -- not reported success, or if the metadata are equal as maps and what Create and Update
  -- would now send equals Azure's properties in all fields but the metadata, the domain name and the
  -- state. Only after a success is the object marked as available.
  pub observe_record_set_iff :
      (client : RecordSetsClient W) (s : Session RecordSet W) (az : AzureRecordSet) (w : W)
      → client.get s.object.for_provider.resource_group_name s.object.for_provider.zone_name
          s.object.external_name s.object.for_provider.record_type s.world
        ≡ (ok az, w)
      → let (o, t) = observe_record_set client s in
        let r = update_record_set_status_from_azure (late_initialized client az s.object) az in
        let sent = new_record_set_parameters r.for_provider in
        (o.1 ≡ none)
        × (o.0.resource_exists ≡ true)
        × ((o.0.resource_up_to_date ≡ true) ↔ (
            (r.at_provider.provisioning_state ≢ "Succeeded")
            ⊎ ((map_eq (ptr_eq ◌==◌) sent.metadata az.properties.metadata ≡ true)
                × (with_ignored sent az.properties ≡ az.properties))))
        × (t ≡ record {
          object =
              if r.at_provider.provisioning_state == "Succeeded"
              then record r { conditions = v.set_condition available r.conditions }
              else r;
          world = w;
        })
  unfolding observe_record_set record_set_is_up_to_date
  observe_record_set_iff client s az w g =
      let r = update_record_set_status_from_azure (late_initialized client az s.object) az in
      let sent = new_record_set_parameters r.for_provider in
      let succeeded = eq_iff r.at_provider.provisioning_state "Succeeded" in
      let same = map_eq (ptr_eq ◌==◌) sent.metadata az.properties.metadata in
      let agree = (λ h. h, λ h. h) and records_agree_iff sent az.properties in
      elim (Bool-cases (r.at_provider.provisioning_state == "Succeeded")) [
        | inl h ↦
            rw (g, h)
              (
                refl,
                refl,
                (
                  λ u. inr (agree.0 u),
                  λ u. elim u [ inl n ↦ absurd (n (succeeded.0 h)) | inr q ↦ agree.1 q ],
                ),
                refl,
              )
        | inr h ↦ rw (g, h) (refl, refl, (λ u. inl (λ e. cc (succeeded.1 e, h)), λ u. refl), refl)
      ]

  -- Where Azure answers with a zone, Observe returns no error, says that the zone exists, records its
  -- status and marks the object as available. The zone is up to date exactly if its tags equal the
  -- user's as maps, a nil map of the user counting as empty, and its registration networks and also
  -- its resolution networks are the user's registration networks; the user's resolution networks do
  -- not matter.
  pub observe_zone_iff :
      (client : ZonesClient W) (s : Session DnsZone W) (az : AzureZone) (w : W)
      → client.get s.object.for_provider.resource_group_name s.object.external_name s.world
        ≡ (ok az, w)
      → let (o, t) = observe_zone client s in
        let sent = new_zone_parameters s.object in
        let asked =
          new_sub_resource_parameters s.object.for_provider.registration_virtual_networks in
        (o.1 ≡ none)
        × (o.0.resource_exists ≡ true)
        × ((o.0.resource_up_to_date ≡ true) ↔ (
            (map_eq (ptr_eq ◌==◌) sent.tags az.parameters.tags ≡ true)
            × (az.parameters.registration_virtual_networks ≡ asked)
            × (az.parameters.resolution_virtual_networks ≡ asked)))
        × (t ≡ record { object = available_zone client az s.object; world = w })
  unfolding observe_zone zone_is_up_to_date new_zone_parameters update_zone_status_from_azure
  observe_zone_iff client s az w g =
      let asked = new_sub_resource_parameters s.object.for_provider.registration_virtual_networks in
      let first =
        records_iff sub_resource_eq asked az.parameters.registration_virtual_networks
          sub_resource_iff in
      let second =
        records_iff sub_resource_eq asked az.parameters.resolution_virtual_networks
          sub_resource_iff in
      rw g (ground (arith, first, second))
