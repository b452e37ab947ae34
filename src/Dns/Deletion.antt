-- ===== src/Dns/Deletion.antt =====
-- What Delete asks Azure for.
use provider_azure.Prelude.{
  ◌≡◌, refl, Option, none, some, Bool-cases, inl, inr, ◌==◌, if◌then◌else◌,
}
use provider_azure.Go.Errors.{Err, ok}
use provider_azure.Go.Effect.{Session}
use provider_azure.Vendor.{Vendor, Documented}
use provider_azure.Azure.Convert.{is_not_found, is_not_found_error, to_string}
use provider_azure.Dns.{RecordSet, RecordSetObservation}
use provider_azure.Dns.Sdk.{AzureRecordSet}
use provider_azure.Dns.Params.{update_record_set_status_from_azure}
use provider_azure.Dns.RecordSets.{RecordSetsClient, delete_record_set}

module _ ⦃v : Vendor⦄ (d : Documented v) where
  ignore_not_found :
      (x : Option Err) → v.ignore is_not_found_error x ≡ (if is_not_found x then none else x)
  unfolding is_not_found
  ignore_not_found none = d.ignore_nil is_not_found_error
  ignore_not_found (some e) = d.ignore_error is_not_found_error e

module _ {W : Type 0} (client : RecordSetsClient W) ⦃v : Vendor⦄ (d : Documented v) where
  -- Where Azure answers with a record set, what Delete does depends on that answer and not on the
  -- status that the object had: it records the answer, calls nothing more if Azure is deleting the
  -- record set already, and otherwise asks for the deletion of the record set with the answer's etag,
  -- returning any error but that it is not found.
  pub delete_record_set-etag :
      (s : Session RecordSet W) (status : RecordSetObservation) (az : AzureRecordSet) (w : W)
      → client.get s.object.for_provider.resource_group_name s.object.for_provider.zone_name
          s.object.external_name s.object.for_provider.record_type s.world
        ≡ (ok az, w)
      → let (x, w') =
          client.delete s.object.for_provider.resource_group_name s.object.for_provider.zone_name
            s.object.external_name s.object.for_provider.record_type
            (to_string az.etag)
            w in
        let r = update_record_set_status_from_azure s.object az in
        delete_record_set client
          (record { object = record (s.object) { at_provider = status }; world = s.world })
        ≡ (if to_string az.properties.provisioning_state == "Deleting"
            then (none, record { object = r; world = w })
            else (
              v.wrap (if is_not_found x then none else x) "cannot delete DNS RecordSet",
              record { object = r; world = w' },
            ))
  unfolding delete_record_set update_record_set_status_from_azure
  delete_record_set-etag s status az w g =
      let (x, w') =
        client.delete s.object.for_provider.resource_group_name s.object.for_provider.zone_name
          s.object.external_name s.object.for_provider.record_type (to_string az.etag) w in
      let same = ignore_not_found d x in
      elim (Bool-cases (to_string az.properties.provisioning_state == "Deleting")) [
        | inl h ↦ rw (g, h) refl
        | inr h ↦ rw (g, h, same) refl
      ]
