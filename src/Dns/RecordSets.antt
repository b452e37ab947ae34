-- ===== src/Dns/RecordSets.antt =====
-- The client of DNS record sets, pkg/clients/dns/dns.go, and pkg/controller/dns/recordset/managed.go,
-- what the managed reconciler calls.
use provider_azure.Prelude.{String, true, not, Option, none, some, ◌==◌, if◌then◌else◌}
use provider_azure.Go.Errors.{Err, message, Result, ok, err}
use provider_azure.Go.Effect.{M, ◌>>=◌, ◌>>◌, pure, get_object, modify, call}
use provider_azure.Vendor.{Vendor, available}
use provider_azure.Azure.Convert.{is_not_found, is_not_found_error}
use provider_azure.Azure.LateInit.{late_initialize_string_map}
use provider_azure.Managed.{no_details, no_observation, Observed, Detailed, of_kind}
use provider_azure.Dns.{RecordSet}
use provider_azure.Dns.Sdk.{RecordSetProperties, AzureRecordSet}
use provider_azure.Dns.Params.{new_record_set_parameters, update_record_set_status_from_azure}
use provider_azure.Dns.Records.{record_set_is_up_to_date}

-- The SDK's `RecordSetsClient`: each call takes the resource group, the zone, the name and the type
-- of the records; a deletion, the etag that the record set must have as well.
pub record RecordSetsClient (W : Type 0) : Type 0 where
  pub get : String → String → String → String → W → Result AzureRecordSet × W
  pub create_or_update :
      String → String → String → String → RecordSetProperties → W → Option Err × W
  pub delete : String → String → String → String → String → W → Option Err × W

abbrev pub err_not_record_set : Err
err_not_record_set = message "managed resource is not an DNS RecordSet"

abbrev record_set_successful_state : String
record_set_successful_state = "Succeeded"

abbrev record_set_deleting_state : String
record_set_deleting_state = "Deleting"

module _ {W : Type 0} (client : RecordSetsClient W) ⦃v : Vendor⦄ where
  unfoldable pub get_record_set : RecordSet → W → Result AzureRecordSet × W
  get_record_set r =
      let p = r.for_provider in
      client.get p.resource_group_name p.zone_name r.external_name p.record_type

  unfoldable pub create_or_update_record_set : RecordSet → W → Option Err × W
  create_or_update_record_set r =
      let p = r.for_provider in
      client.create_or_update p.resource_group_name p.zone_name r.external_name p.record_type
        (new_record_set_parameters p)

  unfoldable pub delete_azure_record_set : RecordSet → W → Option Err × W
  delete_azure_record_set r =
      let p = r.for_provider in
      client.delete p.resource_group_name p.zone_name r.external_name p.record_type
        r.at_provider.etag

  unfoldable pub late_initialized : AzureRecordSet → RecordSet → RecordSet
  unfolding late_initialize_string_map
  late_initialized az r = record r {
    for_provider = record (r.for_provider) {
      metadata = late_initialize_string_map r.for_provider.metadata az.properties.metadata;
    };
  }

  abbrev judged : AzureRecordSet → RecordSet → M RecordSet W Observed
  judged az r =
      if not (r.at_provider.provisioning_state == record_set_successful_state)
      then pure (record no_observation { resource_exists = true; resource_up_to_date = true }, none)
      else (do
        modify (λ r. record r { conditions = v.set_condition available r.conditions })
        pure (
          record no_observation {
            resource_exists = true;
            resource_up_to_date = record_set_is_up_to_date r.for_provider az.properties;
          },
          none,
        ))

  abbrev fetched : Result AzureRecordSet → M RecordSet W Observed
  fetched (err x) =
      if is_not_found (some x)
      then pure (no_observation, none)
      else pure (no_observation, v.wrap (some x) "cannot get DNS RecordSet")
  fetched (ok az) = do
    modify (late_initialized az)
    modify (λ r. update_record_set_status_from_azure r az)
    r ← get_object
    judged az r

  unfoldable pub observe_record_set : M RecordSet W Observed
  unfolding get_record_set
  observe_record_set = do r ← get_object; az ← call (get_record_set r); fetched az

  unfoldable pub create_record_set : M RecordSet W Detailed
  unfolding create_or_update_record_set
  create_record_set = do
    r ← get_object
    x ← call (create_or_update_record_set r)
    pure (no_details, v.wrap x "cannot create DNS RecordSet")

  abbrev resend : Result AzureRecordSet → M RecordSet W Detailed
  resend (err x) = pure (no_details, v.wrap (some x) "cannot get DNS RecordSet")
  resend (ok az) = do
    modify (λ r. update_record_set_status_from_azure r az)
    r ← get_object
    x ← call (create_or_update_record_set r)
    pure (no_details, v.wrap x "cannot update DNS RecordSet")

  unfoldable pub update_record_set : M RecordSet W Detailed
  unfolding get_record_set create_or_update_record_set
  update_record_set = do r ← get_object; az ← call (get_record_set r); resend az

  abbrev remove : Result AzureRecordSet → M RecordSet W (Option Err)
  remove (err x) = pure (v.wrap (some x) "cannot get DNS RecordSet")
  remove (ok az) = do
    modify (λ r. update_record_set_status_from_azure r az)
    r ← get_object
    if r.at_provider.provisioning_state == record_set_deleting_state then pure none else (do
      x ← call (delete_azure_record_set r)
      pure (v.wrap (v.ignore is_not_found_error x) "cannot delete DNS RecordSet"))

  unfoldable pub delete_record_set : M RecordSet W (Option Err)
  unfolding get_record_set delete_azure_record_set is_not_found
  delete_record_set = do r ← get_object; az ← call (get_record_set r); remove az

  unfoldable pub observe : M (Option RecordSet) W Observed
  unfolding observe_record_set
  observe = of_kind (no_observation, some err_not_record_set) observe_record_set

  unfoldable pub create : M (Option RecordSet) W Detailed
  unfolding create_record_set
  create = of_kind (no_details, some err_not_record_set) create_record_set

  unfoldable pub update : M (Option RecordSet) W Detailed
  unfolding update_record_set
  update = of_kind (no_details, some err_not_record_set) update_record_set

  unfoldable pub delete : M (Option RecordSet) W (Option Err)
  unfolding delete_record_set
  delete = of_kind (some err_not_record_set) delete_record_set
