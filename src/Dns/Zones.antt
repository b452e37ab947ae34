-- ===== src/Dns/Zones.antt =====
-- The client of DNS zones, pkg/clients/dns/dns.go, and pkg/controller/dns/zone/managed.go, what the
-- managed reconciler calls.
use provider_azure.Prelude.{String, true, Option, none, some, if◌then◌else◌}
use provider_azure.Go.Errors.{Err, message, Result, ok, err}
use provider_azure.Go.Effect.{M, ◌>>=◌, ◌>>◌, pure, get_object, modify, call}
use provider_azure.Vendor.{Vendor, available}
use provider_azure.Azure.Convert.{is_not_found, is_not_found_error}
use provider_azure.Managed.{no_details, no_observation, Observed, Detailed, of_kind}
use provider_azure.Dns.{DnsZone}
use provider_azure.Dns.Sdk.{AzureZoneParameters, AzureZone}
use provider_azure.Dns.Params.{
  new_zone_parameters, zone_is_up_to_date, update_zone_status_from_azure,
}

-- The SDK's `ZonesClient`: each call takes the resource group and the name; a deletion, the etag that
-- the zone must have as well.
pub record ZonesClient (W : Type 0) : Type 0 where
  pub get : String → String → W → Result AzureZone × W
  pub create_or_update : String → String → AzureZoneParameters → W → Option Err × W
  pub delete : String → String → String → W → Option Err × W

abbrev pub err_not_zone : Err
err_not_zone = message "managed resource is not an DNS Zone"

module _ {W : Type 0} (client : ZonesClient W) ⦃v : Vendor⦄ where
  unfoldable pub get_zone : DnsZone → W → Result AzureZone × W
  get_zone z = client.get z.for_provider.resource_group_name z.external_name

  unfoldable pub create_or_update_zone : DnsZone → W → Option Err × W
  create_or_update_zone z =
      client.create_or_update z.for_provider.resource_group_name z.external_name
        (new_zone_parameters z)

  unfoldable pub delete_azure_zone : DnsZone → W → Option Err × W
  delete_azure_zone z =
      client.delete z.for_provider.resource_group_name z.external_name z.at_provider.etag

  abbrev pub available_zone : AzureZone → DnsZone → DnsZone
  available_zone az z =
      let z' = update_zone_status_from_azure z az in
      record z' { conditions = v.set_condition available z'.conditions }

  abbrev fetched : Result AzureZone → M DnsZone W Observed
  fetched (err x) =
      if is_not_found (some x)
      then pure (no_observation, none)
      else pure (no_observation, v.wrap (some x) "cannot get DNS Zone")
  fetched (ok az) = do
    modify (available_zone az)
    z ← get_object
    pure (
      record no_observation {
        resource_exists = true;
        resource_up_to_date = zone_is_up_to_date z az;
      },
      none,
    )

  unfoldable pub observe_zone : M DnsZone W Observed
  unfolding get_zone
  observe_zone = do z ← get_object; az ← call (get_zone z); fetched az

  unfoldable pub create_zone : M DnsZone W Detailed
  unfolding create_or_update_zone
  create_zone = do
    z ← get_object
    x ← call (create_or_update_zone z)
    pure (no_details, v.wrap x "cannot create DNS Zone")

  abbrev resend : Result AzureZone → M DnsZone W Detailed
  resend (err x) = pure (no_details, v.wrap (some x) "cannot get DNS Zone")
  resend (ok az) = do
    modify (λ z. update_zone_status_from_azure z az)
    z ← get_object
    x ← call (create_or_update_zone z)
    pure (no_details, v.wrap x "cannot update DNS Zone")

  unfoldable pub update_zone : M DnsZone W Detailed
  unfolding get_zone create_or_update_zone
  update_zone = do z ← get_object; az ← call (get_zone z); resend az

  abbrev remove : Result AzureZone → M DnsZone W (Option Err)
  remove (err x) = pure (v.wrap (some x) "cannot get DNS Zone")
  remove (ok az) = do
    modify (λ z. update_zone_status_from_azure z az)
    z ← get_object
    x ← call (delete_azure_zone z)
    pure (v.wrap (v.ignore is_not_found_error x) "cannot delete DNS Zone")

  unfoldable pub delete_zone : M DnsZone W (Option Err)
  unfolding get_zone delete_azure_zone is_not_found
  delete_zone = do z ← get_object; az ← call (get_zone z); remove az

  unfoldable pub observe : M (Option DnsZone) W Observed
  unfolding observe_zone
  observe = of_kind (no_observation, some err_not_zone) observe_zone

  unfoldable pub create : M (Option DnsZone) W Detailed
  unfolding create_zone
  create = of_kind (no_details, some err_not_zone) create_zone

  unfoldable pub update : M (Option DnsZone) W Detailed
  unfolding update_zone
  update = of_kind (no_details, some err_not_zone) update_zone

  unfoldable pub delete : M (Option DnsZone) W (Option Err)
  unfolding delete_zone
  delete = of_kind (some err_not_zone) delete_zone
