-- ===== src/Connect/Resources.antt =====
-- Connect of the controllers of caches, networks, zones, secrets and resource groups.
use provider_azure.Prelude.{String, Option, none, some}
use provider_azure.Go.Errors.{Err, Result}
use provider_azure.Vendor.{Vendor}
use provider_azure.Azure.Auth.{Managed, AuthEnv}
use provider_azure.Azure.Connect.{Connected, credential, connect, connect_subscription}
use provider_azure.Redis.Types.{Redis}
use provider_azure.Redis.Controller as Caches
use provider_azure.KeyVault.Controller as Vaults
use provider_azure.Network.PublicIp.Controller as Addresses
use provider_azure.Network.Controllers.VirtualNetworks.{VirtualNetworksClient}
use provider_azure.Network.Controllers.Subnets.{SubnetsClient}
use provider_azure.Dns.Zones.{ZonesClient}
use provider_azure.Dns.RecordSets.{RecordSetsClient}
use provider_azure.ResourceGroup.{GroupsClient}

module _ {W A S : Type 0} (auth : AuthEnv W A S) ⦃v : Vendor⦄ where
  abbrev connect_failed : Option Err → Option Err
  connect_failed x = v.wrap x "cannot connect to Azure API"

  unfoldable pub connect_redis :
      (String → Option A → Caches.RedisClient W)
      → (Redis → W → Result Redis × W)
      → Managed
      → W
      → Connected (Caches.External W) W
  unfolding connect
  connect_redis new_client update_object = connect auth connect_failed λ creds a w. (
    (
      some (record {
        update_object = update_object;
        client = new_client (credential creds "subscriptionId") a;
      }),
      none,
    ),
    w,
  )

  -- The client of the key vaults belongs to no subscription. `new_external` sets its authorizer, and
  -- adds what reads the API server.
  unfoldable pub connect_secret :
      (Option A → Vaults.External W) → Managed → W → Connected (Vaults.External W) W
  unfolding connect
  connect_secret new_external =
      connect auth connect_failed λ creds a w. ((some (new_external a), none), w)

  -- `new_external` makes the client, and adds the update of the API server.
  unfoldable pub connect_public_ip_address :
      (String → Option A → Addresses.External W) → Managed → W → Connected (Addresses.External W) W
  unfolding connect_subscription
  connect_public_ip_address new_external = connect_subscription auth new_external

  unfoldable pub connect_virtual_network :
      (String → Option A → VirtualNetworksClient W)
      → Managed
      → W
      → Connected (VirtualNetworksClient W) W
  unfolding connect_subscription
  connect_virtual_network new_virtual_networks_client =
      connect_subscription auth new_virtual_networks_client

  unfoldable pub connect_subnet :
      (String → Option A → SubnetsClient W) → Managed → W → Connected (SubnetsClient W) W
  unfolding connect_subscription
  connect_subnet new_subnets_client = connect_subscription auth new_subnets_client

  unfoldable pub connect_zone :
      (String → Option A → ZonesClient W) → Managed → W → Connected (ZonesClient W) W
  unfolding connect_subscription
  connect_zone new_zones_client = connect_subscription auth new_zones_client

  unfoldable pub connect_record_set :
      (String → Option A → RecordSetsClient W) → Managed → W → Connected (RecordSetsClient W) W
  unfolding connect_subscription
  connect_record_set new_record_sets_client = connect_subscription auth new_record_sets_client

  unfoldable pub connect_group :
      (String → Option A → GroupsClient W) → Managed → W → Connected (GroupsClient W) W
  unfolding connect_subscription
  connect_group new_groups_client = connect_subscription auth new_groups_client
