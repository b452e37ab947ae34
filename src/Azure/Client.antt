-- ===== src/Azure/Client.antt =====
-- pkg/clients/azure.go: Client, Credentials, NewClient and ValidateClient; and the functions of other
-- clients that decode Credentials: NewDatabaseAccountClient, NewStorageAccountClient, NewClient of
-- pkg/clients/resourcegroup.
use Prim.Native.String.{◌++◌}
use provider_azure.Prelude.{String, ◌≡◌, refl, Option, none, some}
use provider_azure.Go.Errors.{Err, message, Result, ok, err}
use provider_azure.Vendor.{Vendor}
use provider_azure.Azure.Auth.{Config, AuthEnv}

record Credentials : Type 0 where
  client_id : String
  client_secret : String
  tenant_id : String
  subscription_id : String
  active_directory_endpoint_url : String
  resource_manager_endpoint_url : String
  active_directory_graph_resource_id : String

record Client (A : Type 0) : Type 0 where
  authorizer : Option A
  credentials : Credentials

-- `json.Unmarshal` into Credentials, and the SDK's listing of the resource groups of a subscription.
record ClientEnv (W A : Type 0) : Type 0 where
  unmarshal : String → Result Credentials
  list_groups : String → Option A → W → Option Err × W

-- The endpoint of the resource manager is left out of what the client holds.
abbrev client_of : {A : Type 0} → Option A → Credentials → Client A
client_of a c = record {
  authorizer = a;
  credentials = record c { resource_manager_endpoint_url = "" };
}

module _ {W A S : Type 0} (auth : AuthEnv W A S) (env : ClientEnv W A) ⦃v : Vendor⦄ where
  abbrev config_for : Credentials → Config
  config_for c =
      record (auth.new_client_credentials_config c.client_id c.client_secret c.tenant_id) {
        aad_endpoint = c.active_directory_endpoint_url;
        resource = c.resource_manager_endpoint_url;
      }

  abbrev authorized : Credentials → Option A × Option Err × W → (Option (Client A) × Option Err) × W
  authorized c (a, some e, w) = ((none, v.wrap (some e) "failed to get authorizer from config"), w)
  authorized c (a, none, w) = ((some (client_of a c), none), w)

  abbrev decoded : Result Credentials → W → (Option (Client A) × Option Err) × W
  decoded (err e) w = ((none, v.wrap (some e) "failed to unmarshal azure client secret data"), w)
  decoded (ok c) w = authorized c (auth.authorizer (config_for c) w)

  unfoldable new_client : String → W → (Option (Client A) × Option Err) × W
  new_client text w = decoded (env.unmarshal text) w

module _ {W A : Type 0} (env : ClientEnv W A) where
  unfoldable validate_client : Client A → W → Option Err × W
  validate_client c w = env.list_groups c.credentials.subscription_id c.authorizer w

-- A client of the SDK, `C`, is made for a subscription with an authorizer; then the user agent is added
-- to it, which may fail. `fmt.Errorf` writes an error as text.
record SdkEnv (A C : Type 0) : Type 0 where
  new_client : String → Option A → C
  add_to_user_agent : C → Option Err
  error_text : Err → String

module _ {W A S C : Type 0} (auth : AuthEnv W A S) (env : ClientEnv W A) (sdk : SdkEnv A C)
    ⦃v : Vendor⦄ where
  abbrev tagged : C → Option Err → Option C × Option Err
  tagged cl none = (some cl, none)
  tagged cl (some e) = (none, v.wrap (some e) "cannot add to Azure client user agent")

  abbrev with_authorizer :
      (Err → Option Err) → String → Option A × Option Err × W → (Option C × Option Err) × W
  with_authorizer failed subscription (a, some e, w) = ((none, failed e), w)
  with_authorizer failed subscription (a, none, w) =
      let cl = sdk.new_client subscription a in (tagged cl (sdk.add_to_user_agent cl), w)

  -- By the text of an error of the authorizer, and the configuration that it is made from.
  abbrev of_credentials :
      (Err → Option Err)
      → (Credentials → Config)
      → Result Credentials
      → W
      → (Option C × Option Err) × W
  of_credentials failed config (err e) w =
      ((none, v.wrap (some e) "cannot unmarshal Azure client secret data"), w)
  of_credentials failed config (ok c) w =
      with_authorizer failed c.subscription_id (auth.authorizer (config c) w)

  unfoldable new_database_account_client : String → W → (Option C × Option Err) × W
  new_database_account_client text =
      of_credentials (λ e. v.wrap (some e) "failed to get authorizer from config")
        (config_for auth env) (env.unmarshal text)

  unfoldable new_storage_account_client : String → W → (Option C × Option Err) × W
  new_storage_account_client text =
      of_credentials
        (λ e. some (message ("failed to get authorizer from config: " ++ sdk.error_text e)))
        (config_for auth env) (env.unmarshal text)

  abbrev config_literal : Credentials → Config
  config_literal c = record {
    client_id = c.client_id;
    client_secret = c.client_secret;
    tenant_id = c.tenant_id;
    aad_endpoint = c.active_directory_endpoint_url;
    resource = c.resource_manager_endpoint_url;
  }

  unfoldable new_groups_client : String → W → (Option C × Option Err) × W
  new_groups_client text =
      of_credentials (λ e. v.wrap (some e) "cannot create Azure authorizer from credentials config")
        config_literal (env.unmarshal text)

module _ {W A S : Type 0} (auth : AuthEnv W A S) (env : ClientEnv W A) ⦃v : Vendor⦄ where
  -- A client that NewClient returns is validated with the subscription that the credentials name and
  -- the authorizer that the library makes of them.
  new_client-validate_client :
      (text : String) (x : Credentials) (a : Option A) (w w' : W)
      → env.unmarshal text ≡ ok x
      → auth.authorizer (config_for auth env x) w ≡ (a, none, w')
      → (c : Client A) × (new_client auth env text w ≡ ((some c, none), w'))
        × ((u : W) → validate_client env c u ≡ env.list_groups x.subscription_id a u)
  unfolding new_client validate_client
  new_client-validate_client text x a w w' h g = (client_of a x, rw h (rw g refl), λ u. refl)
