-- ===== src/Azure/Auth.antt =====
-- pkg/clients/azure.go: GetAuthInfo, UseProvider, UseProviderConfig.
pub mod Consistency
use provider_azure.Prelude.{String, Option, none, some, List, []}
use provider_azure.Go.Errors.{Err, message, Result, ok, err}
use provider_azure.Go.Maps.{GoMap, entries, lookup}
use provider_azure.Vendor.{Vendor}

-- The references of a managed resource, each by the name that it holds.
pub record Managed : Type 0 where
  pub provider_config_ref : Option String
  pub provider_ref : Option String

pub record SecretKeySelector : Type 0 where
  pub name : String
  pub namespace : String
  pub key : String

-- `auth.ClientCredentialsConfig`
pub record Config : Type 0 where
  pub client_id : String
  pub client_secret : String
  pub tenant_id : String
  pub aad_endpoint : String
  pub resource : String

-- What the functions below call: the API server, crossplane-runtime's usage tracker and credential
-- extractor, encoding/json and the Azure auth library. `A` is an authorizer, `S` the credentials of
-- a provider config (a source with its selectors).
pub record AuthEnv (W A S : Type 0) : Type 0 where
  pub get_provider : String → W → Result SecretKeySelector × W
  pub get_secret : String → String → W → Result (List (String × String)) × W
  pub track_usage : Managed → W → Option Err × W
  pub get_provider_config : String → W → Result S × W
  pub extract_credentials : S → W → Result String × W
  pub unmarshal : String → Result (List (String × String))
  pub new_client_credentials_config : String → String → String → Config
  pub authorizer : Config → W → Option A × Option Err × W

-- `m[k]` of a map of strings: the zero value for a missing key.
abbrev pub index : List (String × String) → String → String
index m k = elim (lookup k m) [ some x ↦ x | none ↦ "" ]

-- What `(content, authorizer, err)` holds.
pub record AuthInfo (A : Type 0) : Type 0 where
  pub content : GoMap String
  pub authorizer : Option A
  pub error : Option Err

module _ {W A S : Type 0} (env : AuthEnv W A S) where
  unfoldable pub config_of : List (String × String) → Config
  unfolding lookup
  config_of m =
      record (env.new_client_credentials_config (index m "clientId") (index m "clientSecret")
        (index m "tenantId")) {
          aad_endpoint = index m "activeDirectoryEndpointUrl";
          resource = index m "resourceManagerEndpointUrl";
        }

abbrev failed : {W A : Type 0} → Option Err → W → AuthInfo A × W
failed e w = (record { content = none; authorizer = none; error = e }, w)

module _ {W A S : Type 0} (env : AuthEnv W A S) ⦃v : Vendor⦄ where
  -- The common end of UseProvider and UseProviderConfig.
  abbrev authorize : Result (List (String × String)) → W → AuthInfo A × W
  authorize (err e) w = failed (v.wrap (some e) "cannot unmarshal the data in credentials secret") w
  authorize (ok m) w =
      let (a, e, w') = env.authorizer (config_of env m) w in
      (
        record {
          content = some m;
          authorizer = a;
          error = v.wrap e "cannot get authorizer from client credentials config";
        },
        w',
      )

  abbrev with_secret : SecretKeySelector → Result (List (String × String)) × W → AuthInfo A × W
  with_secret ref (err e, w) = failed (some e) w
  with_secret ref (ok data_map, w) = authorize (env.unmarshal (index data_map ref.key)) w

  abbrev with_provider : Result SecretKeySelector × W → AuthInfo A × W
  with_provider (err e, w) = failed (v.wrap (some e) "cannot get referenced Provider") w
  with_provider (ok ref, w) = with_secret ref (env.get_secret ref.name ref.namespace w)

  unfoldable pub use_provider : String → W → AuthInfo A × W
  unfolding config_of
  use_provider name w = with_provider (env.get_provider name w)

  abbrev with_data : Result String × W → AuthInfo A × W
  with_data (err e, w) = failed (v.wrap (some e) "cannot get credentials") w
  with_data (ok bytes, w) = authorize (env.unmarshal bytes) w

  abbrev with_config : Result S × W → AuthInfo A × W
  with_config (err e, w) = failed (v.wrap (some e) "cannot get referenced ProviderConfig") w
  with_config (ok credentials, w) = with_data (env.extract_credentials credentials w)

  abbrev tracked : String → Option Err × W → AuthInfo A × W
  tracked name (some e, w) = failed (v.wrap (some e) "cannot track ProviderConfig usage") w
  tracked name (none, w) = with_config (env.get_provider_config name w)

  unfoldable pub use_provider_config : Managed → String → W → AuthInfo A × W
  unfolding config_of
  use_provider_config mg name w = tracked name (env.track_usage mg w)

  abbrev route : Managed → Option String → Option String → W → AuthInfo A × W
  route mg (some name) _ w = use_provider_config mg name w
  route mg none (some name) w = use_provider name w
  route mg none none w =
      failed (some (message "neither providerConfigRef nor providerRef was supplied")) w

  unfoldable pub get_auth_info : Managed → W → AuthInfo A × W
  unfolding use_provider use_provider_config
  get_auth_info mg w = route mg mg.provider_config_ref mg.provider_ref w
