-- ===== src/Connect/Aks.antt =====
-- pkg/clients/compute/aks.go: NewAggregateClient; Connect of pkg/controller/compute/managed.go.
use provider_azure.Prelude.{String, Option, none, some}
use provider_azure.Go.Errors.{Err, Result, ok, err}
use provider_azure.Go.Maps.{GoMap}
use provider_azure.Vendor.{Vendor}
use provider_azure.Azure.Auth.{Managed, AuthEnv}
use provider_azure.Azure.Connect.{Connected, credential, connect}
use provider_azure.Aks.Sdk.{
  ManagedClustersClient, ApplicationsClient, ServicePrincipalsClient, RoleAssignmentsClient,
  Runtime, AggregateClient,
}
use provider_azure.Aks.Controller.{External}

-- go-autorest's adal: an OAuth configuration of an endpoint and a tenant, and a token of a service
-- principal, by its identifier, its secret and the resource that it is for. `C` is a configuration
-- and `T` a token.
pub record Adal (W C T : Type 0) : Type 0 where
  pub new_oauth_config : String → String → Result C
  pub new_service_principal_token : C → String → String → String → Result T
  pub refresh : T → W → Option Err × W

-- The constructors of the SDK's clients, each with the assignment of its `Authorizer`, for an
-- authorizer `A`; and `autorest.NewBearerAuthorizer`.
pub record AksSdk (W A T : Type 0) : Type 0 where
  pub new_managed_clusters_client : String → Option A → ManagedClustersClient W
  pub new_role_assignments_client : String → Option A → RoleAssignmentsClient W
  pub new_applications_client : String → Option A → ApplicationsClient W
  pub new_service_principals_client : String → Option A → ServicePrincipalsClient W
  pub new_bearer_authorizer : T → A
  pub runtime : Runtime W

module _ {W A C T : Type 0} (adal : Adal W C T) ⦃v : Vendor⦄ where
  module _ (sdk : AksSdk W A T) where
    abbrev pub aggregate : GoMap String → Option A → T → AggregateClient W
    aggregate creds a token = record {
      managed_clusters = sdk.new_managed_clusters_client (credential creds "subscriptionId") a;
      applications =
          sdk.new_applications_client (credential creds "tenantId")
            (some (sdk.new_bearer_authorizer token));
      service_principals =
          sdk.new_service_principals_client (credential creds "tenantId")
            (some (sdk.new_bearer_authorizer token));
      role_assignments = sdk.new_role_assignments_client (credential creds "subscriptionId") a;
      runtime = sdk.runtime;
    }

    abbrev pub refreshed :
        GoMap String → Option A → T → Option Err × W → Connected (AggregateClient W) W
    refreshed creds a token (some e, w) =
        ((none, v.wrap (some e) "cannot refresh service principal token"), w)
    refreshed creds a token (none, w) = ((some (aggregate creds a token), none), w)

    abbrev pub with_token : GoMap String → Option A → Result T → W → Connected (AggregateClient W) W
    with_token creds a (err e) w =
        ((none, v.wrap (some e) "cannot create service principal token"), w)
    with_token creds a (ok token) w = refreshed creds a token (adal.refresh token w)

    abbrev pub with_oauth : GoMap String → Option A → Result C → W → Connected (AggregateClient W) W
    with_oauth creds a (err e) w = ((none, v.wrap (some e) "cannot create OAuth configuration"), w)
    with_oauth creds a (ok cfg) w =
        with_token creds a
          (adal.new_service_principal_token cfg (credential creds "clientId")
            (credential creds "clientSecret") (credential creds "activeDirectoryGraphResourceId"))
          w

    unfoldable pub new_aggregate_client :
        GoMap String → Option A → W → Connected (AggregateClient W) W
    new_aggregate_client creds a = with_oauth creds a (
        adal.new_oauth_config (credential creds "activeDirectoryEndpointUrl")
          (credential creds "tenantId"))

module _ {W A S C T : Type 0} (auth : AuthEnv W A S) (adal : Adal W C T) ⦃v : Vendor⦄ where
  -- `external_of` adds what reads the API server, and the generator of passwords.
  abbrev pub with_client :
      (AggregateClient W → External W) → Connected (AggregateClient W) W → Connected (External W) W
  with_client external_of ((c, some e), w) = ((none, some e), w)
  with_client external_of ((none, none), w) = ((none, none), w)
  with_client external_of ((some c, none), w) = ((some (external_of c), none), w)

  unfoldable pub connect_cluster :
      AksSdk W A T → (AggregateClient W → External W) → Managed → W → Connected (External W) W
  unfolding connect new_aggregate_client
  connect_cluster sdk external_of =
      connect auth (λ x. x)
        λ creds a w. with_client external_of (new_aggregate_client adal sdk creds a w)
