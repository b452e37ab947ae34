-- ===== src/Aks/Sdk.antt =====
-- The types of the SDK's packages containerservice, graphrbac and authorization, by the fields that
-- pkg/clients/compute/aks.go uses, and the clients of these packages. An instant is a number; bytes
-- are a text.
use provider_azure.Prelude.{ℕ, String, Bool, Option, List}
use provider_azure.Go.Errors.{Err, Result}

abbrev pub Instant : Type 0
Instant = ℕ

-- The iterator that a `ListComplete` returns, by its items, and the error beside it.
abbrev pub Listing : Type 0 → Type 0
Listing A = List A × Option Err

pub record PasswordCredential : Type 0 where
  pub start_date : Option Instant
  pub end_date : Option Instant
  pub key_id : Option String
  pub value : Option String

pub record Application : Type 0 where
  pub app_id : Option String
  pub object_id : Option String

pub record ApplicationCreateParameters : Type 0 where
  pub available_to_other_tenants : Option Bool
  pub display_name : Option String
  pub homepage : Option String
  pub identifier_uris : Option (List String)
  pub password_credentials : Option (List PasswordCredential)

pub record ServicePrincipal : Type 0 where
  pub object_id : Option String

pub record ServicePrincipalCreateParameters : Type 0 where
  pub app_id : Option String
  pub account_enabled : Option Bool

pub record RoleAssignment : Type 0 where
  pub id : Option String

pub record RoleAssignmentProperties : Type 0 where
  pub role_definition_id : Option String
  pub principal_id : Option String

pub record AgentPoolProfile : Type 0 where
  pub name : Option String
  pub count : Option ℕ  -- *int32
  pub vm_size : String
  pub vnet_subnet_id : Option String

pub record ServicePrincipalProfile : Type 0 where
  pub client_id : Option String
  pub secret : Option String

-- The part of a `containerservice.ManagedCluster` that the code sends.
pub record ManagedClusterParameters : Type 0 where
  pub name : Option String
  pub location : Option String
  pub kubernetes_version : Option String
  pub dns_prefix : Option String
  pub agent_pool_profiles : Option (List AgentPoolProfile)
  pub service_principal_profile : Option ServicePrincipalProfile
  pub enable_rbac : Option Bool
  pub network_plugin : Option String

-- The part that it reads. The properties of an answer, a pointer that the code reads through without
-- a test, are taken to be there.
pub record ManagedCluster : Type 0 where
  pub id : Option String
  pub provisioning_state : Option String
  pub fqdn : Option String

-- `containerservice.ManagedClustersClient`
pub record ManagedClustersClient (W : Type 0) : Type 0 where
  pub get : String → String → W → Result ManagedCluster × W
  pub create_or_update : String → String → ManagedClusterParameters → W → Option Err × W
  pub delete : String → String → W → Option Err × W
  pub list_cluster_admin_credentials :
      String → String → W → Result (Option (List (Option String))) × W

-- `graphrbac.ApplicationsClient`
pub record ApplicationsClient (W : Type 0) : Type 0 where
  pub list_complete : String → W → Listing Application × W
  pub update_password_credentials : String → List PasswordCredential → W → Option Err × W
  pub create : ApplicationCreateParameters → W → Result Application × W
  pub delete : String → W → Option Err × W
  pub get_service_principals_id_by_app_id : String → W → Result (Option String) × W

-- `graphrbac.ServicePrincipalsClient`
pub record ServicePrincipalsClient (W : Type 0) : Type 0 where
  pub create : ServicePrincipalCreateParameters → W → Result ServicePrincipal × W
  pub get : String → W → Result ServicePrincipal × W

-- `authorization.RoleAssignmentsClient`
pub record RoleAssignmentsClient (W : Type 0) : Type 0 where
  pub subscription_id : String
  pub list_for_scope_complete : String → String → W → Listing RoleAssignment × W
  pub create : String → String → RoleAssignmentProperties → W → Option Err × W

-- `uuid.NewRandom`, which returns the zero identifier beside an error; `time.Now`; and `AddDate` for
-- a number of years.
pub record Runtime (W : Type 0) : Type 0 where
  pub new_uuid : W → (String × Option Err) × W
  pub now : W → Instant × W
  pub add_years : ℕ → Instant → Instant

-- The four clients of pkg/clients/compute/aks.go, and what its methods take from other packages.
pub record AggregateClient (W : Type 0) : Type 0 where
  pub managed_clusters : ManagedClustersClient W
  pub applications : ApplicationsClient W
  pub service_principals : ServicePrincipalsClient W
  pub role_assignments : RoleAssignmentsClient W
  pub runtime : Runtime W
