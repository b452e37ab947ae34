-- ===== src/Aks/Kubeconfig.antt =====
-- pkg/controller/compute/managed.go: connectionDetails, over client-go's `clientcmd.Load`.
use Prim.Native.String.{◌++◌}
use provider_azure.Prelude.{String, Option, none, some, List}
use provider_azure.Go.Errors.{message, Result, ok, err}
use provider_azure.Go.Maps.{lookup}
use provider_azure.Vendor.{Vendor}

-- `api.Config`, by the entries that the code looks up; none of them is nil.
pub record KubeContext : Type 0 where
  pub cluster : String
  pub auth_info : String

pub record KubeCluster : Type 0 where
  pub server : String
  pub certificate_authority_data : String

pub record KubeAuthInfo : Type 0 where
  pub client_certificate_data : String
  pub client_key_data : String

pub record KubeConfig : Type 0 where
  pub contexts : List (String × KubeContext)
  pub clusters : List (String × KubeCluster)
  pub auth_infos : List (String × KubeAuthInfo)

-- The connection details of a cluster: a value for each of the keys that the code writes.
pub record ClusterDetails : Type 0 where
  pub endpoint : Option String
  pub cluster_ca : Option String
  pub client_cert : Option String
  pub client_key : Option String
  pub kubeconfig : Option String
  pub password : Option String

abbrev pub no_cluster_details : ClusterDetails
no_cluster_details = record {
  endpoint = none;
  cluster_ca = none;
  client_cert = none;
  client_key = none;
  kubeconfig = none;
  password = none;
}

-- The entry, or the error that it is not found.
abbrev pub found : {A : Type 0} → String → Option A → Result A
found what none = err (message what)
found what (some a) = ok a

infixl 5 ◌>>?◌
abbrev pub ◌>>?◌ : {A B : Type 0} → Result A → (A → Result B) → Result B
◌>>?◌ (ok a) k = k a
◌>>?◌ (err e) k = err e

abbrev pub details_of : String → KubeCluster → KubeAuthInfo → ClusterDetails
details_of kubeconfig cluster auth = record {
  endpoint = some cluster.server;
  cluster_ca = some cluster.certificate_authority_data;
  client_cert = some auth.client_certificate_data;
  client_key = some auth.client_key_data;
  kubeconfig = some kubeconfig;
  password = none;
}

abbrev pub resolved : String → String → KubeConfig → Result ClusterDetails
resolved kubeconfig name kcfg =
    found ("context configuration is not found for cluster: " ++ name) (lookup name kcfg.contexts)
    >>? λ kctx.
        found ("cluster configuration is not found: " ++ kctx.cluster)
          (lookup kctx.cluster kcfg.clusters)
        >>? λ cluster.
            found ("auth-info configuration is not found: " ++ kctx.auth_info)
              (lookup kctx.auth_info kcfg.auth_infos)
            >>? λ auth. ok (details_of kubeconfig cluster auth)

module _ (load : String → Result KubeConfig) ⦃v : Vendor⦄ where
  unfoldable pub connection_details : String → String → Result ClusterDetails
  unfolding lookup
  connection_details kubeconfig name = elim (load kubeconfig) [
    | err e ↦ elim (v.wrap (some e) "cannot parse kubeconfig file") [
      | none ↦ ok no_cluster_details
      | some x ↦ err x
    ]
    | ok kcfg ↦ resolved kubeconfig name kcfg
  ]
