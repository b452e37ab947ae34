-- ===== src/Aks/Params.antt =====
-- pkg/clients/compute/aks.go: what is sent for a cluster, and the filters of the searches.
use Prim.Native.String.{◌++◌}
use provider_azure.Prelude.{ℕ, String, not, Option, none, some, [], ◌∷◌, ◌==◌, if◌then◌else◌}
use provider_azure.Go.Num.{int32_of_int}
use provider_azure.Vendor.{Vendor}
use provider_azure.Aks.{default_node_count, AksCluster}
use provider_azure.Aks.Sdk.{AgentPoolProfile, ManagedClusterParameters}

abbrev pub agent_pool_profile_name : String
agent_pool_profile_name = "agentpool"

abbrev pub network_contributor_role_id : String
network_contributor_role_id =
    "/providers/Microsoft.Authorization/roleDefinitions/4d97b98b-1d4f-4787-a291-c67834d212e7"

abbrev pub app_creds_valid_years : ℕ
app_creds_valid_years = 5

-- The filters, which are quoted texts.
abbrev pub name_filter : String → String
name_filter name = "displayName eq '" ++ (name ++ "'")

abbrev pub principal_filter : String → String
principal_filter id = "principalId eq '" ++ (id ++ "'")

module _ ⦃v : Vendor⦄ where
  abbrev node_count_of : Option ℕ → ℕ
  node_count_of none = default_node_count
  node_count_of (some n) = int32_of_int n

  abbrev pool : AksCluster → Option String → AgentPoolProfile
  pool c subnet = record {
    name = v.string_ptr agent_pool_profile_name;
    count = some (node_count_of c.spec.node_count);
    vm_size = c.spec.node_vm_size;
    vnet_subnet_id = subnet;
  }

  -- A cluster with a subnet gets Azure's network plugin.
  unfoldable pub new_managed_cluster : AksCluster → String → String → ManagedClusterParameters
  unfolding int32_of_int
  new_managed_cluster c app_id secret =
      let p : ManagedClusterParameters = record {
        name = v.string_ptr c.external_name;
        location = v.string_ptr c.spec.location;
        kubernetes_version = v.string_ptr c.spec.version;
        dns_prefix = v.string_ptr c.spec.dns_name_prefix;
        agent_pool_profiles = some (pool c none ∷ []);
        service_principal_profile =
            some (record { client_id = v.string_ptr app_id; secret = v.string_ptr secret });
        enable_rbac = v.bool_ptr (not c.spec.disable_rbac);
        network_plugin = none;
      } in
      if not (c.spec.vnet_subnet_id == "")
      then record p {
        network_plugin = some "azure";
        agent_pool_profiles = some (pool c (v.string_ptr c.spec.vnet_subnet_id) ∷ []);
      }
      else p
