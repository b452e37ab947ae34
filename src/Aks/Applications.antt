-- ===== src/Aks/Applications.antt =====
-- The applications of clusters.
use provider_azure.Prelude.{◌≡◌, refl, Option, none, some, []}
use provider_azure.Go.Errors.{Err}
use provider_azure.Vendor.{Vendor}
use provider_azure.Aks.{AksCluster}
use provider_azure.Aks.Sdk.{AggregateClient}
use provider_azure.Aks.Params.{name_filter}
use provider_azure.Aks.Client.{done, outcome, delete_managed_cluster}

pub outcome-done : {W : Type 0} (r : Option Err × W) → outcome (done r) ≡ r
outcome-done (none, w) = refl
outcome-done (some e, w) = refl

module _ {W : Type 0} (c : AggregateClient W) ⦃v : Vendor⦄ where
  -- If the search for the cluster's application fails and its iterator has no item, then
  -- DeleteManagedCluster does not return the error: it deletes the cluster, no application, and
  -- returns what Azure answers to that.
  pub delete_managed_cluster-list_error :
      (ac : AksCluster) (x : Err) (w w' : W)
      → c.applications.list_complete (name_filter ac.external_name) w ≡ (([], some x), w')
      → delete_managed_cluster c ac w
        ≡ c.managed_clusters.delete ac.spec.resource_group_name ac.external_name w'
  unfolding delete_managed_cluster
  delete_managed_cluster-list_error ac x w w' h =
      rw h
        (outcome-done (c.managed_clusters.delete ac.spec.resource_group_name ac.external_name w'))
