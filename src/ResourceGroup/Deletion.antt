-- ===== src/ResourceGroup/Deletion.antt =====
-- Observe and Delete of one resource group.
use provider_azure.Prelude.{ℕ, ◌≡◌, ◌≢◌, true, none, arith, nat_eq_iff, if◌then◌else◌, ◌==◌}
use provider_azure.Go.Errors.{ok}
use provider_azure.Go.Effect.{Session}
use provider_azure.Vendor.{Vendor, available, deleting}
use provider_azure.Managed.{no_observation}
use provider_azure.ResourceGroup.{
  ResourceGroup, AzureGroup, GroupsClient, with_state, observe_group, delete_group,
}

module _ {W : Type 0} (client : GroupsClient W) ⦃v : Vendor⦄ where
  -- If Azure has a resource group and answers with it, then Observe returns no error, says that the
  -- group exists and is up to date, marks the object as available and records the state, if Azure
  -- tells one. A Delete thereafter calls and changes nothing if the recorded state is that the group
  -- is being deleted; otherwise it marks the object as deleting and returns what Azure answers to the
  -- deletion.
  pub delete_group-observe_group :
      (s : Session ResourceGroup W) (status : ℕ) (g : AzureGroup) (w w' : W)
      → client.check_existence s.object.external_name s.world ≡ (ok status, w)
      → status ≢ 404
      → client.get s.object.external_name w ≡ (ok g, w')
      → let (o, t) = observe_group client s in
        let (x, after) = client.delete s.object.external_name w' in
        let r = with_state client g.properties s.object in
        (o ≡ (record no_observation { resource_exists = true; resource_up_to_date = true }, none))
        × (t ≡ record {
          object = record r { conditions = v.set_condition available r.conditions };
          world = w';
        })
        × (delete_group client t ≡ (
            if r.provisioning_state == "Deleting" then (none, t) else (
              v.wrap x "cannot delete ResourceGroup",
              record {
                object = record (t.object) {
                  conditions = v.set_condition deleting t.object.conditions;
                };
                world = after;
              },
            )))
  unfolding observe_group delete_group
  delete_group-observe_group s status g w w' c n h = ground (arith, nat_eq_iff status 404)
