-- ===== src/ResourceGroup/Tests.antt =====
-- A resource group that Azure is deleting: the world counts the calls.
use provider_azure.Prelude.{ℕ, ◌+◌, ◌≡◌, refl, true, none, some, if◌then◌else◌, ◌==◌, arith}
use provider_azure.Go.Errors.{ok}
use provider_azure.Go.Effect.{Session}
use provider_azure.Vendor.{available, deleting}
use provider_azure.Vendor.Standard.{standard}
use provider_azure.Managed.{no_observation}
use provider_azure.ResourceGroup.{
  ResourceGroup, AzureGroup, GroupsClient, observe_group, delete_group, with_state,
}
use provider_azure.ResourceGroup.Deletion.{delete_group-observe_group}

abbrev group : ResourceGroup
group = record {
  external_name = "rg";
  location = "west";
  provisioning_state = "Succeeded";
  conditions = record { ready = none; synced = none };
}

abbrev azure_group : AzureGroup
azure_group = record { properties = some (record { provisioning_state = some "Deleting" }) }

abbrev groups : GroupsClient ℕ
groups = record {
  check_existence = λ n w. (ok 204, w + 1);
  get = λ n w. (ok azure_group, w + 1);
  create_or_update = λ n p w. (none, w + 1);
  delete = λ n w. (none, w + 1);
}

-- The deletion that is under way is not asked for again.
deleting_example :
    let t = (observe_group groups ⦃v = standard⦄ (record { object = group; world = 0 })).1 in
    delete_group groups ⦃v = standard⦄ t ≡ (none, t)
unfolding observe_group delete_group
deleting_example = refl

delete_group-observe_group_example :
    let before : Session ResourceGroup ℕ = record { object = group; world = 0 } in
    let (o, t) = observe_group groups ⦃v = standard⦄ before in
    let r = with_state groups ⦃v = standard⦄ azure_group.properties group in
    (o ≡ (record no_observation { resource_exists = true; resource_up_to_date = true }, none))
    × (t ≡ record {
      object = record r { conditions = standard.set_condition available r.conditions };
      world = 2;
    })
    × (delete_group groups ⦃v = standard⦄ t ≡ (
        if r.provisioning_state == "Deleting" then (none, t) else (
          standard.wrap none "cannot delete ResourceGroup",
          record {
            object = record (t.object) {
              conditions = standard.set_condition deleting t.object.conditions;
            };
            world = 3;
          },
        )))
delete_group-observe_group_example =
    delete_group-observe_group groups ⦃v = standard⦄ (record { object = group; world = 0 }) 204
      azure_group 1 2 refl (λ h. absurd (omega arith)) refl
