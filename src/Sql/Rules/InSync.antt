-- ===== src/Sql/Rules/InSync.antt =====
-- When the rules of a server count as up to date.
use provider_azure.Prelude.{
  ◌≡◌, refl, sym, ◌↔◌, true, false, Option, none, arith, eq_iff, ptr_eq_iff, ◌==◌, if◌then◌else◌,
}
use provider_azure.Go.Errors.{ok}
use provider_azure.Go.Effect.{Session}
use provider_azure.Vendor.{Vendor, available}
use provider_azure.Azure.Convert.{to_string}
use provider_azure.Managed.{no_details}
use provider_azure.Sql.Rules.{
  FirewallRule, AzureFirewallProperties, AzureFirewallRule, VirtualNetworkRule,
  AzureVirtualNetworkRule, RulesClient, Texts,
}
use provider_azure.Sql.Rules.Params.{
  firewall_properties_eq, new_firewall_rule_parameters, firewall_rule_is_up_to_date,
  virtual_network_rule_needs_update, update_virtual_network_rule_status_from_azure,
  new_virtual_network_rule_parameters,
}
use provider_azure.Sql.Rules.Firewall.{observe_firewall_rule}
use provider_azure.Sql.Rules.VirtualNetwork.{
  observe_mysql_rule, observe_postgresql_rule, update_mysql_rule, mysql_rule_texts, send_rule,
}

firewall_properties_eq_iff :
    (p q : Option AzureFirewallProperties) → (firewall_properties_eq p q ≡ true) ↔ (p ≡ q)
firewall_properties_eq_iff p q = ptr_eq_iff _ p q (λ a b. ground (
  arith,
  ptr_eq_iff ◌==◌ a.start_ip_address b.start_ip_address eq_iff,
  ptr_eq_iff ◌==◌ a.end_ip_address b.end_ip_address eq_iff,
))

module _ {W : Type 0} ⦃v : Vendor⦄ where
  -- Where Azure answers with a firewall rule, Observe returns no error and says that the rule exists;
  -- it says that the rule is up to date exactly if Azure's properties are those that Create and Update
  -- send, nil or not; and it records Azure's identifier and type and marks the object as available.
  pub observe_firewall_rule_iff :
      (texts : Texts) (client : RulesClient AzureFirewallRule W) (s : Session FirewallRule W)
      (az : AzureFirewallRule) (w : W)
      → client.get s.object.resource_group_name s.object.server_name s.object.external_name s.world
        ≡ (ok az, w)
      → let (o, t) = observe_firewall_rule texts client s in
        (o.1 ≡ none)
        × (o.0.resource_exists ≡ true)
        × ((o.0.resource_up_to_date ≡ true)
            ↔ (az.properties ≡ (new_firewall_rule_parameters s.object).properties))
        × (t ≡ record {
          object = record s.object {
            id = to_string az.id;
            type = to_string az.type;
            conditions = v.set_condition available s.object.conditions;
          };
          world = w;
        })
  unfolding observe_firewall_rule firewall_rule_is_up_to_date new_firewall_rule_parameters
  observe_firewall_rule_iff texts client s az w g =
      let same =
        firewall_properties_eq_iff (new_firewall_rule_parameters s.object).properties
          az.properties in
      rw g (refl, refl, (λ h. sym (same.0 h), λ h. same.1 (sym h)), refl)

  -- Where Azure answers with a virtual network rule, the controller for MySQL never reports it up to
  -- date, and so is asked to update it time and again; its Update then sends the rule exactly if
  -- the controller for PostgreSQL would report it as not up to date, and calls nothing more
  -- otherwise.
  pub update_mysql_rule-observe_postgresql_rule :
      (client : RulesClient AzureVirtualNetworkRule W) (s : Session VirtualNetworkRule W)
      (az : AzureVirtualNetworkRule) (w : W)
      → client.get s.object.resource_group_name s.object.server_name s.object.external_name s.world
        ≡ (ok az, w)
      → let fetched : Session VirtualNetworkRule W = record { object = s.object; world = w } in
        ((observe_mysql_rule client s).0.0.resource_up_to_date ≡ false)
        × (update_mysql_rule client s ≡ (
            if (observe_postgresql_rule client s).0.0.resource_up_to_date
            then ((no_details, none), fetched)
            else send_rule client mysql_rule_texts.update fetched))
  unfolding observe_mysql_rule observe_postgresql_rule update_mysql_rule
      virtual_network_rule_needs_update update_virtual_network_rule_status_from_azure
      new_virtual_network_rule_parameters
  update_mysql_rule-observe_postgresql_rule client s az w g = rw g (refl, ground arith)
