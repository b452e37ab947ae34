-- ===== src/Sql/Rules/Params.antt =====
-- pkg/clients/database/mysql.go and postgresql.go: parameters, update tests and statuses of rules,
-- which are the same in both files.
use provider_azure.Prelude.{
  Bool, true, false, ◌&&◌, not, Option, none, some, [], ◌∷◌, ◌==◌, bool_eq, ptr_eq, if◌then◌else◌,
}
use provider_azure.Vendor.{Vendor}
use provider_azure.Azure.Convert.{field_required, to_string, to_string_ptr, to_bool_ptr}
use provider_azure.Sql.Rules.{
  FirewallRule, AzureFirewallProperties, AzureFirewallRule, VirtualNetworkRule,
  AzureVirtualNetworkRule,
}

-- `cmp.Equal` on two pointers to properties.
abbrev pub firewall_properties_eq :
    Option AzureFirewallProperties → Option AzureFirewallProperties → Bool
firewall_properties_eq = ptr_eq λ a b.
    ptr_eq ◌==◌ a.start_ip_address b.start_ip_address
    && ptr_eq ◌==◌ a.end_ip_address b.end_ip_address

module _ ⦃v : Vendor⦄ where
  unfoldable pub new_firewall_rule_parameters : FirewallRule → AzureFirewallRule
  unfolding to_string_ptr
  new_firewall_rule_parameters r = record {
    name = to_string_ptr r.external_name [];
    id = none;
    type = none;
    properties = some (record {
      start_ip_address = to_string_ptr r.start_ip_address [];
      end_ip_address = to_string_ptr r.end_ip_address [];
    });
  }

  unfoldable pub firewall_rule_is_up_to_date : FirewallRule → AzureFirewallRule → Bool
  firewall_rule_is_up_to_date kube az =
      firewall_properties_eq (new_firewall_rule_parameters kube).properties az.properties

  unfoldable pub new_virtual_network_rule_parameters : VirtualNetworkRule → AzureVirtualNetworkRule
  unfolding to_string_ptr to_bool_ptr
  new_virtual_network_rule_parameters r = record {
    name = to_string_ptr r.external_name [];
    id = none;
    type = none;
    properties = record {
      virtual_network_subnet_id = to_string_ptr r.virtual_network_subnet_id [];
      ignore_missing_vnet_service_endpoint =
          to_bool_ptr r.ignore_missing_vnet_service_endpoint (field_required ∷ []);
      state = "";
    };
  }

  unfoldable pub virtual_network_rule_needs_update :
      VirtualNetworkRule → AzureVirtualNetworkRule → Bool
  virtual_network_rule_needs_update kube az =
      let up = new_virtual_network_rule_parameters kube in
      if not (
        ptr_eq ◌==◌ up.properties.virtual_network_subnet_id az.properties.virtual_network_subnet_id)
      then true
      else if not (
          ptr_eq bool_eq up.properties.ignore_missing_vnet_service_endpoint
            az.properties.ignore_missing_vnet_service_endpoint)
      then true
      else false

  unfoldable pub update_virtual_network_rule_status_from_azure :
      VirtualNetworkRule → AzureVirtualNetworkRule → VirtualNetworkRule
  unfolding to_string
  update_virtual_network_rule_status_from_azure r az = record r {
    status = record (r.status) {
      state = az.properties.state;
      id = to_string az.id;
      type = to_string az.type;
    };
  }
