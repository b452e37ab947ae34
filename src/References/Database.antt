-- ===== src/References/Database.antt =====
-- apis/database/v1alpha3/referencers.go and apis/database/v1beta1/referencers.go
use provider_azure.Prelude.{String, Option, none}
use provider_azure.Go.Errors.{Err}
use provider_azure.Go.Effect.{M, pure}
use provider_azure.Vendor.{Vendor}
use provider_azure.References.{
  Referenced, Target, resource_group, subnet, mysql_server, postgresql_server, external_name,
  subnet_id, Resolver,
}
use provider_azure.References.Resolve.{Field, resolve}

pub record RuleReferences : Type 0 where
  pub resource_group_name : Referenced
  pub virtual_network_subnet_id : Referenced
  pub server_name : Referenced

pub record ServerReferences : Type 0 where
  pub resource_group_name : Referenced
  pub server_name : Referenced

pub record GroupReference : Type 0 where
  pub resource_group_name : Referenced

abbrev pub rule_group : Field RuleReferences
rule_group = record {
  path = "spec.resourceGroupName";
  get = λ r. r.resource_group_name;
  set = λ f r. record r { resource_group_name = f };
}

abbrev pub rule_subnet : Field RuleReferences
rule_subnet = record {
  path = "spec.virtualNetworkSubnetId";
  get = λ r. r.virtual_network_subnet_id;
  set = λ f r. record r { virtual_network_subnet_id = f };
}

abbrev pub rule_server : Field RuleReferences
rule_server = record {
  path = "spec.serverName";
  get = λ r. r.server_name;
  set = λ f r. record r { server_name = f };
}

abbrev server_group : Field ServerReferences
server_group = record {
  path = "spec.forProvider.resourceGroupName";
  get = λ r. r.resource_group_name;
  set = λ f r. record r { resource_group_name = f };
}

abbrev server : Field ServerReferences
server = record {
  path = "spec.forProvider.serverName";
  get = λ r. r.server_name;
  set = λ f r. record r { server_name = f };
}

abbrev pub group_at : String → Field GroupReference
group_at path = record {
  path = path;
  get = λ r. r.resource_group_name;
  set = λ f r. record r { resource_group_name = f };
}

module _ {W : Type 0} (resolver : Resolver W) ⦃v : Vendor⦄ where
  -- The two kinds of rule differ in the kind of server.
  abbrev pub resolve_rule : Target → M RuleReferences W (Option Err)
  resolve_rule to = resolve resolver rule_group resource_group external_name (
      resolve resolver rule_subnet subnet subnet_id
        (resolve resolver rule_server to external_name (pure none)))

  unfoldable pub resolve_mysql_virtual_network_rule : M RuleReferences W (Option Err)
  resolve_mysql_virtual_network_rule = resolve_rule mysql_server

  unfoldable pub resolve_postgresql_virtual_network_rule : M RuleReferences W (Option Err)
  resolve_postgresql_virtual_network_rule = resolve_rule postgresql_server

  abbrev resolve_of_server : Target → M ServerReferences W (Option Err)
  resolve_of_server to =
      resolve resolver server_group resource_group external_name
        (resolve resolver server to external_name (pure none))

  unfoldable pub resolve_mysql_firewall_rule : M ServerReferences W (Option Err)
  resolve_mysql_firewall_rule = resolve_of_server mysql_server

  unfoldable pub resolve_postgresql_firewall_rule : M ServerReferences W (Option Err)
  resolve_postgresql_firewall_rule = resolve_of_server postgresql_server

  unfoldable pub resolve_mysql_configuration : M ServerReferences W (Option Err)
  resolve_mysql_configuration = resolve_of_server mysql_server

  unfoldable pub resolve_postgresql_configuration : M ServerReferences W (Option Err)
  resolve_postgresql_configuration = resolve_of_server postgresql_server

  -- An object that names its resource group only.
  abbrev pub resolve_group : String → M GroupReference W (Option Err)
  resolve_group path = resolve resolver (group_at path) resource_group external_name (pure none)

  unfoldable pub resolve_cosmos_account : M GroupReference W (Option Err)
  resolve_cosmos_account = resolve_group "spec.forProvider.resourceGroupName"

  unfoldable pub resolve_mysql_server : M GroupReference W (Option Err)
  resolve_mysql_server = resolve_group "spec.forProvider.resourceGroupName"

  unfoldable pub resolve_postgresql_server : M GroupReference W (Option Err)
  resolve_postgresql_server = resolve_group "spec.forProvider.resourceGroupName"
