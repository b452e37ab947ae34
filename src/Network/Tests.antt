-- ===== src/Network/Tests.antt =====
-- A virtual network and a subnet over a concrete Azure: the world counts the calls.
use provider_azure.Prelude.{
  ℕ, ◌+◌, ◌≡◌, refl, ◌↔◌, true, false, none, some, List, [], ◌∷◌, ptr_eq, ◌==◌,
}
use provider_azure.Go.Errors.{ok}
use provider_azure.Go.Maps.{map_eq, entries}
use provider_azure.Vendor.Standard.{standard, standard-Documented}
use provider_azure.Azure.Convert.{to_string_ptr, to_string_ptr_map}
use provider_azure.Network.Types.{VirtualNetwork, Subnet, AzureNetwork, AzureSubnet}
use provider_azure.Network.Params.{new_virtual_network_parameters, virtual_network_needs_update}
use provider_azure.Network.Controllers.VirtualNetworks.{VirtualNetworksClient}
use provider_azure.Network.Controllers.Subnets.{SubnetsClient}
use provider_azure.Network.Settled.{virtual_network_needs_update_iff}
use provider_azure.Network.Tags.{IpTag, is_ip_tags_up_to_date}
use provider_azure.Network.Tags.Multiset.{count, is_ip_tags_up_to_date_iff}

abbrev network : VirtualNetwork
network = record {
  external_name = "net";
  resource_group_name = "rg";
  address_prefixes = some ("10.0.0.0/16" ∷ []);
  enable_ddos_protection = false;
  enable_vm_protection = true;
  location = "west";
  tags = some (("team", "a") ∷ []);
  status = record { state = ""; id = ""; etag = ""; resource_guid = ""; type = "" };
  conditions = record { ready = none; synced = none };
}

abbrev azure_network : AzureNetwork
azure_network = record {
  parameters = record {
    location = some "west";
    tags = some (("team", some "a") ∷ []);
    enable_ddos_protection = some false;
    enable_vm_protection = some true;
    address_space = some (record { address_prefixes = some (some ("10.0.0.0/16" ∷ [])) });
  };
  provisioning_state = some "Succeeded";
  id = none;
  etag = none;
  resource_guid = none;
  type = none;
}

virtual_network_needs_update_iff_example :
    (virtual_network_needs_update ⦃v = standard⦄ network azure_network ≡ false) ↔ (
      (azure_network.parameters.address_space
        ≡ some (record { address_prefixes = some (some ("10.0.0.0/16" ∷ [])) }))
      × (azure_network.parameters.enable_ddos_protection ≡ some false)
      × (azure_network.parameters.enable_vm_protection ≡ some true)
      × (map_eq
            (ptr_eq ◌==◌)
            (to_string_ptr_map ⦃v = standard⦄ (some (("team", "a") ∷ [])))
            azure_network.parameters.tags
          ≡ true))
virtual_network_needs_update_iff_example =
    virtual_network_needs_update_iff ⦃v = standard⦄ standard-Documented network azure_network

sent_to_azure : azure_network.parameters ≡ new_virtual_network_parameters ⦃v = standard⦄ network
unfolding new_virtual_network_parameters
sent_to_azure = refl

abbrev networks : VirtualNetworksClient ℕ
networks = record {
  get = λ g n w. (ok azure_network, w + 1);
  create_or_update = λ g n p w. (none, w + 1);
  delete = λ g n w. (none, w + 1);
}

-- A subnet that asks for a service endpoint which Azure has not.
abbrev subnet : Subnet
subnet = record {
  external_name = "sub";
  resource_group_name = "rg";
  virtual_network_name = "net";
  address_prefix = "10.0.1.0/24";
  service_endpoints =
      some (record { service = "Microsoft.Sql"; locations = none; provisioning_state = "" } ∷ []);
  status = record { state = ""; etag = ""; id = ""; purpose = "" };
  conditions = record { ready = none; synced = none };
}

abbrev azure_subnet : AzureSubnet
azure_subnet = record {
  parameters = record { address_prefix = some "10.0.1.0/24"; service_endpoints = some [] };
  provisioning_state = none;
  etag = none;
  id = none;
  purpose = none;
}

abbrev subnets : SubnetsClient ℕ
subnets = record {
  get = λ g v n w. (ok azure_subnet, w + 1);
  create_or_update = λ g v n p w. (none, w + 1);
  delete = λ g v n w. (none, w + 1);
}

prefix_sent :
    azure_subnet.parameters.address_prefix ≡ to_string_ptr ⦃v = standard⦄ subnet.address_prefix []
unfolding to_string_ptr
prefix_sent = refl

abbrev usage : IpTag
usage = record { ip_tag_type = "FirstPartyUsage"; tag = "SQL" }

abbrev routing : IpTag
routing = record { ip_tag_type = "RoutingPreference"; tag = "Internet" }

abbrev desired_tags : List IpTag
desired_tags = usage ∷ routing ∷ usage ∷ []

abbrev answered_tags : List IpTag
answered_tags = routing ∷ usage ∷ usage ∷ []

tags_example : is_ip_tags_up_to_date (some desired_tags) (some answered_tags) ≡ true
unfolding is_ip_tags_up_to_date provider_azure.Network.Tags.less
tags_example = refl

missing_tags_example : is_ip_tags_up_to_date (some desired_tags) none ≡ false
unfolding is_ip_tags_up_to_date
missing_tags_example = refl

is_ip_tags_up_to_date_iff_example :
    (is_ip_tags_up_to_date (some desired_tags) (some answered_tags) ≡ true)
    ↔ ((x : IpTag) → count x (entries (some desired_tags)) ≡ count x (entries (some answered_tags)))
is_ip_tags_up_to_date_iff_example =
    is_ip_tags_up_to_date_iff (some desired_tags) (some answered_tags)
