-- ===== src/Network/PublicIp/Tests.antt =====
-- A public IP address over a concrete Azure, which has filled in a timeout and has turned two IP tags
-- around: the world counts the calls.
use provider_azure.Prelude.{ℕ, ◌+◌, ◌≡◌, refl, true, false, none, some, [], ◌∷◌, inl, inr}
use provider_azure.Go.Errors.{ok, detailed, int_code}
use provider_azure.Vendor.{available}
use provider_azure.Vendor.Standard.{standard, standard-Documented}
use provider_azure.Managed.{no_observation}
use provider_azure.Network.Tags.{IpTag, is_ip_tags_up_to_date}
use provider_azure.Network.Tags.Multiset.{count, is_ip_tags_up_to_date_iff}
use provider_azure.Network.PublicIp.{PublicIpAddress, AzureAddress}
use provider_azure.Network.PublicIp.Params.{
  new_public_ip_address_parameters, generate_public_ip_address_observation,
  late_initialize_public_ip_address, is_public_ip_address_up_to_date,
}
use provider_azure.Network.PublicIp.Controller.{External, observe_public_ip_address}
use provider_azure.Network.PublicIp.InSync.{IsKept, observe_public_ip_address-IsKept}

abbrev usage : IpTag
usage = record { ip_tag_type = "FirstPartyUsage"; tag = "SQL" }

abbrev routing : IpTag
routing = record { ip_tag_type = "RoutingPreference"; tag = "Internet" }

abbrev address : PublicIpAddress
address = record {
  external_name = "ip";
  for_provider = record {
    resource_group_name = "rg";
    public_ip_allocation_method = "Static";
    public_ip_address_version = "IPv4";
    location = "west";
    sku = some (record { name = "Standard" });
    public_ip_prefix_id = none;
    dns_settings = some (record { domain_name_label = "web"; reverse_fqdn = none });
    tcp_idle_timeout_in_minutes = none;
    ip_tags = some (routing ∷ usage ∷ []);
    tags = some (("team", "a") ∷ []);
  };
  at_provider = record {
    state = "";
    message = "";
    etag = "";
    id = "";
    address = "";
    version = "";
    dns_settings = none;
    ip_configuration = none;
  };
  conditions = record { ready = none; synced = none };
}

abbrev azure_address : AzureAddress
azure_address = record {
  parameters = record {
    sku = some (record { name = "Standard" });
    public_ip_allocation_method = "Static";
    public_ip_address_version = "IPv4";
    dns_settings = some (record {
      domain_name_label = some "web";
      fqdn = some "web.west.cloudapp.azure.com";
      reverse_fqdn = some "web.example.org";
    });
    public_ip_prefix = none;
    idle_timeout_in_minutes = some 4;
    ip_tags = some (usage ∷ routing ∷ []);
    location = some "west";
    tags = some (("team", some "a") ∷ []);
  };
  provisioning_state = some "Succeeded";
  etag = none;
  id = some "id";
  ip_address = some "10.0.0.1";
  ip_configuration = none;
}

abbrev azure : External ℕ
azure = record {
  get = λ g n w. (ok azure_address, w + 1);
  create_or_update = λ g n p w. (none, w + 1);
  delete = λ g n w. (some (detailed (int_code 404)), w + 1);
  update_object = λ c w. (ok c, w + 1);
}

sorted_tags_example :
    is_ip_tags_up_to_date address.for_provider.ip_tags azure_address.parameters.ip_tags ≡ true
unfolding is_ip_tags_up_to_date provider_azure.Network.Tags.less
sorted_tags_example = refl

same_tags : (x : IpTag) → count x (routing ∷ usage ∷ []) ≡ count x (usage ∷ routing ∷ [])
same_tags =
    (is_ip_tags_up_to_date_iff address.for_provider.ip_tags azure_address.parameters.ip_tags).0
      sorted_tags_example

address-IsKept :
    IsKept (new_public_ip_address_parameters ⦃v = standard⦄ address) azure_address.parameters
unfolding new_public_ip_address_parameters
address-IsKept = record {
  sku = inr refl;
  label = inr refl;
  reverse = inl refl;
  prefix = inl refl;
  idle_timeout = inl refl;
  ip_tags = inr same_tags;
  tags = inr refl;
}

-- Without late initialisation the timeout and the reverse name would differ.
uninitialised_example :
    is_public_ip_address_up_to_date ⦃v = standard⦄ address.for_provider azure_address ≡ false
unfolding is_public_ip_address_up_to_date provider_azure.Azure.Convert.to_int
    provider_azure.Go.Maps.entries_eq provider_azure.Azure.Convert.to_string_map
    provider_azure.Go.Maps.lookup provider_azure.Azure.Convert.to_string
uninitialised_example = refl

observe_public_ip_address-IsKept_example :
    observe_public_ip_address azure ⦃v = standard⦄ (record { object = address; world = 0 }) ≡ (
      (record no_observation { resource_exists = true; resource_up_to_date = true }, none),
      record {
        object = record address {
          for_provider =
              late_initialize_public_ip_address ⦃v = standard⦄ address.for_provider azure_address;
          at_provider = generate_public_ip_address_observation ⦃v = standard⦄ azure_address;
          conditions = standard.set_condition available address.conditions;
        };
        world = 2;
      },
    )
observe_public_ip_address-IsKept_example =
    observe_public_ip_address-IsKept azure ⦃v = standard⦄ standard-Documented
      (record { object = address; world = 0 }) azure_address 1 2 refl refl address-IsKept (tt, tt)
