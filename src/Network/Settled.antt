-- ===== src/Network/Settled.antt =====
-- When a virtual network or a subnet needs no update.
use provider_azure.Prelude.{
  String, ◌≡◌, sym, ◌∙◌, ◌↔◌, true, false, Option, none, some, if◌then◌else◌, [], arith, eq_iff,
  eq_refl, ptr_eq, ptr_eq_refl, ptr_eq_iff, list_eq, list_eq_iff, bool_eq, bool_eq_iff, ◌==◌,
}
use provider_azure.Go.Errors.{ok}
use provider_azure.Go.Maps.{Slice, entries, map_eq, Distinct}
use provider_azure.Go.Effect.{Session}
use provider_azure.Vendor.{Vendor, Documented}
use provider_azure.Vendor.Standard.{Documented-standard}
use provider_azure.Azure.Convert.{to_string_ptr, to_bool_ptr, to_string_ptr_map}
use provider_azure.Azure.Convert.RoundTrip.{to_string_ptr_map_refl}
use provider_azure.Managed.{no_details}
use provider_azure.Network.Types.{VirtualNetwork, Subnet, AddressSpace, AzureNetwork, AzureSubnet}
use provider_azure.Network.Params.{
  address_space_eq, new_virtual_network_parameters, virtual_network_needs_update,
  subnet_needs_update, new_subnet_parameters,
}
use provider_azure.Network.Controllers.VirtualNetworks.{VirtualNetworksClient, update_network}
use provider_azure.Network.Controllers.Subnets.{SubnetsClient, update_subnet}

slice_eq_iff : (s t : Slice String) → (ptr_eq (list_eq ◌==◌) s t ≡ true) ↔ (s ≡ t)
slice_eq_iff s t = ptr_eq_iff (list_eq ◌==◌) s t (λ l m. list_eq_iff ◌==◌ l m eq_iff)

address_space_eq_iff : (a b : Option AddressSpace) → (address_space_eq a b ≡ true) ↔ (a ≡ b)
address_space_eq_iff a b = ptr_eq_iff _ a b (λ x y.
    ground (
      arith,
      ptr_eq_iff (ptr_eq (list_eq ◌==◌)) x.address_prefixes y.address_prefixes slice_eq_iff,
    ))

module _ ⦃v : Vendor⦄ where
  needs_update-sent_iff :
      (n : VirtualNetwork) (az : AzureNetwork)
      → let up = new_virtual_network_parameters n in
        (virtual_network_needs_update n az ≡ false) ↔ (
          (up.address_space ≡ az.parameters.address_space)
          × (up.enable_ddos_protection ≡ az.parameters.enable_ddos_protection)
          × (up.enable_vm_protection ≡ az.parameters.enable_vm_protection)
          × (map_eq (ptr_eq ◌==◌) up.tags az.parameters.tags ≡ true))
  unfolding virtual_network_needs_update
  needs_update-sent_iff n az =
      let up = new_virtual_network_parameters n in
      ground (
        arith,
        address_space_eq_iff up.address_space az.parameters.address_space,
        ptr_eq_iff bool_eq up.enable_ddos_protection az.parameters.enable_ddos_protection
            bool_eq_iff,
        ptr_eq_iff bool_eq up.enable_vm_protection az.parameters.enable_vm_protection bool_eq_iff,
      )

module _ ⦃v : Vendor⦄ (d : Documented v) where
  ddos_sent :
      (n : VirtualNetwork)
      → (new_virtual_network_parameters n).enable_ddos_protection ≡ some n.enable_ddos_protection
  unfolding new_virtual_network_parameters to_bool_ptr
  ddos_sent n = rw (Documented-standard d) (ground arith)

  vm_sent :
      (n : VirtualNetwork)
      → (new_virtual_network_parameters n).enable_vm_protection
        ≡ (if n.enable_vm_protection then some true else none)
  unfolding new_virtual_network_parameters to_bool_ptr
  vm_sent n = rw (Documented-standard d) (ground arith)

  -- A virtual network needs no update exactly if Azure has an address space with the user's prefixes,
  -- has the protection from denial of service set to the user's value, has the protection of machines
  -- set to true if the user wants it and not set if not, and has the user's tags, as a map.
  pub virtual_network_needs_update_iff :
      (n : VirtualNetwork) (az : AzureNetwork)
      → (virtual_network_needs_update n az ≡ false) ↔ (
          (az.parameters.address_space
            ≡ some (record { address_prefixes = some n.address_prefixes }))
          × (az.parameters.enable_ddos_protection ≡ some n.enable_ddos_protection)
          × (az.parameters.enable_vm_protection
              ≡ (if n.enable_vm_protection then some true else none))
          × (map_eq (ptr_eq ◌==◌) (to_string_ptr_map n.tags) az.parameters.tags ≡ true))
  unfolding new_virtual_network_parameters to_bool_ptr
  virtual_network_needs_update_iff n az =
      let e = needs_update-sent_iff n az in
      (
        (λ h.
            let (space, ddos, vm, tags) = e.0 h in
            (sym space, sym ddos ∙ ddos_sent n, sym vm ∙ vm_sent n, tags)),
        (λ h.
            let (space, ddos, vm, tags) = h in
            e.1 (sym space, ddos_sent n ∙ sym ddos, vm_sent n ∙ sym vm, tags)),
      )

  tags_eq :
      (n : VirtualNetwork)
      → Distinct (entries n.tags)
      → map_eq
          (ptr_eq ◌==◌)
          (new_virtual_network_parameters n).tags
          (new_virtual_network_parameters n).tags
        ≡ true
  unfolding new_virtual_network_parameters
  tags_eq n k = to_string_ptr_map_refl d n.tags k

  needs_update-same :
      (n : VirtualNetwork) (az : AzureNetwork)
      → az.parameters ≡ new_virtual_network_parameters n
      → Distinct (entries n.tags)
      → virtual_network_needs_update n az ≡ false
  needs_update-same n az p k = (needs_update-sent_iff n az).1 (
    (λ i. (sym p i).address_space),
    (λ i. (sym p i).enable_ddos_protection),
    (λ i. (sym p i).enable_vm_protection),
    rw p (tags_eq n k),
  )

module _ {W : Type 0} ⦃v : Vendor⦄ (d : Documented v) where
  -- Once Azure has what NewVirtualNetworkParameters asks for, with tags of distinct keys, Update
  -- reads the network and does nothing else.
  pub update_network-settled :
      (client : VirtualNetworksClient W) (s : Session VirtualNetwork W) (az : AzureNetwork) (w : W)
      → client.get s.object.resource_group_name s.object.external_name s.world ≡ (ok az, w)
      → az.parameters ≡ new_virtual_network_parameters s.object
      → Distinct (entries s.object.tags)
      → update_network client s ≡ ((no_details, none), record s { world = w })
  unfolding update_network
  update_network-settled client s az w g p k =
      ground (arith, g, needs_update-same d s.object az p k)

module _ {W : Type 0} ⦃v : Vendor⦄ where
  -- If Azure has the address prefix that is asked for, Update of a subnet reads the subnet and does
  -- nothing else, whatever service endpoints are asked for and whatever Azure has.
  pub update_subnet-same_prefix :
      (client : SubnetsClient W) (s : Session Subnet W) (az : AzureSubnet) (w : W)
      → client.get s.object.resource_group_name s.object.virtual_network_name s.object.external_name
          s.world
        ≡ (ok az, w)
      → az.parameters.address_prefix ≡ to_string_ptr s.object.address_prefix []
      → update_subnet client s ≡ ((no_details, none), record s { world = w })
  unfolding update_subnet subnet_needs_update new_subnet_parameters
  update_subnet-same_prefix client s az w g p =
      ground (arith, g, p, ptr_eq_refl ◌==◌ (to_string_ptr s.object.address_prefix []) eq_refl)
