-- ===== src/Storage/Convert/Parts.antt =====
-- The parts of an account's specification survive the conversion to the SDK and back.
use provider_azure.Prelude.{
  String, ◌≡◌, refl, ap, ◌≢◌, Option, none, some, List, [], ◌∷◌, map, arith, eq_iff,
}
use provider_azure.Go.Maps.{Slice}
use provider_azure.Go.Panic.{returns}
use provider_azure.Vendor.Standard.{standard}
use provider_azure.Storage.Types.{
  CustomDomain, KeyVaultProperties, Encryption, Identity, NetworkRuleSet, IpRule,
  VirtualNetworkRule, SkuCapability, Sku, StorageAccountSpecProperties,
}
use provider_azure.Storage.Sdk.{AzureEncryption}
use provider_azure.Storage.Convert.FromSdk.{
  on_ptr, new_custom_domain, new_key_vault_properties, new_encryption, new_identity, new_ip_rule,
  new_virtual_network_rule, new_sku_capability, new_network_rule_set, new_sku,
}
use provider_azure.Storage.Convert.ToSdk.{
  ptr_if_nonempty, locations_ptr, to_string_ptr, to_storage_custom_domain,
  to_storage_key_vault_properties, to_storage_encryption, to_storage_identity, to_storage_ip_rule,
  to_storage_virtual_network_rule, to_storage_sku_capability, to_storage_network_rule_set,
  to_storage_sku,
}

-- A slice that is nil rather than empty.
abbrev pub NilIfEmpty : {A : Type 0} → Slice A → Type 0
NilIfEmpty s = s ≢ some []

abbrev pub IsNormalSku : Option Sku → Type 0
IsNormalSku none = Unit
IsNormalSku (some k) = NilIfEmpty k.capabilities × NilIfEmpty k.locations

abbrev pub IsNormalRules : Option NetworkRuleSet → Type 0
IsNormalRules none = Unit
IsNormalRules (some n) = NilIfEmpty n.virtual_network_rules × NilIfEmpty n.ip_rules

abbrev pub IsNormalProperties : Option StorageAccountSpecProperties → Type 0
IsNormalProperties none = Unit
IsNormalProperties (some p) = IsNormalRules p.network_rule_set

pub string-to_string_ptr : (s : String) → standard.string (to_string_ptr s) ≡ s
unfolding to_string_ptr
string-to_string_ptr s = ground (arith, eq_iff s "")

slice_back :
    {A B : Type 0} (f : A → B) (g : B → A)
    → ((a : A) → g (f a) ≡ a)
    → (s : Slice A) → NilIfEmpty s
    → on_ptr (map g) (ptr_if_nonempty f s) ≡ s
slice_back f g h none n = refl
slice_back f g h (some []) n = absurd (n refl)
slice_back {A} f g h (some (x ∷ xs)) n = ap (λ (l : List A). some l) (λ i. h x i ∷ elements xs i)
  where
    elements : (l : List A) → map g (map f l) ≡ l
    elements [] = refl
    elements (y ∷ ys) = λ i. h y i ∷ elements ys i

locations_back : (s : Slice String) → NilIfEmpty s → locations_ptr ⦃v = standard⦄ s ≡ s
locations_back none n = refl
locations_back (some []) n = absurd (n refl)
locations_back (some (x ∷ xs)) n = refl

pub custom_domain_back :
    (c : Option CustomDomain)
    → new_custom_domain ⦃v = standard⦄ (to_storage_custom_domain ⦃v = standard⦄ c) ≡ c
unfolding new_custom_domain to_storage_custom_domain
custom_domain_back none = refl
custom_domain_back (some c) = ground (arith, eq_iff c.name "")

pub identity_back :
    (i : Option Identity) → new_identity ⦃v = standard⦄ (to_storage_identity ⦃v = standard⦄ i) ≡ i
unfolding new_identity to_storage_identity
identity_back none = refl
identity_back (some i) =
    ground (arith, eq_iff i.principal_id "", eq_iff i.tenant_id "", eq_iff i.type "")

key_vault_back :
    (p : Option KeyVaultProperties)
    → new_key_vault_properties ⦃v = standard⦄ (to_storage_key_vault_properties ⦃v = standard⦄ p) ≡ p
unfolding new_key_vault_properties to_storage_key_vault_properties
key_vault_back none = refl
key_vault_back (some p) =
    ground (arith, eq_iff p.key_name "", eq_iff p.key_version "", eq_iff p.key_vault_uri "")

pub encryption_back :
    (e : Option Encryption) (az : Option AzureEncryption)
    → to_storage_encryption ⦃v = standard⦄ e ≡ returns az
    → new_encryption ⦃v = standard⦄ az ≡ e
unfolding new_encryption to_storage_encryption
encryption_back none none h = refl
encryption_back none (some az) h = cc
encryption_back (some e) az h = ground (arith, key_vault_back e.key_vault_properties)

ip_rule_back : (r : IpRule) → new_ip_rule ⦃v = standard⦄ (to_storage_ip_rule r) ≡ r
unfolding new_ip_rule to_storage_ip_rule
ip_rule_back r = ground (arith, eq_iff r.ip_address_or_range "")

virtual_network_rule_back :
    (r : VirtualNetworkRule)
    → new_virtual_network_rule ⦃v = standard⦄ (to_storage_virtual_network_rule r) ≡ r
unfolding new_virtual_network_rule to_storage_virtual_network_rule
virtual_network_rule_back r = ground (arith, eq_iff r.virtual_network_resource_id "")

sku_capability_back :
    (s : SkuCapability) → new_sku_capability ⦃v = standard⦄ (to_storage_sku_capability s) ≡ s
unfolding new_sku_capability to_storage_sku_capability
sku_capability_back s = ground (arith, eq_iff s.name "", eq_iff s.value "")

pub network_rule_set_back :
    (n : Option NetworkRuleSet)
    → IsNormalRules n
    → new_network_rule_set ⦃v = standard⦄ (to_storage_network_rule_set n) ≡ n
unfolding new_network_rule_set to_storage_network_rule_set
network_rule_set_back none h = refl
network_rule_set_back (some n) h = λ i. some (record n {
  virtual_network_rules =
      slice_back to_storage_virtual_network_rule (new_virtual_network_rule ⦃v = standard⦄)
        virtual_network_rule_back n.virtual_network_rules h.0 i;
  ip_rules =
      slice_back to_storage_ip_rule (new_ip_rule ⦃v = standard⦄) ip_rule_back n.ip_rules h.1 i;
})

pub sku_back :
    (k : Option Sku) → IsNormalSku k → new_sku ⦃v = standard⦄ (to_storage_sku ⦃v = standard⦄ k) ≡ k
unfolding new_sku to_storage_sku
sku_back none h = refl
sku_back (some k) h = λ i. some (record k {
  capabilities =
      slice_back to_storage_sku_capability (new_sku_capability ⦃v = standard⦄) sku_capability_back
        k.capabilities h.0 i;
  locations = locations_back k.locations h.1 i;
  resource_type = string-to_string_ptr k.resource_type i;
})
