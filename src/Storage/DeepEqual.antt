-- ===== src/Storage/DeepEqual.antt =====
-- `reflect.DeepEqual` on the account specifications of apis/storage/v1alpha3: pointers and slices
-- that are nil equal only nil ones, tags are compared as maps.
use provider_azure.Prelude.{
  ◌≡◌, refl, Bool, true, ◌&&◌, arith, eq_refl, bool_eq, bool_eq_iff, ptr_eq, ptr_eq_refl, list_eq,
  list_eq_refl, ◌==◌,
}
use provider_azure.Go.Maps.{Slice, entries, map_eq, Distinct}
use provider_azure.Go.Maps.Laws.{map_eq_refl}
use provider_azure.Storage.Types.{
  CustomDomain, EnabledEncryptionServices, KeyVaultProperties, Encryption, Identity, IpRule,
  VirtualNetworkRule, NetworkRuleSet, SkuCapability, Sku, StorageAccountSpecProperties,
  StorageAccountSpec,
}

abbrev slice_eq : {A : Type 0} → (A → A → Bool) → Slice A → Slice A → Bool
slice_eq eq s t = ptr_eq (list_eq eq) s t

unfoldable pub custom_domain_eq : CustomDomain → CustomDomain → Bool
custom_domain_eq c d = c.name == d.name && bool_eq c.use_sub_domain_name d.use_sub_domain_name

unfoldable pub services_eq : EnabledEncryptionServices → EnabledEncryptionServices → Bool
services_eq s t = bool_eq s.blob t.blob && bool_eq s.file t.file

unfoldable pub key_vault_eq : KeyVaultProperties → KeyVaultProperties → Bool
key_vault_eq p q =
    p.key_name == q.key_name && p.key_version == q.key_version && p.key_vault_uri == q.key_vault_uri

unfoldable pub encryption_eq : Encryption → Encryption → Bool
encryption_eq e f =
    ptr_eq services_eq e.services f.services
    && e.key_source == f.key_source
    && ptr_eq key_vault_eq e.key_vault_properties f.key_vault_properties

unfoldable pub identity_eq : Identity → Identity → Bool
identity_eq i j = i.principal_id == j.principal_id && i.tenant_id == j.tenant_id && i.type == j.type

unfoldable pub ip_rule_eq : IpRule → IpRule → Bool
ip_rule_eq r s = r.ip_address_or_range == s.ip_address_or_range && r.action == s.action

unfoldable pub virtual_network_rule_eq : VirtualNetworkRule → VirtualNetworkRule → Bool
virtual_network_rule_eq r s =
    r.virtual_network_resource_id == s.virtual_network_resource_id && r.action == s.action

unfoldable pub network_rule_set_eq : NetworkRuleSet → NetworkRuleSet → Bool
network_rule_set_eq n m =
    n.bypass == m.bypass
    && slice_eq virtual_network_rule_eq n.virtual_network_rules m.virtual_network_rules
    && slice_eq ip_rule_eq n.ip_rules m.ip_rules
    && n.default_action == m.default_action

unfoldable pub sku_capability_eq : SkuCapability → SkuCapability → Bool
sku_capability_eq c d = c.name == d.name && c.value == d.value

unfoldable pub sku_eq : Sku → Sku → Bool
sku_eq s t =
    slice_eq sku_capability_eq s.capabilities t.capabilities
    && s.kind == t.kind
    && slice_eq ◌==◌ s.locations t.locations
    && s.name == t.name
    && s.resource_type == t.resource_type
    && s.tier == t.tier

unfoldable pub properties_eq : StorageAccountSpecProperties → StorageAccountSpecProperties → Bool
properties_eq p q =
    p.access_tier == q.access_tier
    && ptr_eq custom_domain_eq p.custom_domain q.custom_domain
    && bool_eq p.enable_https_traffic_only q.enable_https_traffic_only
    && ptr_eq encryption_eq p.encryption q.encryption
    && ptr_eq network_rule_set_eq p.network_rule_set q.network_rule_set

unfoldable pub spec_eq : StorageAccountSpec → StorageAccountSpec → Bool
spec_eq s t =
    ptr_eq identity_eq s.identity t.identity
    && s.kind == t.kind
    && s.location == t.location
    && ptr_eq sku_eq s.sku t.sku
    && ptr_eq properties_eq s.properties t.properties
    && map_eq ◌==◌ s.tags t.tags

slice_eq_refl :
    {A : Type 0} (eq : A → A → Bool) (s : Slice A)
    → ((a : A) → eq a a ≡ true)
    → slice_eq eq s s ≡ true
slice_eq_refl eq s r = ptr_eq_refl (list_eq eq) s (λ l. list_eq_refl eq l r)

bool_eq_refl : (b : Bool) → bool_eq b b ≡ true
bool_eq_refl b = (bool_eq_iff b b).1 refl

custom_domain_eq_refl : (c : CustomDomain) → custom_domain_eq c c ≡ true
unfolding custom_domain_eq
custom_domain_eq_refl c = ground (arith, eq_refl c.name, bool_eq_refl c.use_sub_domain_name)

services_eq_refl : (s : EnabledEncryptionServices) → services_eq s s ≡ true
unfolding services_eq
services_eq_refl s = ground (arith, bool_eq_refl s.blob, bool_eq_refl s.file)

key_vault_eq_refl : (p : KeyVaultProperties) → key_vault_eq p p ≡ true
unfolding key_vault_eq
key_vault_eq_refl p =
    ground (arith, eq_refl p.key_name, eq_refl p.key_version, eq_refl p.key_vault_uri)

encryption_eq_refl : (e : Encryption) → encryption_eq e e ≡ true
unfolding encryption_eq
encryption_eq_refl e = ground (
  arith,
  ptr_eq_refl services_eq e.services services_eq_refl,
  eq_refl e.key_source,
  ptr_eq_refl key_vault_eq e.key_vault_properties key_vault_eq_refl,
)

identity_eq_refl : (i : Identity) → identity_eq i i ≡ true
unfolding identity_eq
identity_eq_refl i = ground (arith, eq_refl i.principal_id, eq_refl i.tenant_id, eq_refl i.type)

ip_rule_eq_refl : (r : IpRule) → ip_rule_eq r r ≡ true
unfolding ip_rule_eq
ip_rule_eq_refl r = ground (arith, eq_refl r.ip_address_or_range, eq_refl r.action)

virtual_network_rule_eq_refl : (r : VirtualNetworkRule) → virtual_network_rule_eq r r ≡ true
unfolding virtual_network_rule_eq
virtual_network_rule_eq_refl r =
    ground (arith, eq_refl r.virtual_network_resource_id, eq_refl r.action)

network_rule_set_eq_refl : (n : NetworkRuleSet) → network_rule_set_eq n n ≡ true
unfolding network_rule_set_eq
network_rule_set_eq_refl n = ground (
  arith,
  eq_refl n.bypass,
  slice_eq_refl virtual_network_rule_eq n.virtual_network_rules virtual_network_rule_eq_refl,
  slice_eq_refl ip_rule_eq n.ip_rules ip_rule_eq_refl,
  eq_refl n.default_action,
)

sku_capability_eq_refl : (c : SkuCapability) → sku_capability_eq c c ≡ true
unfolding sku_capability_eq
sku_capability_eq_refl c = ground (arith, eq_refl c.name, eq_refl c.value)

sku_eq_refl : (s : Sku) → sku_eq s s ≡ true
unfolding sku_eq
sku_eq_refl s = ground (
  arith,
  slice_eq_refl sku_capability_eq s.capabilities sku_capability_eq_refl,
  eq_refl s.kind,
  slice_eq_refl ◌==◌ s.locations eq_refl,
  eq_refl s.name,
  eq_refl s.resource_type,
  eq_refl s.tier,
)

properties_eq_refl : (p : StorageAccountSpecProperties) → properties_eq p p ≡ true
unfolding properties_eq
properties_eq_refl p = ground (
  arith,
  eq_refl p.access_tier,
  ptr_eq_refl custom_domain_eq p.custom_domain custom_domain_eq_refl,
  bool_eq_refl p.enable_https_traffic_only,
  ptr_eq_refl encryption_eq p.encryption encryption_eq_refl,
  ptr_eq_refl network_rule_set_eq p.network_rule_set network_rule_set_eq_refl,
)

pub spec_eq_refl : (s : StorageAccountSpec) → Distinct (entries s.tags) → spec_eq s s ≡ true
unfolding spec_eq
spec_eq_refl s d = ground (
  arith,
  ptr_eq_refl identity_eq s.identity identity_eq_refl,
  eq_refl s.kind,
  eq_refl s.location,
  ptr_eq_refl sku_eq s.sku sku_eq_refl,
  ptr_eq_refl properties_eq s.properties properties_eq_refl,
  map_eq_refl ◌==◌ s.tags eq_refl d,
)
