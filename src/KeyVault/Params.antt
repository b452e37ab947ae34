-- ===== src/KeyVault/Params.antt =====
-- pkg/clients/keyvault/secret/keyvault_secret.go
use provider_azure.Prelude.{
  String, Bool, ◌&&◌, Option, none, some, List, [], ◌∷◌, ◌==◌, nat_eq, bool_eq, ptr_eq,
}
use provider_azure.Go.Maps.{GoMap, map_eq, insert}
use provider_azure.Vendor.{Vendor}
use provider_azure.Azure.Convert.{to_string, to_string_ptr, to_string_ptr_map}
use provider_azure.Azure.LateInit.{
  late_initialize_string_map, late_initialize_string_ptr_from_ptr,
  late_initialize_bool_ptr_from_ptr,
}
use provider_azure.KeyVault.{
  Instant, AttributesParameters, SecretParameters, AttributesObservation, SecretObservation,
  AzureAttributes, SecretBundle, SetParameters,
}

-- `unixTimeComparer`, and metav1's Equal.
abbrev pub instant_eq : Option Instant → Option Instant → Bool
instant_eq = ptr_eq nat_eq

abbrev pub string_ptr_eq : Option String → Option String → Bool
string_ptr_eq = ptr_eq ◌==◌

-- `unixTimeToMetav1Time` and `metav1TimeToUnixTime` keep the instant.
abbrev pub same_instant : Option Instant → Option Instant
same_instant none = none
same_instant (some t) = some t

abbrev pub generate_attributes : Option AttributesParameters → Option AzureAttributes
generate_attributes none = none
generate_attributes (some spec) = some (record {
  recovery_level = "";
  enabled = spec.enabled;
  not_before = same_instant spec.not_before_date;
  expires = same_instant spec.expiration_date;
  created = none;
  updated = none;
})

abbrev pub generate_secret_attributes : Option AzureAttributes → Option AttributesObservation
generate_secret_attributes none = none
generate_secret_attributes (some az) = some (record {
  recovery_level = az.recovery_level;
  created = same_instant az.created;
  updated = same_instant az.updated;
})

-- A date that is not set is taken from Azure.
abbrev pub late_initialize_time : Option Instant → Option Instant → Option Instant
late_initialize_time (some t) from = some t
late_initialize_time none from = same_instant from

abbrev attributes_or_empty : Option AttributesParameters → AttributesParameters
attributes_or_empty (some a) = a
attributes_or_empty none = record { enabled = none; not_before_date = none; expiration_date = none }

unfoldable pub late_initialize_secret_attributes :
    Option AttributesParameters → Option AzureAttributes → Option AttributesParameters
unfolding late_initialize_bool_ptr_from_ptr
late_initialize_secret_attributes sa none = sa
late_initialize_secret_attributes sa (some az) =
    let a = attributes_or_empty sa in
    some (record {
      expiration_date = late_initialize_time a.expiration_date az.expires;
      not_before_date = late_initialize_time a.not_before_date az.not_before;
      enabled = late_initialize_bool_ptr_from_ptr a.enabled az.enabled;
    })

-- The attributes that the user sets replace those of the copy.
abbrev pub override_attributes :
    Option AttributesParameters → Option AzureAttributes → Option AzureAttributes
override_attributes none has = has
override_attributes (some spec) none = generate_attributes (some spec)
override_attributes (some spec) (some b) = some (record b {
  enabled = spec.enabled;
  not_before = same_instant spec.not_before_date;
  expires = same_instant spec.expiration_date;
})

abbrev pub override_content_type : Option String → Option String → Option String
override_content_type none has = has
override_content_type (some c) has = some c

-- `cmp.Equal` on two pointers to attributes, and on two bundles.
abbrev pub attributes_eq : Option AzureAttributes → Option AzureAttributes → Bool
attributes_eq = ptr_eq λ a b.
    a.recovery_level == b.recovery_level
    && ptr_eq bool_eq a.enabled b.enabled
    && instant_eq a.not_before b.not_before
    && instant_eq a.expires b.expires
    && instant_eq a.created b.created
    && instant_eq a.updated b.updated

unfoldable pub bundle_eq : SecretBundle → SecretBundle → Bool
bundle_eq a b =
    string_ptr_eq a.id b.id
    && string_ptr_eq a.value b.value
    && string_ptr_eq a.content_type b.content_type
    && attributes_eq a.attributes b.attributes
    && map_eq string_ptr_eq a.tags b.tags
    && string_ptr_eq a.kid b.kid
    && ptr_eq bool_eq a.managed b.managed

module _ ⦃v : Vendor⦄ where
  unfoldable pub generate_observation : SecretBundle → SecretObservation
  unfolding to_string
  generate_observation az = record {
    id = to_string az.id;
    kid = az.kid;
    managed = az.managed;
    attributes = generate_secret_attributes az.attributes;
  }

  unfoldable pub late_initialize : SecretParameters → SecretBundle → SecretParameters
  unfolding late_initialize_string_map late_initialize_string_ptr_from_ptr
      late_initialize_secret_attributes
  late_initialize spec az = record spec {
    tags = late_initialize_string_map spec.tags az.tags;
    content_type = late_initialize_string_ptr_from_ptr spec.content_type az.content_type;
    secret_attributes = late_initialize_secret_attributes spec.secret_attributes az.attributes;
  }

  -- `for k, v := range sp.Tags { sb.Tags[k] = azure.ToStringPtr(v) }`: the keys are distinct, so that their order
  -- does not matter.
  unfoldable pub put_tags :
      List (String × String) → List (String × Option String) → List (String × Option String)
  unfolding to_string_ptr
  put_tags [] has = has
  put_tags ((k, s) ∷ m) has = put_tags m (insert k (to_string_ptr s []) has)

  abbrev pub override_tags : GoMap String → GoMap (Option String) → GoMap (Option String)
  override_tags none has = has
  override_tags (some m) none = to_string_ptr_map (some m)
  override_tags (some m) (some has) = some (put_tags m has)

  unfoldable pub override_parameters : SecretParameters → SecretBundle → String → SecretBundle
  unfolding to_string_ptr to_string_ptr_map put_tags
  override_parameters sp sb val = record sb {
    value = to_string_ptr val [];
    content_type = override_content_type sp.content_type sb.content_type;
    tags = override_tags sp.tags sb.tags;
    attributes = override_attributes sp.secret_attributes sb.attributes;
  }

  -- What Create and Update send.
  unfoldable pub set_parameters : SecretParameters → String → SetParameters
  unfolding to_string_ptr to_string_ptr_map
  set_parameters p val = record {
    value = to_string_ptr val [];
    tags = to_string_ptr_map p.tags;
    content_type = p.content_type;
    secret_attributes = generate_attributes p.secret_attributes;
  }
