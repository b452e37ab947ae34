-- ===== src/KeyVault/InSync.antt =====
-- When a key vault secret counts as up to date.
use provider_azure.Prelude.{
  ℕ, String, ◌≡◌, refl, sym, ◌∙◌, ◌↔◌, ◌⊎◌, inl, inr, Bool-cases, true, false, Option, none, some,
  List, [], arith, eq_iff, eq_refl, nat_eq, nat_eq_iff, bool_eq, bool_eq_iff, ptr_eq_iff,
}
use provider_azure.Go.Errors.{ok}
use provider_azure.Go.Maps.{GoMap, entries, map_eq, lookup, map_values, Distinct}
use provider_azure.Go.Maps.Laws.{map_eq_refl, Distinct-map_values}
use provider_azure.Go.Effect.{Session}
use provider_azure.Vendor.{Vendor, Documented}
use provider_azure.Azure.Convert.{to_string_ptr, to_string_ptr_map}
use provider_azure.KeyVault.{
  AttributesParameters, SecretParameters, VaultSecret, AzureAttributes, SecretBundle,
}
use provider_azure.KeyVault.Params.{
  string_ptr_eq, same_instant, attributes_eq, bundle_eq, override_attributes, override_content_type,
  override_tags, override_parameters, set_parameters,
}
use provider_azure.KeyVault.Controller.{External, is_up_to_date}
use provider_azure.KeyVault.Tags.{
  HasTags, HasTags-lookup, lookup-map_values, put_tags_iff, string_ptr_eq_iff,
}

module _ ⦃v : Vendor⦄ where
  abbrev pub TagsAgree : GoMap String → GoMap (Option String) → Type 0
  TagsAgree none has = Unit
  TagsAgree (some m) none = ⊥
  TagsAgree (some m) (some has) = HasTags m has

  abbrev pub AttributesAgree : Option AttributesParameters → Option AzureAttributes → Type 0
  AttributesAgree none has = Unit
  AttributesAgree (some a) none = ⊥
  AttributesAgree (some a) (some b) =
      (b.enabled ≡ a.enabled) × (b.not_before ≡ a.not_before_date) × (b.expires ≡ a.expiration_date)

  -- Azure has the value, and all else that the user sets.
  pub record Agrees (spec : SecretParameters) (has : SecretBundle) (val : String) : Type 0 where
    pub value : has.value ≡ to_string_ptr val []
    pub content_type : (spec.content_type ≡ none) ⊎ (spec.content_type ≡ has.content_type)
    pub tags : TagsAgree spec.tags has.tags
    pub attributes : AttributesAgree spec.secret_attributes has.attributes

content_type_iff :
    (c has : Option String)
    → (string_ptr_eq (override_content_type c has) has ≡ true) ↔ ((c ≡ none) ⊎ (c ≡ has))
content_type_iff none has = (λ h. inl refl, λ h. (string_ptr_eq_iff has has).1 refl)
content_type_iff (some c) has = ground (arith, string_ptr_eq_iff (some c) has)

same_instant-eq : (t : Option ℕ) → same_instant t ≡ t
same_instant-eq none = refl
same_instant-eq (some t) = refl

attributes_eq_iff : (a b : Option AzureAttributes) → (attributes_eq a b ≡ true) ↔ (a ≡ b)
attributes_eq_iff a b = ptr_eq_iff _ a b (λ x y. ground (
  arith,
  eq_iff x.recovery_level y.recovery_level,
  ptr_eq_iff bool_eq x.enabled y.enabled bool_eq_iff,
  ptr_eq_iff nat_eq x.not_before y.not_before nat_eq_iff,
  ptr_eq_iff nat_eq x.expires y.expires nat_eq_iff,
  ptr_eq_iff nat_eq x.created y.created nat_eq_iff,
  ptr_eq_iff nat_eq x.updated y.updated nat_eq_iff,
))

module _ ⦃v : Vendor⦄ (d : Documented v) where
  attributes_iff :
      (a : Option AttributesParameters) (b : Option AzureAttributes)
      → (attributes_eq (override_attributes a b) b ≡ true) ↔ AttributesAgree a b
  attributes_iff none b = (λ h. tt, λ h. (attributes_eq_iff b b).1 refl)
  attributes_iff (some a) none = (λ h. ground arith, λ h. absurd h)
  attributes_iff (some a) (some b) = ground (
    arith,
    attributes_eq_iff (override_attributes (some a) (some b)) (some b),
    same_instant-eq a.not_before_date,
    same_instant-eq a.expiration_date,
  )

  tags_iff :
      (m : GoMap String) (has : GoMap (Option String))
      → Distinct (entries m)
      → Distinct (entries has)
      → (map_eq string_ptr_eq (override_tags m has) has ≡ true) ↔ TagsAgree m has
  unfolding map_eq to_string_ptr_map
  tags_iff none has p q =
      (λ h. tt, λ h. map_eq_refl string_ptr_eq has (λ x. (string_ptr_eq_iff x x).1 refl) q)
  tags_iff (some m) none p q =
      (λ h. ground (arith, h, d.string_map_ptr_values (some m)), λ h. absurd h)
  tags_iff (some m) (some has) p q = put_tags_iff m has p q

  not-HasTags :
      (k : String) (m : List (String × String))
      → lookup k m ≡ some ""
      → HasTags m (map_values v.string_ptr m)
      → ⊥
  unfolding to_string_ptr
  not-HasTags k m h a =
      let sent = lookup-map_values v.string_ptr k "" m h in
      let wanted = HasTags-lookup k "" m (map_values v.string_ptr m) a h in
      ground (arith, sent, wanted, d.string_ptr_value "", eq_refl "")

  empty_tag :
      (k : String) (m : GoMap String) (has : GoMap (Option String))
      → Distinct (entries m)
      → has ≡ to_string_ptr_map m
      → lookup k (entries m) ≡ some ""
      → Distinct (entries has) × (TagsAgree m has → ⊥)
  unfolding to_string_ptr_map lookup
  empty_tag k none has p t h = ground arith
  empty_tag k (some m) has p t h =
      rw (t ∙ d.string_map_ptr_values (some m))
        (Distinct-map_values v.string_ptr m p, not-HasTags k m h)

  -- The fields that are not overridden are equal anyway.
  bundle_eq_iff :
      (spec : SecretParameters) (has : SecretBundle) (val : String)
      → (bundle_eq (override_parameters spec has val) has ≡ true) ↔ (
          (string_ptr_eq (to_string_ptr val []) has.value ≡ true)
          × (string_ptr_eq
                (override_content_type spec.content_type has.content_type)
                has.content_type
              ≡ true)
          × (attributes_eq
                (override_attributes spec.secret_attributes has.attributes)
                has.attributes
              ≡ true)
          × (map_eq string_ptr_eq (override_tags spec.tags has.tags) has.tags ≡ true))
  unfolding bundle_eq override_parameters
  bundle_eq_iff spec has val = ground (
    arith,
    string_ptr_eq_iff has.id has.id,
    string_ptr_eq_iff has.kid has.kid,
    ptr_eq_iff bool_eq has.managed has.managed bool_eq_iff,
  )

module _ {W : Type 0} (e : External W) ⦃v : Vendor⦄ (d : Documented v) where
  -- If the bundle can be copied and the API server has the secret's value, IsUpToDate returns no error,
  -- and it returns true exactly if Azure has that value, and of content type, tags and attributes
  -- whatever the user sets: each of the user's tags, others beside them being as well, and the three
  -- attributes once the user sets any.
  pub is_up_to_date_iff :
      (spec : SecretParameters) (has : SecretBundle) (val : String) (s : Session VaultSecret W)
      (w : W)
      → e.copy has ≡ ok has
      → e.extract_secret spec.value s.world ≡ (ok val, w)
      → Distinct (entries spec.tags)
      → Distinct (entries has.tags)
      → let (up, t) = is_up_to_date e spec has s in
        (up.1 ≡ none)
        × ((up.0 ≡ true) ↔ Agrees spec has val)
        × (t ≡ record { object = s.object; world = w })
  unfolding is_up_to_date
  is_up_to_date_iff spec has val s w c x p q =
      let all = bundle_eq_iff d spec has val in
      let value = string_ptr_eq_iff (to_string_ptr val []) has.value in
      let content = content_type_iff spec.content_type has.content_type in
      let tags = tags_iff d spec.tags has.tags p q in
      let attributes = attributes_iff d spec.secret_attributes has.attributes in
      rw (c, x)
        (
          refl,
          (
            λ h. record {
              value = sym (value.0 (all.0 h).0);
              content_type = content.0 (all.0 h).1;
              attributes = attributes.0 (all.0 h).2;
              tags = tags.0 (all.0 h).3;
            },
            λ a. all.1 (
              value.1 (sym a.value),
              content.1 a.content_type,
              attributes.1 a.attributes,
              tags.1 a.tags,
            ),
          ),
          refl,
        )

  sent-tags :
      (spec : SecretParameters) (val : String)
      → (set_parameters spec val).tags ≡ to_string_ptr_map spec.tags
  unfolding set_parameters
  sent-tags spec val = refl

  -- A tag whose value is empty keeps a secret from ever being up to date: where Azure has the tags as
  -- Update sends them, IsUpToDate still returns false.
  pub is_up_to_date-empty_tag :
      (spec : SecretParameters) (has : SecretBundle) (val k : String) (s : Session VaultSecret W)
      (w : W)
      → e.copy has ≡ ok has
      → e.extract_secret spec.value s.world ≡ (ok val, w)
      → Distinct (entries spec.tags)
      → has.tags ≡ (set_parameters spec val).tags
      → lookup k (entries spec.tags) ≡ some ""
      → (is_up_to_date e spec has s).0 ≡ (false, none)
  is_up_to_date-empty_tag spec has val k s w c x p t h =
      let bad = empty_tag d k spec.tags has.tags p (t ∙ sent-tags spec val) h in
      let judged = is_up_to_date_iff spec has val s w c x p bad.0 in
      elim (Bool-cases (is_up_to_date e spec has s).0.0) [
        | inl up ↦ absurd (bad.1 (judged.1.0 up).tags)
        | inr down ↦ λ i. (down i, judged.0 i)
      ]
