-- ===== src/KeyVault/Controller.antt =====
-- pkg/clients/keyvault/secret/keyvault_secret.go: IsUpToDate; and
-- pkg/controller/keyvault/secret/keyvault_secret.go: what the managed reconciler calls.
use provider_azure.Prelude.{
  String, Bool, true, ◌&&◌, not, Option, none, some, ◌==◌, bool_eq, ptr_eq,
}
use provider_azure.Go.Errors.{Err, message, Result, ok, err}
use provider_azure.Go.Maps.{map_eq}
use provider_azure.Go.Effect.{M, ◌>>=◌, ◌>>◌, pure, get_object, modify, call}
use provider_azure.Vendor.{Vendor, available}
use provider_azure.Azure.Convert.{is_not_found, is_not_found_error}
use provider_azure.Managed.{no_details, no_observation, Observed, Detailed, of_kind}
use provider_azure.KeyVault.{
  SecretKeySelector, SecretParameters, VaultSecret, SecretBundle, SetParameters,
  AttributesParameters,
}
use provider_azure.KeyVault.Params.{
  instant_eq, string_ptr_eq, bundle_eq, generate_observation, late_initialize, override_parameters,
  set_parameters,
}

-- `external`: the key vault, whose calls take the base URL of the vault and the name of the secret;
-- `resource.ExtractSecret`, which reads the API server; and `copystructure.Copy`, whose copy has the
-- type of the original.
pub record External (W : Type 0) : Type 0 where
  pub get_secret : String → String → W → Result SecretBundle × W
  pub set_secret : String → String → SetParameters → W → Option Err × W
  pub delete_secret : String → String → W → Option Err × W
  pub extract_secret : SecretKeySelector → W → Result String × W
  pub copy : SecretBundle → Result SecretBundle

abbrev pub err_not_secret : Err
err_not_secret = message "the custom resource is not a Secret instance"

abbrev pub attributes_parameters_eq :
    Option AttributesParameters → Option AttributesParameters → Bool
attributes_parameters_eq = ptr_eq λ a b.
    ptr_eq bool_eq a.enabled b.enabled
    && instant_eq a.not_before_date b.not_before_date
    && instant_eq a.expiration_date b.expiration_date

-- `cmp.Equal` on two specifications.
unfoldable pub parameters_eq : SecretParameters → SecretParameters → Bool
parameters_eq p q =
    p.vault_base_url == q.vault_base_url
    && p.name == q.name
    && p.value.name == q.value.name
    && p.value.namespace == q.value.namespace
    && p.value.key == q.value.key
    && string_ptr_eq p.content_type q.content_type
    && attributes_parameters_eq p.secret_attributes q.secret_attributes
    && map_eq ◌==◌ p.tags q.tags

module _ {W : Type 0} (e : External W) ⦃v : Vendor⦄ where
  -- `IsUpToDate`: whether the copy, with what the user sets in place of what it has, equals what was
  -- observed.
  abbrev pub compared :
      SecretParameters → SecretBundle → SecretBundle → Result String → Bool × Option Err
  compared spec observed clone (err x) = (true, some x)
  compared spec observed clone (ok val) =
      (bundle_eq (override_parameters spec clone val) observed, none)

  abbrev pub copied :
      SecretParameters → SecretBundle → Result SecretBundle → M VaultSecret W (Bool × Option Err)
  copied spec observed (err x) =
      pure (true, v.wrap (some x) "unable to determine if external resource is up to date")
  copied spec observed (ok clone) = do
    val ← call (e.extract_secret spec.value)
    pure (compared spec observed clone val)

  unfoldable pub is_up_to_date :
      SecretParameters → SecretBundle → M VaultSecret W (Bool × Option Err)
  is_up_to_date spec observed = copied spec observed (e.copy observed)

  abbrev pub judged : Bool → Bool × Option Err → M VaultSecret W Observed
  judged late (up, some x) = pure (
    no_observation,
    v.wrap (some x) "cannot determine if infrastructure vault secret is up-to-date",
  )
  judged late (up, none) = pure (
    record no_observation {
      resource_exists = true;
      resource_up_to_date = up;
      resource_late_initialized = late;
    },
    none,
  )

  abbrev pub taken_over : SecretBundle → VaultSecret → VaultSecret
  taken_over az cr = record cr {
    for_provider = late_initialize cr.for_provider az;
    at_provider = generate_observation az;
    conditions = v.set_condition available cr.conditions;
  }

  abbrev pub fetched : Result SecretBundle → M VaultSecret W Observed
  fetched (err x) = pure (
    no_observation,
    v.wrap (v.ignore is_not_found_error (some x)) "cannot get vault secret from Azure API",
  )
  fetched (ok az) = do
    before ← get_object
    modify (taken_over az)
    cr ← get_object
    up ← is_up_to_date cr.for_provider az
    judged (not (parameters_eq before.for_provider cr.for_provider)) up

  unfoldable pub observe_secret : M VaultSecret W Observed
  unfolding is_not_found is_up_to_date
  observe_secret = do
    cr ← get_object
    az ← call (e.get_secret cr.for_provider.vault_base_url cr.for_provider.name)
    fetched az

  -- Create and Update differ in their texts.
  abbrev put : String → Result String → M VaultSecret W Detailed
  put text (err x) = pure (no_details, some x)
  put text (ok val) = do
    cr ← get_object
    x ← call (
        e.set_secret cr.for_provider.vault_base_url cr.for_provider.name
          (set_parameters cr.for_provider val))
    pure (no_details, v.wrap x text)

  unfoldable pub create_secret : M VaultSecret W Detailed
  create_secret = do
    cr ← get_object
    val ← call (e.extract_secret cr.for_provider.value)
    put "cannot create the vault secret" val

  unfoldable pub update_secret : M VaultSecret W Detailed
  update_secret = do
    cr ← get_object
    val ← call (e.extract_secret cr.for_provider.value)
    put "cannot update the vault secret" val

  unfoldable pub delete_secret : M VaultSecret W (Option Err)
  unfolding is_not_found
  delete_secret = do
    cr ← get_object
    x ← call (e.delete_secret cr.for_provider.vault_base_url cr.for_provider.name)
    pure (v.wrap (v.ignore is_not_found_error x) "cannot delete the vault secret")

  unfoldable pub observe : M (Option VaultSecret) W Observed
  unfolding observe_secret
  observe = of_kind (no_observation, some err_not_secret) observe_secret

  unfoldable pub create : M (Option VaultSecret) W Detailed
  unfolding create_secret
  create = of_kind (no_details, some err_not_secret) create_secret

  unfoldable pub update : M (Option VaultSecret) W Detailed
  unfolding update_secret
  update = of_kind (no_details, some err_not_secret) update_secret

  unfoldable pub delete : M (Option VaultSecret) W (Option Err)
  unfolding delete_secret
  delete = of_kind (some err_not_secret) delete_secret
