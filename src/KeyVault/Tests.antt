-- ===== src/KeyVault/Tests.antt =====
-- A key vault secret over a concrete vault: the world counts the calls.
use provider_azure.Prelude.{
  ℕ, ◌+◌, ◌≡◌, refl, ◌≢◌, ◌↔◌, String, arith, eq_iff, true, false, Option, none, some, List, [],
  ◌∷◌,
}
use provider_azure.Go.Errors.{ok}
use provider_azure.Go.Maps.{lookup, entries}
use provider_azure.Go.Effect.{Session}
use provider_azure.Vendor.Standard.{standard, standard-Documented}
use provider_azure.KeyVault.{SecretParameters, VaultSecret, SecretBundle}
use provider_azure.KeyVault.Params.{set_parameters}
use provider_azure.KeyVault.Controller.{External, is_up_to_date}
use provider_azure.KeyVault.InSync.{Agrees, is_up_to_date_iff, is_up_to_date-empty_tag}

abbrev spec_with : List (String × String) → SecretParameters
spec_with tags = record {
  vault_base_url = "https://vault";
  name = "password";
  value = record { name = "source"; namespace = "default"; key = "password" };
  content_type = none;
  secret_attributes = none;
  tags = some tags;
}

abbrev bundle_with : List (String × Option String) → SecretBundle
bundle_with tags = record {
  id = some "https://vault/secrets/password/1";
  value = some "secret";
  content_type = some "text/plain";
  attributes = some (record {
    recovery_level = "Purgeable";
    enabled = some true;
    not_before = none;
    expires = some 100;
    created = some 1;
    updated = some 2;
  });
  tags = some tags;
  kid = none;
  managed = none;
}

abbrev vault_with : SecretBundle → External ℕ
vault_with bundle = record {
  get_secret = λ u n w. (ok bundle, w + 1);
  set_secret = λ u n p w. (none, w + 1);
  delete_secret = λ u n w. (none, w + 1);
  extract_secret = λ ref w. (ok "secret", w + 1);
  copy = λ b. ok b;
}

abbrev cr_with : SecretParameters → VaultSecret
cr_with spec = record {
  for_provider = spec;
  at_provider = record { id = ""; attributes = none; kid = none; managed = none };
  conditions = record { ready = none; synced = none };
}

-- Azure has one tag more than the user.
abbrev spec : SecretParameters
spec = spec_with (("team", "a") ∷ [])

abbrev bundle : SecretBundle
bundle = bundle_with (("team", some "a") ∷ ("cost", some "1") ∷ [])

cost-ne-team : ◌≢◌ {A = String} "cost" "team"
cost-ne-team = ground (arith, eq_iff "cost" "team")

is_up_to_date_iff_example :
    let s : Session VaultSecret ℕ = record { object = cr_with spec; world = 0 } in
    let (up, t) = is_up_to_date (vault_with bundle) ⦃v = standard⦄ spec bundle s in
    (up.1 ≡ none)
    × ((up.0 ≡ true) ↔ Agrees ⦃v = standard⦄ spec bundle "secret")
    × (t ≡ record { object = s.object; world = 1 })
is_up_to_date_iff_example =
    is_up_to_date_iff (vault_with bundle) ⦃v = standard⦄ standard-Documented spec bundle "secret"
      (record { object = cr_with spec; world = 0 }) 1 refl refl (tt, tt)
      ((cost-ne-team, tt), (tt, tt))

abbrev empty_spec : SecretParameters
empty_spec = spec_with (("team", "") ∷ [])

abbrev empty_bundle : SecretBundle
empty_bundle = bundle_with (("team", some "") ∷ [])

sent : empty_bundle.tags ≡ (set_parameters ⦃v = standard⦄ empty_spec "secret").tags
unfolding set_parameters
sent = refl

found : lookup "team" (entries empty_spec.tags) ≡ some ""
unfolding lookup
found = refl

is_up_to_date-empty_tag_example :
    (is_up_to_date
      (vault_with empty_bundle)
      ⦃v = standard⦄
      empty_spec
      empty_bundle
      (record { object = cr_with empty_spec; world = 0 })).0
    ≡ (false, none)
is_up_to_date-empty_tag_example =
    is_up_to_date-empty_tag (vault_with empty_bundle) ⦃v = standard⦄ standard-Documented empty_spec
      empty_bundle "secret" "team" (record { object = cr_with empty_spec; world = 0 }) 1 refl refl
      (tt, tt) sent found
