-- ===== src/Sql/Postgresql/InSync.antt =====
-- When a PostgreSQL server is up to date, and that an update brings it there.
use mathlib.Core.Option.{some-injective}
use provider_azure.Prelude.{
  ℕ, ◌≡◌, refl, sym, ap, ◌∙◌, ◌⊎◌, inl, ◌↔◌, true, String, [], Option, none, some, arith, eq_iff,
  nat_eq, ◌==◌, ptr_eq, ptr_eq_iff, nat_eq_iff,
}
use provider_azure.Go.Num.{FitsInt32}
use provider_azure.Go.Errors.{ok}
use provider_azure.Go.Maps.{GoMap, map_eq, entries, Distinct}
use provider_azure.Vendor.{Vendor, Documented}
use provider_azure.Vendor.Standard.{Documented-standard}
use provider_azure.Azure.Convert.{
  to_string, to_int, to_int32_ptr, to_int32_ptr_from_int_ptr, to_string_ptr_map, to_string_ptr,
}
use provider_azure.Azure.Convert.RoundTrip.{
  to_string_ptr_map_refl, to_string-to_string_ptr, to_int-to_int32_ptr,
}
use provider_azure.Azure.LateInit.{
  late_initialize_string_ptr_from_ptr, late_initialize_string_ptr_from_val,
  late_initialize_string_map, late_initialize_int_ptr_from_int32_ptr,
}
use provider_azure.Sql.Types.{
  sku_short_tiers, SqlServerParameters, Sku, StorageProfile, AzureSku, AzureStorageProfile,
}
use provider_azure.Sql.Postgresql.Params.{
  Server, ServerUpdateParameters, to_postgresql_sku, server_update_parameters,
  late_initialize_postgresql, is_postgresql_up_to_date, late_initialize_sku,
  late_initialize_storage_profile, late_initialize_public_network_access, if_empty, no_difference,
  up_to_date_with, sku_of_tier, storage_profile_of,
}

module _ ⦃v : Vendor⦄ where
  -- That a server has what the user asks for, field by field.
  pub record Agrees (p : SqlServerParameters) (server : Server) (profile : AzureStorageProfile)
      (sku : AzureSku) : Type 0 where
    pub has_profile : server.storage_profile ≡ some profile
    pub has_sku : server.sku ≡ some sku
    pub tls :
        (p.minimal_tls_version ≡ server.minimal_tls_version) ⊎ (p.ssl_enforcement ≡ "Disabled")
    pub ssl : p.ssl_enforcement ≡ server.ssl_enforcement
    pub version : p.version ≡ server.version
    pub tags : map_eq (ptr_eq ◌==◌) (to_string_ptr_map p.tags) server.tags ≡ true
    pub tier : p.sku.tier ≡ sku.tier
    pub capacity : p.sku.capacity ≡ to_int sku.capacity
    pub family : p.sku.family ≡ to_string sku.family
    pub retention :
        to_int32_ptr_from_int_ptr p.storage_profile.backup_retention_days
        ≡ profile.backup_retention_days
    pub backup : to_string p.storage_profile.geo_redundant_backup ≡ profile.geo_redundant_backup
    pub storage : p.storage_profile.storage_mb ≡ to_int profile.storage_mb
    pub autogrow : to_string p.storage_profile.storage_autogrow ≡ profile.storage_autogrow
    pub access : to_string p.public_network_access ≡ server.public_network_access

  late_initialize_sku_idem :
      (d : Documented v) (k : Sku) (az : Option AzureSku)
      → late_initialize_sku (late_initialize_sku k az) az ≡ late_initialize_sku k az
  unfolding late_initialize_string_ptr_from_ptr
  late_initialize_sku_idem d k none = refl
  late_initialize_sku_idem d k (some az) = ground arith

  late_initialize_tags_idem :
      (d : Documented v) (m : GoMap String) (az : GoMap (Option String))
      → late_initialize_string_map (late_initialize_string_map m az) az
        ≡ late_initialize_string_map m az
  unfolding late_initialize_string_map
  late_initialize_tags_idem d m az = rw (Documented-standard d) (ground arith)

  late_initialize_profile_idem :
      (d : Documented v) (p : StorageProfile) (az : Option AzureStorageProfile)
      → late_initialize_storage_profile (late_initialize_storage_profile p az) az
        ≡ late_initialize_storage_profile p az
  unfolding late_initialize_string_ptr_from_val late_initialize_int_ptr_from_int32_ptr
  late_initialize_profile_idem d p none = refl
  late_initialize_profile_idem d p (some az) = rw (Documented-standard d) (ground arith)

  late_initialize_access_idem :
      (d : Documented v) (p : Option String) (az : String)
      → late_initialize_public_network_access (late_initialize_public_network_access p az) az
        ≡ late_initialize_public_network_access p az
  unfolding to_string_ptr
  late_initialize_access_idem d p az = rw (Documented-standard d) (ground arith)

  if_empty_idem : (s from : String) → if_empty (if_empty s from) from ≡ if_empty s from
  if_empty_idem s from = ground arith

  -- A second late initialisation from the same server changes nothing.
  pub late_initialize_postgresql_idem :
      (d : Documented v) (p : SqlServerParameters) (server : Server)
      → late_initialize_postgresql (late_initialize_postgresql p server) server
        ≡ late_initialize_postgresql p server
  unfolding late_initialize_postgresql
  late_initialize_postgresql_idem d p server = λ i. record (late_initialize_postgresql p server) {
    sku = late_initialize_sku_idem d p.sku server.sku i;
    tags = late_initialize_tags_idem d p.tags server.tags i;
    storage_profile = late_initialize_profile_idem d p.storage_profile server.storage_profile i;
    minimal_tls_version = if_empty_idem p.minimal_tls_version server.minimal_tls_version i;
    ssl_enforcement = if_empty_idem p.ssl_enforcement server.ssl_enforcement i;
    public_network_access =
        late_initialize_access_idem d p.public_network_access server.public_network_access i;
  }

  no_difference_iff :
      (p : SqlServerParameters) (server : Server) (profile : AzureStorageProfile) (sku : AzureSku)
      → server.storage_profile ≡ some profile
      → server.sku ≡ some sku
      → (no_difference p server profile sku ≡ true) ↔ Agrees p server profile sku
  no_difference_iff p server profile sku a b = ground (
    arith,
    eq_iff p.minimal_tls_version server.minimal_tls_version,
    eq_iff p.ssl_enforcement "Disabled",
    eq_iff p.ssl_enforcement server.ssl_enforcement,
    eq_iff p.version server.version,
    eq_iff p.sku.tier sku.tier,
    eq_iff p.sku.family (to_string sku.family),
    ptr_eq_iff nat_eq (to_int32_ptr_from_int_ptr p.storage_profile.backup_retention_days)
        profile.backup_retention_days nat_eq_iff,
    eq_iff (to_string p.storage_profile.geo_redundant_backup) profile.geo_redundant_backup,
    eq_iff (to_string p.storage_profile.storage_autogrow) profile.storage_autogrow,
    eq_iff (to_string p.public_network_access) server.public_network_access,
  )

  up_to_date_with_iff :
      (p : SqlServerParameters) (server : Server) (profile : Option AzureStorageProfile)
      (sku : Option AzureSku)
      → server.storage_profile ≡ profile
      → server.sku ≡ sku
      → (up_to_date_with p server profile sku ≡ true)
        ↔ ((f : AzureStorageProfile) × (k : AzureSku) × Agrees p server f k)
  up_to_date_with_iff p server none sku a b = ((λ h. cc), λ h. cc (a, h.2.has_profile))
  up_to_date_with_iff p server (some f) none a b = ((λ h. cc), λ h. cc (b, h.2.has_sku))
  up_to_date_with_iff p server (some f) (some k) a b = (
    (λ h. (f, k, (no_difference_iff p server f k a b).0 h)),
    λ h.
        let same_profile : f ≡ h.0 = some-injective f h.0 (sym a ∙ h.2.has_profile) in
        let same_sku : k ≡ h.1 = some-injective k h.1 (sym b ∙ h.2.has_sku) in
        rw (same_profile, same_sku)
          ((no_difference_iff p server h.0 h.1 h.2.has_profile h.2.has_sku).1 h.2),
  )

  -- A server is up to date exactly if it has a storage profile and a SKU and agrees with the user's
  -- parameters field by field.
  pub is_postgresql_up_to_date_iff :
      (p : SqlServerParameters) (server : Server)
      → (is_postgresql_up_to_date p server ≡ true)
        ↔ ((profile : AzureStorageProfile) × (sku : AzureSku) × Agrees p server profile sku)
  unfolding is_postgresql_up_to_date
  is_postgresql_up_to_date_iff p server =
      up_to_date_with_iff p server server.storage_profile server.sku refl refl

  -- That a server has taken over what an update sent.
  pub record Reflects (u : ServerUpdateParameters) (server : Server) : Type 0 where
    pub sku : server.sku ≡ some u.sku
    pub profile : server.storage_profile ≡ some u.storage_profile
    pub version : server.version ≡ u.version
    pub tls : server.minimal_tls_version ≡ u.minimal_tls_version
    pub ssl : server.ssl_enforcement ≡ u.ssl_enforcement
    pub access : server.public_network_access ≡ u.public_network_access
    pub tags : server.tags ≡ u.tags

module _ ⦃v : Vendor⦄ (d : Documented v) where
  sku_fields :
      (t : Option String) (k : Sku) (sku : AzureSku)
      → sku_of_tier t k ≡ ok sku
      → (sku.tier ≡ k.tier)
        × (sku.capacity ≡ to_int32_ptr k.capacity [])
        × (sku.family ≡ to_string_ptr k.family [])
  sku_fields none k sku h = cc
  sku_fields (some t) k sku h = ground arith

  fits : (i : ℕ) → FitsInt32 i → to_int (to_int32_ptr i []) ≡ i
  fits i h = (to_int-to_int32_ptr d i [] (omega arith)).1 h

  -- A server that has taken over what UpdateServer sends is up to date, if the numbers fit into
  -- the 32 bits that Azure takes.
  pub is_postgresql_up_to_date-server_update_parameters :
      (p : SqlServerParameters) (sku : AzureSku) (server : Server)
      → to_postgresql_sku p.sku ≡ ok sku
      → Distinct (entries p.tags)
      → FitsInt32 p.sku.capacity
      → FitsInt32 p.storage_profile.storage_mb
      → Reflects (server_update_parameters p sku) server
      → is_postgresql_up_to_date p server ≡ true
  unfolding to_postgresql_sku server_update_parameters
  is_postgresql_up_to_date-server_update_parameters p sku server k u c m r =
      let (tier, capacity, family) = sku_fields (sku_short_tiers p.sku.tier) p.sku sku k in
      (is_postgresql_up_to_date_iff p server).1 (
        storage_profile_of p.storage_profile,
        sku,
        record {
          has_profile = r.profile;
          has_sku = r.sku;
          tls = inl (sym r.tls);
          ssl = sym r.ssl;
          version = sym r.version;
          tags = rw r.tags (to_string_ptr_map_refl d p.tags u);
          tier = sym tier;
          capacity = sym (ap to_int capacity ∙ fits p.sku.capacity c);
          family = sym (ap to_string family ∙ to_string-to_string_ptr d p.sku.family []);
          retention = refl;
          backup = refl;
          storage = sym (fits p.storage_profile.storage_mb m);
          autogrow = refl;
          access = sym r.access;
        },
      )
