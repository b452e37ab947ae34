-- ===== src/Network/PublicIp/InSync.antt =====
-- A public IP address that Azure has as it was sent is up to date after late initialisation.
use provider_azure.Prelude.{
  String, ◌≡◌, refl, ap, ◌∙◌, sym, true, ◌⊎◌, inl, inr, Option, none, some, List, [], ◌∷◌, arith,
  eq_iff, eq_refl, ◌==◌, nat_eq, ℕ,
}
use provider_azure.Go.Maps.{GoMap, Slice, entries, map_eq, Distinct}
use provider_azure.Go.Maps.Laws.{map_eq_refl, Distinct-map_values}
use provider_azure.Go.Errors.{ok}
use provider_azure.Go.Effect.{Session}
use provider_azure.Managed.{no_observation}
use provider_azure.Network.PublicIp.Controller.{External, observe_public_ip_address}
use provider_azure.Vendor.{Vendor, Documented, available}
use provider_azure.Vendor.Standard.{Documented-standard}
use provider_azure.Azure.Convert.{to_string, to_int, to_string_map, to_string_ptr_map}
use provider_azure.Azure.Convert.RoundTrip.{
  to_string_map-to_string_ptr_map, to_string-none, to_string-some,
}
use provider_azure.Azure.LateInit.{
  late_initialize_string_map, late_initialize_string_ptr_from_ptr,
  late_initialize_int32_ptr_from_int32_ptr,
}
use provider_azure.Network.Tags.{IpTag, is_ip_tags_up_to_date}
use provider_azure.Network.Tags.Multiset.{count, is_ip_tags_up_to_date_iff}
use provider_azure.Network.PublicIp.{
  DnsSettings, Sku, PublicIpAddress, AzureDnsSettings, SubResource, AzureAddressParameters,
  AzureAddress,
}
use provider_azure.Network.PublicIp.Params.{
  new_public_ip_address_parameters, generate_public_ip_address_observation,
  late_initialize_public_ip_address, is_public_ip_address_up_to_date, prefix_id, new_ip_tags,
  late_initialize_ip_tags, late_initialize_address_sku, new_public_ip_address_sku,
  is_sku_up_to_date, late_initialize_prefix, new_public_ip_prefix_ref, is_ip_prefix_id_up_to_date,
  new_dns_settings, late_initialize_dns_settings, is_dns_settings_up_to_date, equal_or_empty,
  azure_dns_or_empty,
}

-- What was sent is kept; what was left nil may be anything.
abbrev pub Kept : {A : Type 0} → Option A → Option A → Type 0
Kept p q = (p ≡ none) ⊎ (p ≡ q)

abbrev pub label : Option AzureDnsSettings → Option String
label d = (azure_dns_or_empty d).domain_name_label

abbrev pub reverse : Option AzureDnsSettings → Option String
reverse d = (azure_dns_or_empty d).reverse_fqdn

-- Azure has kept what was sent, the IP tags in any order.
pub record IsKept (sent has : AzureAddressParameters) : Type 0 where
  pub sku : Kept sent.sku has.sku
  pub label : Kept (label sent.dns_settings) (label has.dns_settings)
  pub reverse : Kept (reverse sent.dns_settings) (reverse has.dns_settings)
  pub prefix : Kept (prefix_id sent.public_ip_prefix) (prefix_id has.public_ip_prefix)
  pub idle_timeout : Kept sent.idle_timeout_in_minutes has.idle_timeout_in_minutes
  pub ip_tags :
      (sent.ip_tags ≡ none)
      ⊎ ((x : IpTag) → count x (entries sent.ip_tags) ≡ count x (entries has.ip_tags))
  pub tags : Kept sent.tags has.tags

module _ ⦃v : Vendor⦄ (d : Documented v) where
  sku_kept :
      (p q : Option Sku)
      → Kept (new_public_ip_address_sku p) q
      → is_sku_up_to_date (late_initialize_address_sku p q) q ≡ true
  sku_kept none none h = ground arith
  sku_kept none (some q) h = ground (arith, eq_refl q.name)
  sku_kept (some p) q h = ground (arith, eq_refl p.name)

  prefix_kept :
      (p : Option String) (q : Option SubResource)
      → Kept (prefix_id (new_public_ip_prefix_ref p)) (prefix_id q)
      → is_ip_prefix_id_up_to_date (late_initialize_prefix p q) q ≡ true
  prefix_kept none none h = eq_refl _
  prefix_kept none (some q) h = eq_refl _
  prefix_kept (some p) q h = ground (arith, eq_refl (to_string (some p)))

  timeout_kept :
      (p q : Option ℕ)
      → Kept p q
      → nat_eq (to_int (late_initialize_int32_ptr_from_int32_ptr p q)) (to_int q) ≡ true
  unfolding late_initialize_int32_ptr_from_int32_ptr
  timeout_kept none none h = ground arith
  timeout_kept none (some q) h = rw (Documented-standard d) (ground arith)
  timeout_kept (some p) q h = ground arith

  ip_tags_kept :
      (p : Slice IpTag) (q : Option (List IpTag))
      → (new_ip_tags p ≡ none)
        ⊎ ((x : IpTag) → count x (entries (new_ip_tags p)) ≡ count x (entries q))
      → is_ip_tags_up_to_date (late_initialize_ip_tags p q) q ≡ true
  ip_tags_kept none none h = (is_ip_tags_up_to_date_iff none none).1 (λ x. refl)
  ip_tags_kept none (some []) h = (is_ip_tags_up_to_date_iff none (some [])).1 (λ x. refl)
  ip_tags_kept none (some (y ∷ q)) h =
      (is_ip_tags_up_to_date_iff (some (y ∷ q)) (some (y ∷ q))).1 (λ x. refl)
  ip_tags_kept (some []) none h = (is_ip_tags_up_to_date_iff (some []) none).1 (λ x. refl)
  ip_tags_kept (some []) (some []) h = (is_ip_tags_up_to_date_iff (some []) (some [])).1 (λ x. refl)
  ip_tags_kept (some []) (some (y ∷ q)) h =
      (is_ip_tags_up_to_date_iff (some (y ∷ q)) (some (y ∷ q))).1 (λ x. refl)
  ip_tags_kept (some (x ∷ p)) q (inl h) = ground arith
  ip_tags_kept (some (x ∷ p)) q (inr h) = (is_ip_tags_up_to_date_iff (some (x ∷ p)) q).1 h

  tags_late :
      (p : GoMap String) (q : GoMap (Option String))
      → Kept (to_string_ptr_map p) q
      → late_initialize_string_map p q ≡ to_string_map q
  unfolding late_initialize_string_map to_string_map to_string_ptr_map
  tags_late none none h = refl
  tags_late none (some q) h = refl
  tags_late (some p) q (inl h) =
      let e = sym (d.string_map_ptr_values (some p)) ∙ h in ground (arith, e)
  tags_late (some p) q (inr h) =
      sym (to_string_map-to_string_ptr_map d (some p)) ∙ ap to_string_map h

  Distinct-to_string_map :
      (q : GoMap (Option String)) → Distinct (entries q) → Distinct (entries (to_string_map q))
  unfolding to_string_map
  Distinct-to_string_map none h = tt
  Distinct-to_string_map (some q) h =
      rw (d.string_map_values (some q)) (Distinct-map_values v.string q h)

  equal_refl : (m : GoMap String) → Distinct (entries m) → equal_or_empty m m ≡ true
  unfolding map_eq
  equal_refl none h = refl
  equal_refl (some m) h = map_eq_refl ◌==◌ (some m) eq_refl h

  tags_kept :
      (p : GoMap String) (q : GoMap (Option String))
      → Kept (to_string_ptr_map p) q
      → Distinct (entries q)
      → equal_or_empty (late_initialize_string_map p q) (to_string_map q) ≡ true
  tags_kept p q k h =
      rw (tags_late p q k) (equal_refl (to_string_map q) (Distinct-to_string_map q h))

  reverse_kept :
      (p q : Option String)
      → Kept p q
      → to_string (late_initialize_string_ptr_from_ptr p q) ≡ to_string q
  unfolding late_initialize_string_ptr_from_ptr
  reverse_kept none q h = refl
  reverse_kept (some p) q (inr h) = ap to_string h
  reverse_kept (some p) q (inl h) = ground arith

  dns_kept :
      (p : Option DnsSettings) (q : Option AzureDnsSettings)
      → Kept (label (new_dns_settings p)) (label q)
      → Kept (reverse (new_dns_settings p)) (reverse q)
      → is_dns_settings_up_to_date (late_initialize_dns_settings p q) q ≡ true
  unfolding late_initialize_string_ptr_from_ptr
  dns_kept none none h r =
      ground (arith, eq_iff "" (to_string none), to_string-none d, eq_refl (to_string none))
  dns_kept none (some q) h r =
      ground (arith, eq_refl (to_string q.domain_name_label), eq_refl (to_string q.reverse_fqdn))
  dns_kept (some p) none h r = ground arith
  dns_kept (some p) (some q) (inl h) r = ground arith
  dns_kept (some p) (some q) (inr h) r =
      let same = sym (to_string-some d p.domain_name_label) ∙ ap to_string h in
      let back = reverse_kept p.reverse_fqdn q.reverse_fqdn r in
      ground (
        arith,
        same,
        back,
        eq_refl (to_string q.domain_name_label),
        eq_iff p.domain_name_label (to_string q.domain_name_label),
        eq_iff (to_string (late_initialize_string_ptr_from_ptr p.reverse_fqdn q.reverse_fqdn))
            (to_string q.reverse_fqdn),
      )

  pub is_public_ip_address_up_to_date-late_initialize_public_ip_address :
      (s : PublicIpAddress) (az : AzureAddress)
      → IsKept (new_public_ip_address_parameters s) az.parameters
      → Distinct (entries az.parameters.tags)
      → is_public_ip_address_up_to_date (late_initialize_public_ip_address s.for_provider az) az
        ≡ true
  unfolding is_public_ip_address_up_to_date late_initialize_public_ip_address
      new_public_ip_address_parameters
  is_public_ip_address_up_to_date-late_initialize_public_ip_address s az k h =
      let p = s.for_provider in
      let q = az.parameters in
      let tags = tags_kept p.tags q.tags k.tags h in
      let prefix = prefix_kept p.public_ip_prefix_id q.public_ip_prefix k.prefix in
      let timeout =
        timeout_kept p.tcp_idle_timeout_in_minutes q.idle_timeout_in_minutes k.idle_timeout in
      let ip = ip_tags_kept p.ip_tags q.ip_tags k.ip_tags in
      let sku = sku_kept p.sku q.sku k.sku in
      let dns = dns_kept p.dns_settings q.dns_settings k.label k.reverse in cc

module _ {W : Type 0} (e : External W) ⦃v : Vendor⦄ (d : Documented v) where
  -- Suppose that Azure has kept what NewPublicIPAddressParameters sends, the IP tags in any order,
  -- and has put anything in place of what was nil; that its tags have distinct keys; and that the
  -- API server stores the object that Observe has late-initialised. Then Observe finds the public IP
  -- address up to date, returns no error, and leaves the late-initialised object with what Azure
  -- answered in its status.
  pub observe_public_ip_address-IsKept :
      (s : Session PublicIpAddress W) (az : AzureAddress) (w w' : W)
      → e.get s.object.for_provider.resource_group_name s.object.external_name s.world ≡ (ok az, w)
      → e.update_object
          (record s.object {
            for_provider = late_initialize_public_ip_address s.object.for_provider az;
          })
          w
        ≡ (
          ok (record s.object {
            for_provider = late_initialize_public_ip_address s.object.for_provider az;
          }),
          w',
        )
      → IsKept (new_public_ip_address_parameters s.object) az.parameters
      → Distinct (entries az.parameters.tags)
      → observe_public_ip_address e s ≡ (
        (record no_observation { resource_exists = true; resource_up_to_date = true }, none),
        record {
          object = record s.object {
            for_provider = late_initialize_public_ip_address s.object.for_provider az;
            at_provider = generate_public_ip_address_observation az;
            conditions = v.set_condition available s.object.conditions;
          };
          world = w';
        },
      )
  unfolding observe_public_ip_address
  observe_public_ip_address-IsKept s az w w' g u k h =
      let ready =
        is_public_ip_address_up_to_date-late_initialize_public_ip_address d s.object az k h in
      rw (g, u, ready) refl
