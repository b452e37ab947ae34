-- ===== src/Azure/Convert/RoundTrip.antt =====
-- What the conversions of pkg/clients/azure.go keep.
use provider_azure.Go.Maps.{map_eq, entries, Distinct}
use provider_azure.Go.Maps.Laws.{map_eq_refl, Distinct-map_values}
use provider_azure.Prelude.{
  ptr_eq, ptr_eq_refl, eq_refl, ◌==◌, ℕ, ◌^◌, ◌<◌, String, ◌≡◌, refl, ap, ◌↔◌, Bool, true, none,
  some, List, [], ◌∷◌, arith, eq_iff,
}
use provider_azure.Go.Num.{FitsInt32}
use provider_azure.Go.Maps.{GoMap, map_values}
use provider_azure.Vendor.{Vendor, Documented}
use provider_azure.Vendor.Standard.{Documented-standard}
use provider_azure.Azure.Convert.{
  FieldOption, to_string_ptr, to_string, to_int32_ptr, to_int, to_string_ptr_map, to_string_map,
  to_bool_ptr, to_bool,
}

module _ ⦃v : Vendor⦄ (d : Documented v) where
  -- A string survives the conversion to a pointer and back, whatever the options are, the empty
  -- string included.
  pub to_string-to_string_ptr :
      (s : String) (o : List FieldOption) → to_string (to_string_ptr s o) ≡ s
  unfolding to_string to_string_ptr
  to_string-to_string_ptr s o = rw (Documented-standard d) (ground (arith, eq_iff s ""))

  pub to_string-none : to_string none ≡ ""
  unfolding to_string
  to_string-none = d.string_nil

  pub to_string-some : (s : String) → to_string (some s) ≡ s
  unfolding to_string
  to_string-some = d.string_value

  pub to_bool-to_bool_ptr : (b : Bool) (o : List FieldOption) → to_bool (to_bool_ptr b o) ≡ b
  unfolding to_bool to_bool_ptr
  to_bool-to_bool_ptr b o = rw (Documented-standard d) (ground arith)

  -- A 64-bit integer survives the conversion to a 32-bit pointer and back exactly when it is in the
  -- range of an int32.
  pub to_int-to_int32_ptr :
      (i : ℕ) (o : List FieldOption) → i < 2 ^ 64 → (to_int (to_int32_ptr i o) ≡ i) ↔ FitsInt32 i
  unfolding to_int to_int32_ptr
  to_int-to_int32_ptr i o h = rw (Documented-standard d) (ground arith)

pub map_values-map_values :
    {A B : Type 0} (f : A → B) (g : B → A)
    → ((a : A) → g (f a) ≡ a)
    → (m : List (String × A)) → map_values g (map_values f m) ≡ m
map_values-map_values f g h [] = refl
map_values-map_values f g h ((k, a) ∷ m) = cc (h a, map_values-map_values f g h m)

module _ ⦃v : Vendor⦄ (d : Documented v) where
  -- A map of strings, nil or not, survives the conversion to a map of pointers and back.
  pub to_string_map-to_string_ptr_map : (m : GoMap String) → to_string_map (to_string_ptr_map m) ≡ m
  unfolding to_string_map to_string_ptr_map
  to_string_map-to_string_ptr_map none = refl
  to_string_map-to_string_ptr_map (some m) =
      rw (Documented-standard d)
        (ap (λ (l : List (String × String)). some l) (map_values-map_values _ _ (λ s. refl) m))

module _ ⦃v : Vendor⦄ (d : Documented v) where
  pub to_string_ptr_map_refl :
      (m : GoMap String)
      → Distinct (entries m)
      → map_eq (ptr_eq ◌==◌) (to_string_ptr_map m) (to_string_ptr_map m) ≡ true
  unfolding to_string_ptr_map
  to_string_ptr_map_refl none h =
      map_eq_refl (ptr_eq ◌==◌) none (λ p. ptr_eq_refl ◌==◌ p eq_refl) tt
  to_string_ptr_map_refl (some m) h = rw (Documented-standard d) (
      map_eq_refl (ptr_eq ◌==◌) (some (map_values (λ s. some s) m))
        (λ p. ptr_eq_refl ◌==◌ p eq_refl) (Distinct-map_values (λ s. some s) m h))
