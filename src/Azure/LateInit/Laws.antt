-- ===== src/Azure/LateInit/Laws.antt =====
-- Late initialisation keeps what the user wrote, and a second pass changes nothing.
use provider_azure.Prelude.{◌≡◌, refl, ◌≢◌, Option, none, some, arith}
use provider_azure.Vendor.{Vendor, Documented}
use provider_azure.Vendor.Standard.{Documented-standard}
use provider_azure.Azure.LateInit.{
  late_initialize_string_ptr_from_ptr, late_initialize_bool_ptr_from_ptr,
  late_initialize_string_map, late_initialize_int_ptr_from_int32_ptr,
  late_initialize_int32_ptr_from_int32_ptr, late_initialize_string_val_arr_from_arr_ptr,
}

-- What a late initialiser `f` is to do: a value that is set stays; a value that is not set takes what
-- Azure reports, if it reports any; and a later report cannot change a value that an earlier one
-- set.
pub record IsLateInitializer {A B : Type 0} (f : Option A → Option B → Option A) : Type 0 where
  pub keeps : (a : A) (from : Option B) → f (some a) from ≡ some a
  pub unset : f none none ≡ none
  pub fills : (b : B) → f none (some b) ≢ none
  pub settled : (p : Option A) (b : B) (from : Option B) → f (f p (some b)) from ≡ f p (some b)

module _ ⦃v : Vendor⦄ (d : Documented v) where
  string_map-IsLateInitializer : IsLateInitializer late_initialize_string_map
  unfolding late_initialize_string_map
  string_map-IsLateInitializer = rw (Documented-standard d) (record {
    keeps = λ a from. refl;
    unset = refl;
    fills = λ b. ground arith;
    settled = λ p b from. ground arith;
  })

  int-IsLateInitializer : IsLateInitializer late_initialize_int_ptr_from_int32_ptr
  unfolding late_initialize_int_ptr_from_int32_ptr
  int-IsLateInitializer = rw (Documented-standard d) (record {
    keeps = λ a from. refl;
    unset = refl;
    fills = λ b. ground arith;
    settled = λ p b from. ground arith;
  })

  int32-IsLateInitializer : IsLateInitializer late_initialize_int32_ptr_from_int32_ptr
  unfolding late_initialize_int32_ptr_from_int32_ptr
  int32-IsLateInitializer = rw (Documented-standard d) (record {
    keeps = λ a from. refl;
    unset = refl;
    fills = λ b. ground arith;
    settled = λ p b from. ground arith;
  })

  slice-IsLateInitializer : IsLateInitializer late_initialize_string_val_arr_from_arr_ptr
  unfolding late_initialize_string_val_arr_from_arr_ptr
  slice-IsLateInitializer = rw (Documented-standard d) (record {
    keeps = λ a from. refl;
    unset = refl;
    fills = λ b. ground arith;
    settled = λ p b from. ground arith;
  })

  -- The late initialisers of string pointers, Boolean pointers, integers, maps and slices keep a
  -- value that is set, leave nil where Azure reports nothing, fill in what Azure reports, and are not
  -- changed by a later report.
  pub late_initialize_lem :
      IsLateInitializer late_initialize_string_ptr_from_ptr
      × IsLateInitializer late_initialize_bool_ptr_from_ptr
      × IsLateInitializer late_initialize_string_map
      × IsLateInitializer late_initialize_int_ptr_from_int32_ptr
      × IsLateInitializer late_initialize_int32_ptr_from_int32_ptr
      × IsLateInitializer late_initialize_string_val_arr_from_arr_ptr
  unfolding late_initialize_string_ptr_from_ptr late_initialize_bool_ptr_from_ptr
  late_initialize_lem = (
    record {
      keeps = λ a from. refl;
      unset = refl;
      fills = λ b. ground arith;
      settled = λ p b from. ground arith;
    },
    record {
      keeps = λ a from. refl;
      unset = refl;
      fills = λ b. ground arith;
      settled = λ p b from. ground arith;
    },
    string_map-IsLateInitializer,
    int-IsLateInitializer,
    int32-IsLateInitializer,
    slice-IsLateInitializer,
  )
