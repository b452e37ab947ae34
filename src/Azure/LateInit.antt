-- ===== src/Azure/LateInit.antt =====
-- pkg/clients/azure.go: late initialisation, by which a field that the user left nil takes the value
-- that Azure reports.
pub mod Laws
use provider_azure.Prelude.{ℕ, String, Bool, Option, none, some}
use provider_azure.Go.Num.{int_of_int32}
use provider_azure.Go.Maps.{GoMap, Slice}
use provider_azure.Vendor.{Vendor}

unfoldable pub late_initialize_string_ptr_from_ptr : Option String → Option String → Option String
late_initialize_string_ptr_from_ptr (some s) from = some s
late_initialize_string_ptr_from_ptr none from = from

unfoldable pub late_initialize_string_ptr_from_val : Option String → String → Option String
late_initialize_string_ptr_from_val (some s) from = some s
late_initialize_string_ptr_from_val none from = some from

unfoldable pub late_initialize_bool_ptr_from_ptr : Option Bool → Option Bool → Option Bool
late_initialize_bool_ptr_from_ptr (some b) from = some b
late_initialize_bool_ptr_from_ptr none from = from

module _ ⦃v : Vendor⦄ where
  unfoldable pub late_initialize_string_map : GoMap String → GoMap (Option String) → GoMap String
  late_initialize_string_map (some m) from = some m
  late_initialize_string_map none none = none
  late_initialize_string_map none (some m) = v.string_map (some m)

  unfoldable pub late_initialize_int_ptr_from_int32_ptr : Option ℕ → Option ℕ → Option ℕ
  unfolding int_of_int32
  late_initialize_int_ptr_from_int32_ptr (some i) from = some i
  late_initialize_int_ptr_from_int32_ptr none (some i) = v.int_ptr (int_of_int32 i)
  late_initialize_int_ptr_from_int32_ptr none none = none

  unfoldable pub late_initialize_int32_ptr_from_int32_ptr : Option ℕ → Option ℕ → Option ℕ
  late_initialize_int32_ptr_from_int32_ptr (some i) from = some i
  late_initialize_int32_ptr_from_int32_ptr none (some i) = v.int32_ptr i
  late_initialize_int32_ptr_from_int32_ptr none none = none

  unfoldable pub late_initialize_string_val_arr_from_arr_ptr :
      Slice String → Slice String → Slice String
  late_initialize_string_val_arr_from_arr_ptr (some xs) from = some xs
  late_initialize_string_val_arr_from_arr_ptr none from = v.string_slice from
