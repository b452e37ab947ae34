-- ===== src/Azure/Convert.antt =====
-- pkg/clients/azure.go: IsNotFound, and the conversions to and from the SDK's pointers.
pub mod RoundTrip
use provider_azure.Prelude.{
  ℕ, String, Bool, true, false, ◌&&◌, not, Option, none, some, List, [], ◌∷◌, ◌==◌, nat_eq,
  if◌then◌else◌,
}
use provider_azure.Go.Num.{int32_of_int, int_of_int32}
use provider_azure.Go.Errors.{Err, StatusCode, int_code, other_code, detailed}
use provider_azure.Go.Maps.{GoMap, Slice}
use provider_azure.Vendor.{Vendor}

abbrev status_not_found : ℕ
status_not_found = 404

abbrev is_404 : StatusCode → Bool
is_404 (int_code n) = nat_eq n status_not_found
is_404 (other_code _) = false

-- `err.(autorest.DetailedError)` looks at the error itself and not at what it wraps.
unfoldable pub is_not_found : Option Err → Bool
is_not_found none = false
is_not_found (some (detailed c)) = is_404 c
is_not_found (some _) = false

-- `azure.IsNotFound` as the test that `resource.Ignore` applies to an error that is not nil.
abbrev pub is_not_found_error : Err → Bool
is_not_found_error e = is_not_found (some e)

-- `FieldOption` is an `int`.
abbrev pub FieldOption : Type 0
FieldOption = ℕ

abbrev pub field_required : FieldOption
field_required = 0

-- The loop at the start of the `To…Ptr` functions: whether it returns a pointer to the zero value.
unfoldable pub zero_required : List FieldOption → Bool → Bool
zero_required [] is_zero = false
zero_required (fo ∷ o) is_zero =
    if nat_eq fo field_required && is_zero then true else zero_required o is_zero

module _ ⦃v : Vendor⦄ where
  unfoldable pub to_string_ptr : String → List FieldOption → Option String
  unfolding zero_required
  to_string_ptr s o =
      if zero_required o (s == "") then v.string_ptr s else if s == "" then none else v.string_ptr s

  unfoldable pub to_int32_ptr : ℕ → List FieldOption → Option ℕ
  unfolding zero_required int32_of_int
  to_int32_ptr i o =
      if zero_required o (nat_eq i 0)
      then v.int32_ptr (int32_of_int i)
      else if nat_eq i 0
      then none
      else v.int32_ptr (int32_of_int i)

  unfoldable pub to_int32_ptr_from_int_ptr : Option ℕ → Option ℕ
  unfolding int32_of_int
  to_int32_ptr_from_int_ptr none = none
  to_int32_ptr_from_int_ptr (some i) = v.int32_ptr (int32_of_int i)

  unfoldable pub to_bool_ptr : Bool → List FieldOption → Option Bool
  unfolding zero_required
  to_bool_ptr b o =
      if zero_required o (not b) then v.bool_ptr b else if not b then none else v.bool_ptr b

  unfoldable pub to_string_ptr_map : GoMap String → GoMap (Option String)
  to_string_ptr_map none = none
  to_string_ptr_map (some m) = v.string_map_ptr (some m)

  unfoldable pub to_string_map : GoMap (Option String) → GoMap String
  to_string_map none = none
  to_string_map (some m) = v.string_map (some m)

  unfoldable pub to_string : Option String → String
  to_string s = v.string s

  unfoldable pub to_int : Option ℕ → ℕ
  unfolding int_of_int32
  to_int i = int_of_int32 (v.int32 i)

  unfoldable pub to_int32 : Option ℕ → Option ℕ
  unfolding int32_of_int
  to_int32 none = none
  to_int32 (some i) = v.int32_ptr (int32_of_int i)

  -- `int` has the 64 bits of `int64`.
  unfoldable pub int64_to_int : Option ℕ → ℕ
  int64_to_int i = v.int64 i

  unfoldable pub to_int64 : Option ℕ → Option ℕ
  to_int64 none = none
  to_int64 (some i) = v.int64_ptr i

  unfoldable pub to_bool : Option Bool → Bool
  to_bool b = v.bool b

-- A `*[]string` is nil, or points at a slice, which may itself be nil.
unfoldable pub to_string_array_ptr : Slice String → Option (Slice String)
to_string_array_ptr none = none
to_string_array_ptr (some m) = some (some m)

unfoldable pub to_string_array : Option (Slice String) → Slice String
to_string_array none = none
to_string_array (some m) = m
