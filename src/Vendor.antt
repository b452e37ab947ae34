-- ===== src/Vendor.antt =====
-- The third-party functions that the program calls and that are not in the repository: helpers of
-- go-autorest (package `to`), pkg/errors and crossplane-runtime (packages meta, resource and the
-- common API types). They are a parameter, `Vendor`, and what their documentation says is
-- `Documented`.
pub mod Standard
use provider_azure.Prelude.{
  ℕ, String, ◌≡◌, Bool, true, false, ◌||◌, Option, none, some, List, [], ◌∷◌, ◌++◌, ◌==◌,
  if◌then◌else◌,
}
use provider_azure.Go.Errors.{Err, wrapped}
use provider_azure.Go.Maps.{GoMap, Slice, entries, map_values}

-- The conditions of crossplane-runtime that the controllers set.
pub data Condition : Type 0 where
  creating deleting available unavailable reconcile_success : Condition
  reconcile_error : Err → Condition

-- The conditions of an object, at most one of each type.
pub record Conditions : Type 0 where
  pub ready : Option Condition
  pub synced : Option Condition

-- `Type: Synced` for the reconcile conditions, `Type: Ready` for the others.
abbrev pub is_synced_type : Condition → Bool
is_synced_type reconcile_success = true
is_synced_type (reconcile_error _) = true
is_synced_type _ = false

abbrev pub contains : String → List String → Bool
contains f [] = false
contains f (x ∷ xs) = x == f || contains f xs

pub record Vendor : Type 0 where
  -- go-autorest, package `to`
  pub string : Option String → String
  pub bool : Option Bool → Bool
  pub int32 : Option ℕ → ℕ
  pub int64 : Option ℕ → ℕ
  pub string_ptr : String → Option String
  pub bool_ptr : Bool → Option Bool
  pub int_ptr : ℕ → Option ℕ
  pub int32_ptr : ℕ → Option ℕ
  pub int64_ptr : ℕ → Option ℕ
  pub string_map : GoMap (Option String) → GoMap String
  pub string_map_ptr : GoMap String → GoMap (Option String)
  pub string_slice : Slice String → Slice String
  pub string_slice_ptr : Slice String → Option (Slice String)
  -- pkg/errors
  pub wrap : Option Err → String → Option Err
  -- crossplane-runtime
  pub ignore : (Err → Bool) → Option Err → Option Err
  pub set_condition : Condition → Conditions → Conditions
  pub add_finalizer : String → List String → List String
  pub remove_finalizer : String → List String → List String

pub record Documented (v : Vendor) : Type 0 where
  -- The value that a pointer points at, and the zero value for nil.
  pub string_nil : v.string none ≡ ""
  pub string_value : (s : String) → v.string (some s) ≡ s
  pub bool_nil : v.bool none ≡ false
  pub bool_value : (b : Bool) → v.bool (some b) ≡ b
  pub int32_nil : v.int32 none ≡ 0
  pub int32_value : (i : ℕ) → v.int32 (some i) ≡ i
  pub int64_nil : v.int64 none ≡ 0
  pub int64_value : (i : ℕ) → v.int64 (some i) ≡ i
  -- A pointer to the value.
  pub string_ptr_value : (s : String) → v.string_ptr s ≡ some s
  pub bool_ptr_value : (b : Bool) → v.bool_ptr b ≡ some b
  pub int_ptr_value : (i : ℕ) → v.int_ptr i ≡ some i
  pub int32_ptr_value : (i : ℕ) → v.int32_ptr i ≡ some i
  pub int64_ptr_value : (i : ℕ) → v.int64_ptr i ≡ some i
  -- A new map, never nil, in which each value is a pointer's value, or a pointer to a value.
  pub string_map_values :
      (m : GoMap (Option String)) → v.string_map m ≡ some (map_values v.string (entries m))
  pub string_map_ptr_values :
      (m : GoMap String) → v.string_map_ptr m ≡ some (map_values v.string_ptr (entries m))
  -- The slice that a pointer points at, and back.
  pub string_slice_value : (s : Slice String) → v.string_slice s ≡ s
  pub string_slice_ptr_value : (s : Slice String) → v.string_slice_ptr s ≡ some s
  -- A wrapped nil is nil.
  pub wrap_nil : (s : String) → v.wrap none s ≡ none
  pub wrap_error : (e : Err) (s : String) → v.wrap (some e) s ≡ some (wrapped s e)
  -- An error that satisfies the test becomes nil.
  pub ignore_nil : (test : Err → Bool) → v.ignore test none ≡ none
  pub ignore_error :
      (test : Err → Bool) (e : Err) → v.ignore test (some e) ≡ (if test e then none else some e)
  -- The condition replaces the one of its type.
  pub set_condition_type :
      (c : Condition) (s : Conditions)
      → v.set_condition c s
        ≡ (if is_synced_type c then record s { synced = some c } else record s { ready = some c })
  -- A finalizer is added once, and removed wherever it stands.
  pub add_finalizer_once :
      (f : String) (fs : List String)
      → v.add_finalizer f fs ≡ (if contains f fs then fs else fs ++ f ∷ [])
  pub remove_finalizer_nil : (f : String) → v.remove_finalizer f [] ≡ []
  pub remove_finalizer_cons :
      (f g : String) (fs : List String)
      → v.remove_finalizer f (g ∷ fs)
        ≡ (if g == f then v.remove_finalizer f fs else g ∷ v.remove_finalizer f fs)
