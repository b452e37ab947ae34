-- ===== src/Vendor/Standard.antt =====
-- The documentation leaves one choice: a concrete `Vendor`, that it is documented, and that every
-- documented one is equal to it. A proof for any documented vendor starts with `rw` by that.
use provider_azure.Prelude.{
  String, ◌≡◌, refl, ◌∙◌, ap, fun_ext, Bool, false, Option, none, some, List, [], ◌∷◌, ◌++◌, ◌==◌,
  if◌then◌else◌,
}
use provider_azure.Go.Errors.{Err, wrapped}
use provider_azure.Go.Maps.{GoMap, entries, map_values}
use provider_azure.Vendor.{Vendor, Documented, is_synced_type, contains}

abbrev value_or {ℓ} : {A : Type ℓ} → A → Option A → A
value_or z none = z
value_or z (some a) = a

abbrev wrap_with : Option Err → String → Option Err
wrap_with none s = none
wrap_with (some e) s = some (wrapped s e)

abbrev ignore_if : (Err → Bool) → Option Err → Option Err
ignore_if test none = none
ignore_if test (some e) = if test e then none else some e

abbrev removed : String → List String → List String
removed f [] = []
removed f (g ∷ fs) = let rest = removed f fs in if g == f then rest else g ∷ rest

abbrev pub standard : Vendor
standard = record {
  string = value_or "";
  bool = value_or false;
  int32 = value_or 0;
  int64 = value_or 0;
  string_ptr = λ s. some s;
  bool_ptr = λ b. some b;
  int_ptr = λ i. some i;
  int32_ptr = λ i. some i;
  int64_ptr = λ i. some i;
  string_map = λ m. some (map_values (value_or "") (entries m));
  string_map_ptr = λ m. some (map_values (λ s. some s) (entries m));
  string_slice = λ s. s;
  string_slice_ptr = λ s. some s;
  wrap = wrap_with;
  ignore = ignore_if;
  set_condition =
      λ c s. if is_synced_type c then record s { synced = some c } else record s { ready = some c };
  add_finalizer = λ f fs. if contains f fs then fs else fs ++ f ∷ [];
  remove_finalizer = removed;
}

pub standard-Documented : Documented standard
standard-Documented = record {
  string_nil = refl;
  string_value = λ s. refl;
  bool_nil = refl;
  bool_value = λ b. refl;
  int32_nil = refl;
  int32_value = λ i. refl;
  int64_nil = refl;
  int64_value = λ i. refl;
  string_ptr_value = λ s. refl;
  bool_ptr_value = λ b. refl;
  int_ptr_value = λ i. refl;
  int32_ptr_value = λ i. refl;
  int64_ptr_value = λ i. refl;
  string_map_values = λ m. refl;
  string_map_ptr_values = λ m. refl;
  string_slice_value = λ s. refl;
  string_slice_ptr_value = λ s. refl;
  wrap_nil = λ s. refl;
  wrap_error = λ e s. refl;
  ignore_nil = λ t. refl;
  ignore_error = λ t e. refl;
  set_condition_type = λ c s. refl;
  add_finalizer_once = λ f fs. refl;
  remove_finalizer_nil = λ f. refl;
  remove_finalizer_cons = λ f g fs. refl;
}

module _ {v : Vendor} (d : Documented v) where
  value_or_eq {ℓ} :
      {A : Type ℓ} (f : Option A → A) (z : A)
      → f none ≡ z
      → ((a : A) → f (some a) ≡ a)
      → (o : Option A) → f o ≡ value_or z o
  value_or_eq f z n s none = n
  value_or_eq f z n s (some a) = s a

  wrap-eq : (o : Option Err) (s : String) → v.wrap o s ≡ wrap_with o s
  wrap-eq none s = d.wrap_nil s
  wrap-eq (some e) s = d.wrap_error e s

  pub wrap_nil_inv : (o : Option Err) (s : String) → v.wrap o s ≡ none → o ≡ none
  wrap_nil_inv none s h = refl
  wrap_nil_inv (some e) s h = cc (h, d.wrap_error e s)

  ignore-eq : (t : Err → Bool) (o : Option Err) → v.ignore t o ≡ ignore_if t o
  ignore-eq t none = d.ignore_nil t
  ignore-eq t (some e) = d.ignore_error t e

  remove_finalizer-eq : (f : String) (fs : List String) → v.remove_finalizer f fs ≡ removed f fs
  remove_finalizer-eq f [] = d.remove_finalizer_nil f
  remove_finalizer-eq f (g ∷ fs) =
      d.remove_finalizer_cons f g fs
      ∙ ap (λ r. if g == f then r else g ∷ r) (remove_finalizer-eq f fs)

  string-eq : v.string ≡ value_or ""
  string-eq = fun_ext (value_or_eq v.string "" d.string_nil d.string_value)

  string_ptr-eq : v.string_ptr ≡ (λ s. some s)
  string_ptr-eq = fun_ext d.string_ptr_value

  string_map-eq : (m : GoMap (Option String)) → v.string_map m ≡ standard.string_map m
  string_map-eq m = d.string_map_values m ∙ ap (λ f. some (map_values f (entries m))) string-eq

  string_map_ptr-eq : (m : GoMap String) → v.string_map_ptr m ≡ standard.string_map_ptr m
  string_map_ptr-eq m =
      d.string_map_ptr_values m ∙ ap (λ f. some (map_values f (entries m))) string_ptr-eq

  pub Documented-standard : v ≡ standard
  Documented-standard = λ i. record {
    string = string-eq i;
    bool = fun_ext (value_or_eq v.bool false d.bool_nil d.bool_value) i;
    int32 = fun_ext (value_or_eq v.int32 0 d.int32_nil d.int32_value) i;
    int64 = fun_ext (value_or_eq v.int64 0 d.int64_nil d.int64_value) i;
    string_ptr = string_ptr-eq i;
    bool_ptr = λ b. d.bool_ptr_value b i;
    int_ptr = λ n. d.int_ptr_value n i;
    int32_ptr = λ n. d.int32_ptr_value n i;
    int64_ptr = λ n. d.int64_ptr_value n i;
    string_map = λ m. string_map-eq m i;
    string_map_ptr = λ m. string_map_ptr-eq m i;
    string_slice = λ s. d.string_slice_value s i;
    string_slice_ptr = λ s. d.string_slice_ptr_value s i;
    wrap = λ o s. wrap-eq o s i;
    ignore = λ t o. ignore-eq t o i;
    set_condition = λ c s. d.set_condition_type c s i;
    add_finalizer = λ f fs. d.add_finalizer_once f fs i;
    remove_finalizer = λ f fs. remove_finalizer-eq f fs i;
  }
