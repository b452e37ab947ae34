-- ===== src/Prelude/Tests.antt =====
-- Boolean tests on numbers and texts, the conditional, and case splits that keep an equation.
use Prim.Native.Nat.{ℕ, compare, Ordering}
use Prim.Native.String.{String}
use mathlib.Core.Path.{◌≡◌, refl}
use mathlib.Core.Logic.{◌↔◌, ◌⊎◌, inl, inr}
use mathlib.Core.Bool.{Bool, true, false, ◌&&◌}
use mathlib.Core.Option.{Option, none, some}
use mathlib.Core.List.{List, [], ◌∷◌}
use native.Mathlib.Omega.{arith}
use text.Mathlib.Text.{◌==◌ as text_eq}

abbrev pub ltb : ℕ → ℕ → Bool
ltb a b = elim (compare a b) [ Ordering.lt ↦ true | _ ↦ false ]

abbrev pub nat_eq : ℕ → ℕ → Bool
nat_eq a b = elim (compare a b) [ Ordering.eq ↦ true | _ ↦ false ]

infix 50 ◌==◌
-- Go's `==` on strings.
abbrev pub ◌==◌ : String → String → Bool
s == t = text_eq s t

pub bool_eq : Bool → Bool → Bool
bool_eq true b = b
bool_eq false true = false
bool_eq false false = true

infix 1 if◌then◌else◌
abbrev pub if◌then◌else◌ {ℓ} : {A : Type ℓ} → Bool → A → A → A
if true then x else y = x
if false then x else y = y

pub nat_eq_iff : (a b : ℕ) → (nat_eq a b ≡ true) ↔ (a ≡ b)
nat_eq_iff a b = ground arith

pub bool_eq_iff : (a b : Bool) → (bool_eq a b ≡ true) ↔ (a ≡ b)
unfolding bool_eq
bool_eq_iff a b = ground arith

pub Bool-cases : (b : Bool) → (b ≡ true) ⊎ (b ≡ false)
Bool-cases true = inl refl
Bool-cases false = inr refl

pub Option-cases {ℓ} : {A : Type ℓ} (o : Option A) → (o ≡ none) ⊎ ((a : A) × (o ≡ some a))
Option-cases none = inl refl
Option-cases (some a) = inr (a, refl)

pub and_iff : (a b : Bool) → ((a && b) ≡ true) ↔ ((a ≡ true) × (b ≡ true))
and_iff a b = ground arith

-- `reflect.DeepEqual` on two pointers, of which neither, one or both may be nil.
abbrev pub ptr_eq {ℓ} : {A : Type ℓ} → (A → A → Bool) → Option A → Option A → Bool
ptr_eq eq none none = true
ptr_eq eq none (some b) = false
ptr_eq eq (some a) none = false
ptr_eq eq (some a) (some b) = eq a b

pub ptr_eq_iff {ℓ} :
    {A : Type ℓ} (eq : A → A → Bool) (p q : Option A)
    → ((a b : A) → (eq a b ≡ true) ↔ (a ≡ b))
    → (ptr_eq eq p q ≡ true) ↔ (p ≡ q)
ptr_eq_iff eq none none h = ground arith
ptr_eq_iff eq none (some b) h = ground arith
ptr_eq_iff eq (some a) none h = ground arith
ptr_eq_iff eq (some a) (some b) h = ground (arith, h a b)

-- `reflect.DeepEqual` on the elements of two slices.
abbrev pub list_eq {ℓ} : {A : Type ℓ} → (A → A → Bool) → List A → List A → Bool
list_eq eq [] [] = true
list_eq eq [] (y ∷ ys) = false
list_eq eq (x ∷ xs) [] = false
list_eq eq (x ∷ xs) (y ∷ ys) = eq x y && list_eq eq xs ys

pub list_eq_iff {ℓ} :
    {A : Type ℓ} (eq : A → A → Bool) (l m : List A)
    → ((a b : A) → (eq a b ≡ true) ↔ (a ≡ b))
    → (list_eq eq l m ≡ true) ↔ (l ≡ m)
list_eq_iff eq [] [] h = ground arith
list_eq_iff eq [] (y ∷ m) h = ground arith
list_eq_iff eq (x ∷ l) [] h = ground arith
list_eq_iff eq (x ∷ l) (y ∷ m) h = ground (arith, h x y, list_eq_iff eq l m h)

pub list_eq_refl {ℓ} :
    {A : Type ℓ} (eq : A → A → Bool) (l : List A)
    → ((a : A) → eq a a ≡ true)
    → list_eq eq l l ≡ true
list_eq_refl eq [] r = refl
list_eq_refl eq (x ∷ xs) r = ground (arith, r x, list_eq_refl eq xs r)

pub ptr_eq_refl {ℓ} :
    {A : Type ℓ} (eq : A → A → Bool) (p : Option A)
    → ((a : A) → eq a a ≡ true)
    → ptr_eq eq p p ≡ true
ptr_eq_refl eq none r = refl
ptr_eq_refl eq (some a) r = r a
