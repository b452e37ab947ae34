-- ===== src/Redis/Patch.antt =====
-- The loops of NewUpdateParameters leave what the state does not have; and when a cache needs an
-- update.
use provider_azure.Prelude.{
  String, ◌≡◌, refl, Bool, false, ◌&&◌, ◌||◌, Option, List, [], ◌∷◌, ◌==◌, arith, eq_iff, eq_refl,
  subst, Bool-cases, inl, inr, sym, ◌∙◌, if◌then◌else◌,
}
use provider_azure.Go.Maps.{lookup, without, Fresh, Distinct}
use provider_azure.Redis.Params.{value_at, prune_by, deep_equal}

-- An entry stands in a map with an equal value.
abbrev pub covers : String → Option String → List (String × Option String) → Bool
covers k x [] = false
covers k x ((j, v) ∷ s) = (j == k && deep_equal x v) || covers k x s

-- The entries of a patch that the state does not have.
abbrev pub uncovered :
    List (String × Option String) → List (String × Option String) → List (String × Option String)
uncovered s [] = []
uncovered s ((k, x) ∷ p) = let rest = uncovered s p in if covers k x s then rest else (k, x) ∷ rest

abbrev step : String → Option String → List (String × Option String) → List (String × Option String)
step k v p = if deep_equal (value_at k p) v then without k p else p

without-Fresh : (k : String) (p : List (String × Option String)) → Fresh k p → without k p ≡ p
unfolding without
without-Fresh k [] f = refl
without-Fresh k ((j, x) ∷ p) f = ground (arith, eq_iff j k, f.0, without-Fresh k p f.1)

uncovered-Fresh :
    (k : String) (v : Option String) (s p : List (String × Option String))
    → Fresh k p
    → uncovered ((k, v) ∷ s) p ≡ uncovered s p
uncovered-Fresh k v s [] f = refl
uncovered-Fresh k v s ((j, x) ∷ p) f = ground (arith, eq_iff k j, f.0, uncovered-Fresh k v s p f.1)

step-here :
    (k : String) (v : Option String) (s : List (String × Option String)) (x : Option String)
    (p : List (String × Option String))
    → Distinct ((k, x) ∷ p)
    → uncovered s (step k v ((k, x) ∷ p)) ≡ uncovered ((k, v) ∷ s) ((k, x) ∷ p)
unfolding lookup without
step-here k v s x p d =
    ground (arith, eq_refl k, without-Fresh k p d.0, uncovered-Fresh k v s p d.0)

uncovered-step :
    (k : String) (v : Option String) (s p : List (String × Option String))
    → Distinct p
    → uncovered s (step k v p) ≡ uncovered ((k, v) ∷ s) p
unfolding lookup without
uncovered-step k v s [] d = ground arith
uncovered-step k v s ((j, x) ∷ p) d = elim (Bool-cases (j == k)) [
  | inl h ↦
      subst (λ i. uncovered s (step i v ((j, x) ∷ p)) ≡ uncovered ((i, v) ∷ s) ((j, x) ∷ p))
        ((eq_iff j k).0 h) (step-here j v s x p d)
  | inr h ↦ ground (arith, eq_iff j k, eq_iff k j, uncovered-step k v s p d.1)
]

Fresh-without :
    (j k : String) (p : List (String × Option String)) → Fresh j p → Fresh j (without k p)
unfolding without
Fresh-without j k [] f = tt
Fresh-without j k ((i, x) ∷ p) f = elim (Bool-cases (i == k)) [
  | inl h ↦ rw h (Fresh-without j k p f.1)
  | inr h ↦ rw h (f.0, Fresh-without j k p f.1)
]

Distinct-without :
    (k : String) (p : List (String × Option String)) → Distinct p → Distinct (without k p)
unfolding without
Distinct-without k [] d = tt
Distinct-without k ((i, x) ∷ p) d = elim (Bool-cases (i == k)) [
  | inl h ↦ rw h (Distinct-without k p d.1)
  | inr h ↦ rw h (Fresh-without i k p d.0, Distinct-without k p d.1)
]

Distinct-step :
    (k : String) (v : Option String) (p : List (String × Option String))
    → Distinct p
    → Distinct (step k v p)
Distinct-step k v p d = elim (Bool-cases (deep_equal (value_at k p) v)) [
  | inl h ↦ rw h (Distinct-without k p d)
  | inr h ↦ rw h d
]

uncovered-nil : (p : List (String × Option String)) → uncovered [] p ≡ p
uncovered-nil [] = refl
uncovered-nil ((k, x) ∷ p) = cc (uncovered-nil p)

-- The loop over the state's map leaves, of a patch with distinct keys, exactly the entries that the
-- state does not have with an equal value, in their order.
pub prune_by-deep_equal :
    (s p : List (String × Option String)) → Distinct p → prune_by deep_equal s p ≡ uncovered s p
prune_by-deep_equal [] p d = sym (uncovered-nil p)
prune_by-deep_equal ((k, v) ∷ s) p d =
    prune_by-deep_equal s (step k v p) (Distinct-step k v p d) ∙ uncovered-step k v s p d
