-- ===== src/Go/Maps/Laws.antt =====
-- `reflect.DeepEqual` on maps is reflexive where the keys are distinct.
use provider_azure.Prelude.{
  String, ◌≡◌, refl, Bool, true, none, some, List, [], ◌∷◌, arith, eq_iff, eq_refl, nat_eq_iff,
}
use provider_azure.Go.Maps.{
  GoMap, length, entries, lookup, covered, entries_eq, map_eq, map_values, Fresh, Distinct,
}

covered-cons :
    {V : Type 0} (eq : V → V → Bool) (k : String) (v : V) (m n : List (String × V))
    → Fresh k m
    → covered eq m ((k, v) ∷ n) ≡ covered eq m n
unfolding covered lookup
covered-cons eq k v [] n h = refl
covered-cons eq k v ((j, w) ∷ m) n h = ground (arith, eq_iff k j, covered-cons eq k v m n h.1, h.0)

covered_refl :
    {V : Type 0} (eq : V → V → Bool) (m : List (String × V))
    → ((a : V) → eq a a ≡ true)
    → Distinct m
    → covered eq m m ≡ true
unfolding covered lookup
covered_refl eq [] r h = refl
covered_refl eq ((k, v) ∷ m) r h =
    ground (arith, eq_refl k, r v, covered-cons eq k v m m h.0, covered_refl eq m r h.1)

pub map_eq_refl :
    {V : Type 0} (eq : V → V → Bool) (m : GoMap V)
    → ((a : V) → eq a a ≡ true)
    → Distinct (entries m)
    → map_eq eq m m ≡ true
unfolding map_eq entries_eq
map_eq_refl eq none r h = refl
map_eq_refl eq (some m) r h =
    ground (arith, nat_eq_iff (length m) (length m), covered_refl eq m r h)

Fresh-map_values :
    {A B : Type 0} (f : A → B) (k : String) (m : List (String × A))
    → Fresh k m
    → Fresh k (map_values f m)
Fresh-map_values f k [] h = tt
Fresh-map_values f k ((j, a) ∷ m) h = (h.0, Fresh-map_values f k m h.1)

pub Distinct-map_values :
    {A B : Type 0} (f : A → B) (m : List (String × A)) → Distinct m → Distinct (map_values f m)
Distinct-map_values f [] h = tt
Distinct-map_values f ((k, a) ∷ m) h = (Fresh-map_values f k m h.0, Distinct-map_values f m h.1)
