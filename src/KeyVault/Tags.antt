-- ===== src/KeyVault/Tags.antt =====
-- Putting the user's tags over a copy of Azure's changes nothing exactly if Azure has them.
use provider_azure.Prelude.{
  String, ◌≡◌, refl, ◌↔◌, true, Option, some, List, [], ◌∷◌, arith, eq_iff, eq_refl, ptr_eq_iff,
  ◌==◌, if◌then◌else◌,
}
use provider_azure.Go.Maps.{
  insert, lookup, covered, map_values, entries_eq, map_eq, Fresh, Distinct,
}
use provider_azure.Go.Maps.Laws.{map_eq_refl}
use provider_azure.Vendor.{Vendor}
use provider_azure.Azure.Convert.{to_string_ptr}
use provider_azure.KeyVault.Params.{string_ptr_eq, put_tags}

pub string_ptr_eq_iff : (p q : Option String) → (string_ptr_eq p q ≡ true) ↔ (p ≡ q)
string_ptr_eq_iff p q = ptr_eq_iff ◌==◌ p q eq_iff

abbrev Tags : Type 0
Tags = List (String × Option String)

lookup-insert :
    {V : Type 0} (k j : String) (x : V) (m : List (String × V))
    → lookup j (insert k x m) ≡ (if k == j then some x else lookup j m)
unfolding lookup insert
lookup-insert k j x [] = refl
lookup-insert k j x ((i, y) ∷ m) =
    ground (arith, eq_iff k j, eq_iff i k, eq_iff i j, lookup-insert k j x m)

-- To insert what is there changes nothing.
insert-lookup :
    {V : Type 0} (k : String) (x : V) (m : List (String × V))
    → lookup k m ≡ some x
    → insert k x m ≡ m
unfolding lookup insert
insert-lookup k x [] h = ground arith
insert-lookup k x ((i, y) ∷ m) h = ground (arith, eq_iff i k, insert-lookup k x m)

pub lookup-map_values :
    {A B : Type 0} (f : A → B) (k : String) (a : A) (m : List (String × A))
    → lookup k m ≡ some a
    → lookup k (map_values f m) ≡ some (f a)
unfolding lookup
lookup-map_values f k a [] h = ground arith
lookup-map_values f k a ((j, b) ∷ m) h = ground (arith, eq_iff j k, lookup-map_values f k a m)

covered-lookup :
    (k : String) (x : Option String) (m n : Tags)
    → covered string_ptr_eq m n ≡ true
    → lookup k m ≡ some x
    → lookup k n ≡ some x
unfolding covered lookup
covered-lookup k x [] n h p = ground arith
covered-lookup k x ((i, y) ∷ m) n h p = ground (
  arith,
  eq_iff i k,
  ptr_eq_iff string_ptr_eq (some y) (lookup i n) string_ptr_eq_iff,
  covered-lookup k x m n,
)

module _ ⦃v : Vendor⦄ where
  -- Each of the user's tags is there as the code writes it: an empty one as nil.
  abbrev pub HasTags : List (String × String) → Tags → Type 0
  HasTags [] has = Unit
  HasTags ((k, s) ∷ m) has = (lookup k has ≡ some (to_string_ptr s [])) × HasTags m has

  pub HasTags-lookup :
      (k s : String) (m : List (String × String)) (has : Tags)
      → HasTags m has
      → lookup k m ≡ some s
      → lookup k has ≡ some (to_string_ptr s [])
  unfolding lookup
  HasTags-lookup k s [] has h p = ground arith
  HasTags-lookup k s ((j, r) ∷ m) has h p =
      ground (arith, eq_iff j k, HasTags-lookup k s m has h.1, h.0)

  put_tags-HasTags :
      (m : List (String × String)) (has : Tags) → HasTags m has → put_tags m has ≡ has
  unfolding put_tags
  put_tags-HasTags [] has h = refl
  put_tags-HasTags ((k, s) ∷ m) has h =
      rw (insert-lookup k (to_string_ptr s []) has h.0) (put_tags-HasTags m has h.1)

  lookup-put_tags :
      (k : String) (m : List (String × String)) (has : Tags)
      → Fresh k m
      → lookup k (put_tags m has) ≡ lookup k has
  unfolding put_tags
  lookup-put_tags k [] has h = refl
  lookup-put_tags k ((j, s) ∷ m) has h =
      let x = to_string_ptr s [] in
      ground
        (arith, eq_iff j k, lookup-insert j k x has, lookup-put_tags k m (insert j x has) h.1, h.0)

  HasTags-put_tags :
      (m : List (String × String)) (has : Tags) → Distinct m → HasTags m (put_tags m has)
  unfolding put_tags
  HasTags-put_tags [] has h = tt
  HasTags-put_tags ((k, s) ∷ m) has h =
      let x = to_string_ptr s [] in
      (
        ground
            (arith, eq_refl k, lookup-insert k k x has, lookup-put_tags k m (insert k x has) h.0),
        HasTags-put_tags m (insert k x has) h.1,
      )

  HasTags-covered :
      (l : List (String × String)) (m n : Tags)
      → covered string_ptr_eq m n ≡ true
      → HasTags l m
      → HasTags l n
  HasTags-covered [] m n c h = tt
  HasTags-covered ((k, s) ∷ l) m n c h = (covered-lookup k _ m n c h.0, HasTags-covered l m n c h.1)

  -- Where the keys are distinct, putting the user's tags over Azure's gives a map equal to Azure's
  -- exactly if Azure has each of them.
  pub put_tags_iff :
      (m : List (String × String)) (has : Tags)
      → Distinct m
      → Distinct has
      → (map_eq string_ptr_eq (some (put_tags m has)) (some has) ≡ true) ↔ HasTags m has
  unfolding map_eq entries_eq
  put_tags_iff m has p q = (
    λ h. HasTags-covered m (put_tags m has) has (ground arith) (HasTags-put_tags m has p),
    λ h.
        rw (put_tags-HasTags m has h)
          (map_eq_refl string_ptr_eq (some has) (λ x. (string_ptr_eq_iff x x).1 refl) q),
  )
