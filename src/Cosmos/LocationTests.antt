-- ===== src/Cosmos/LocationTests.antt =====
-- An insertion sort by the names for go-cmp's, and two accounts' locations in another order.
use Prim.Native.Nat.{Ordering}
use Prim.Native.String.{compare}
use text.Mathlib.TextEquality.{path_by_compare}
use provider_azure.Prelude.{
  ◌≡◌, refl, ◌≢◌, inl, inr, ◌↔◌, true, false, some, List, [], ◌∷◌, arith, eq_iff,
}
use provider_azure.Network.Order.{compare_trans, compare_flip}
use provider_azure.Cosmos.{AccountLocation}
use provider_azure.Cosmos.Properties.{Sorter, check_equal_locations}
use provider_azure.Cosmos.Locations.{
  In, Precedes, IsFirst, IsIncreasing, NewName, DistinctNames, SortsByName, In-Precedes,
  check_equal_locations_iff,
}

abbrev put :
    Ordering
    → AccountLocation
    → AccountLocation
    → List AccountLocation
    → List AccountLocation
    → List AccountLocation
put Ordering.lt x y l rest = x ∷ y ∷ l
put Ordering.eq x y l rest = x ∷ y ∷ l
put Ordering.gt x y l rest = y ∷ rest

abbrev insert : AccountLocation → List AccountLocation → List AccountLocation
insert x [] = x ∷ []
insert x (y ∷ l) = put (compare x.location_name y.location_name) x y l (insert x l)

abbrev sort : Sorter
sort [] = []
sort (x ∷ l) = insert x (sort l)

put-In :
    (o : Ordering) (x y z : AccountLocation) (l rest : List AccountLocation)
    → In z rest ↔ In z (x ∷ l)
    → In z (put o x y l rest) ↔ In z (x ∷ y ∷ l)
put-In Ordering.lt x y z l rest iff = (λ i. i, λ i. i)
put-In Ordering.eq x y z l rest iff = (λ i. i, λ i. i)
put-In Ordering.gt x y z l rest iff = ground (arith, iff)

insert-In : (x z : AccountLocation) (l : List AccountLocation) → In z (insert x l) ↔ In z (x ∷ l)
insert-In x z [] = (λ i. i, λ i. i)
insert-In x z (y ∷ l) =
    put-In (compare x.location_name y.location_name) x y z l (insert x l) (insert-In x z l)

sort-In : (l : List AccountLocation) (z : AccountLocation) → In z (sort l) ↔ In z l
sort-In [] z = (λ i. i, λ i. i)
sort-In (x ∷ l) z = ground (arith, insert-In x z (sort l), sort-In l z)

IsFirst-of :
    (x : AccountLocation) (l : List AccountLocation)
    → ((z : AccountLocation) → In z l → Precedes x z)
    → IsFirst x l
IsFirst-of x [] h = tt
IsFirst-of x (y ∷ l) h = (h y (inl refl), IsFirst-of x l (λ z i. h z (inr i)))

NewName-of :
    (x : AccountLocation) (l : List AccountLocation)
    → ((z : AccountLocation) → In z l → x.location_name ≢ z.location_name)
    → NewName x l
NewName-of x [] h = tt
NewName-of x (y ∷ l) h = (h y (inl refl), NewName-of x l (λ z i. h z (inr i)))

NewName-differs :
    (x z : AccountLocation) (l : List AccountLocation)
    → NewName x l
    → In z l
    → x.location_name ≢ z.location_name
NewName-differs x z [] n i = absurd i
NewName-differs x z (y ∷ l) n (inl e) = rw e n.0
NewName-differs x z (y ∷ l) n (inr i) = NewName-differs x z l n.1 i

IsFirst-trans :
    (x y : AccountLocation) (l : List AccountLocation) → Precedes x y → IsFirst y l → IsFirst x l
IsFirst-trans x y l p f =
    IsFirst-of x l (λ z i.
      compare_trans x.location_name y.location_name z.location_name p (In-Precedes y z l f i))

insert-IsFirst :
    (x y : AccountLocation) (l : List AccountLocation)
    → Precedes y x
    → IsFirst y l
    → IsFirst y (insert x l)
insert-IsFirst x y l p f =
    IsFirst-of y (insert x l)
      (λ z i. elim ((insert-In x z l).0 i) [ inl e ↦ rw e p | inr j ↦ In-Precedes y z l f j ])

put-IsIncreasing :
    (o : Ordering) (x y : AccountLocation) (l : List AccountLocation)
    → compare x.location_name y.location_name ≡ o
    → x.location_name ≢ y.location_name
    → IsIncreasing (y ∷ l)
    → IsIncreasing (insert x l)
    → IsIncreasing (put o x y l (insert x l))
put-IsIncreasing Ordering.lt x y l e n i r = ((e, IsFirst-trans x y l e i.0), i)
put-IsIncreasing Ordering.eq x y l e n i r =
    absurd (n (path_by_compare x.location_name y.location_name e))
put-IsIncreasing Ordering.gt x y l e n i r =
    (insert-IsFirst x y l (compare_flip x.location_name y.location_name e) i.0, r)

insert-IsIncreasing :
    (x : AccountLocation) (l : List AccountLocation)
    → NewName x l
    → IsIncreasing l
    → IsIncreasing (insert x l)
insert-IsIncreasing x [] n i = (tt, tt)
insert-IsIncreasing x (y ∷ l) n i =
    put-IsIncreasing (compare x.location_name y.location_name) x y l refl n.0 i
      (insert-IsIncreasing x l n.1 i.1)

sort-IsIncreasing : (l : List AccountLocation) → DistinctNames l → IsIncreasing (sort l)
sort-IsIncreasing [] d = tt
sort-IsIncreasing (x ∷ l) d =
    insert-IsIncreasing x (sort l)
      (NewName-of x (sort l) (λ z i. NewName-differs x z l d.0 ((sort-In l z).0 i)))
      (sort-IsIncreasing l d.1)

sort-SortsByName : SortsByName sort
sort-SortsByName = record { increasing = sort-IsIncreasing; members = sort-In }

abbrev west : AccountLocation
west = record { location_name = "west"; failover_priority = 0; is_zone_redundant = false }

abbrev east : AccountLocation
east = record { location_name = "east"; failover_priority = 1; is_zone_redundant = true }

check_equal_locations_iff_example :
    (check_equal_locations sort (some (west ∷ east ∷ [])) (some (east ∷ west ∷ [])) ≡ true)
    ↔ ((x : AccountLocation) → In x (west ∷ east ∷ []) ↔ In x (east ∷ west ∷ []))
check_equal_locations_iff_example =
    check_equal_locations_iff sort (some (west ∷ east ∷ [])) (some (east ∷ west ∷ []))
      sort-SortsByName ((ground (arith, eq_iff "west" "east"), tt), (tt, tt))
      ((ground (arith, eq_iff "east" "west"), tt), (tt, tt))
