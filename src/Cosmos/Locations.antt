-- ===== src/Cosmos/Locations.antt =====
-- checkEqualLocations forgets the order of the locations.
use Prim.Native.Nat.{Ordering}
use Prim.Native.String.{compare}
use text.Mathlib.TextPositions.{compare_refl}
use provider_azure.Prelude.{
  ◌≡◌, refl, sym, subst, ◌≢◌, ◌↔◌, ◌⊎◌, inl, inr, Bool, true, false, List, [], ◌∷◌, ◌&&◌, arith,
  eq_iff, nat_eq, nat_eq_iff, bool_eq_iff, list_eq, list_eq_iff, if◌then◌else◌,
}
use provider_azure.Go.Maps.{Slice, length, entries}
use provider_azure.Network.Order.{compare_trans}
use provider_azure.Cosmos.{AccountLocation}
use provider_azure.Cosmos.Properties.{location_eq, Sorter, check_equal_locations}

abbrev pub In : AccountLocation → List AccountLocation → Type 0
In x [] = ⊥
In x (y ∷ l) = (x ≡ y) ⊎ In x l

abbrev pub Precedes : AccountLocation → AccountLocation → Type 0
Precedes x y = compare x.location_name y.location_name ≡ Ordering.lt

abbrev pub IsFirst : AccountLocation → List AccountLocation → Type 0
IsFirst x [] = Unit
IsFirst x (y ∷ l) = Precedes x y × IsFirst x l

abbrev pub IsIncreasing : List AccountLocation → Type 0
IsIncreasing [] = Unit
IsIncreasing (x ∷ l) = IsFirst x l × IsIncreasing l

abbrev pub NewName : AccountLocation → List AccountLocation → Type 0
NewName x [] = Unit
NewName x (y ∷ l) = (x.location_name ≢ y.location_name) × NewName x l

abbrev pub DistinctNames : List AccountLocation → Type 0
DistinctNames [] = Unit
DistinctNames (x ∷ l) = NewName x l × DistinctNames l

-- What go-cmp's documentation says of SortSlices by the names: it keeps the elements, and orders
-- them if the order is total on them.
pub record SortsByName (sort : Sorter) : Type 0 where
  pub increasing : (l : List AccountLocation) → DistinctNames l → IsIncreasing (sort l)
  pub members : (l : List AccountLocation) (x : AccountLocation) → In x (sort l) ↔ In x l

pub In-Precedes :
    (x y : AccountLocation) (l : List AccountLocation) → IsFirst x l → In y l → Precedes x y
In-Precedes x y [] f i = absurd i
In-Precedes x y (z ∷ l) f (inl e) = rw e f.0
In-Precedes x y (z ∷ l) f (inr i) = In-Precedes x y l f.1 i

not-Precedes : (x y : AccountLocation) → Precedes x y → Precedes y x → ⊥
not-Precedes x y p q =
    let r = compare_trans x.location_name y.location_name x.location_name p q in
    cc (r, compare_refl x.location_name)

-- The first elements of two increasing lists with the same elements.
heads :
    (x y : AccountLocation) (l m : List AccountLocation)
    → IsFirst x l
    → IsFirst y m
    → In x (y ∷ m)
    → In y (x ∷ l)
    → x ≡ y
heads x y l m f g (inl e) j = e
heads x y l m f g (inr i) (inl e) = sym e
heads x y l m f g (inr i) (inr j) =
    absurd (not-Precedes x y (In-Precedes x y l f j) (In-Precedes y x m g i))

-- An element of the tail is not the head, so it is in the other tail.
In-tail :
    (x z : AccountLocation) (l m : List AccountLocation)
    → IsFirst x l
    → In z l
    → In z (x ∷ m)
    → In z m
In-tail x z l m f i (inl e) =
    let p = In-Precedes x z l f i in cc (p, e, compare_refl x.location_name)
In-tail x z l m f i (inr j) = j

-- An increasing list is determined by its elements.
increasing_unique :
    (l m : List AccountLocation)
    → IsIncreasing l
    → IsIncreasing m
    → ((z : AccountLocation) → In z l → In z m)
    → ((z : AccountLocation) → In z m → In z l)
    → l ≡ m
increasing_unique [] [] i j f g = refl
increasing_unique [] (y ∷ m) i j f g = absurd (g y (inl refl))
increasing_unique (x ∷ l) [] i j f g = absurd (f x (inl refl))
increasing_unique (x ∷ l) (y ∷ m) i j f g =
    let e = heads x y l m i.0 j.0 (f x (inl refl)) (g y (inl refl)) in
    let rest =
      increasing_unique l m i.1 j.1 (λ z k. In-tail x z l m i.0 k (rw e (f z (inr k))))
        (λ z k. In-tail y z m l j.0 k (rw (sym e) (g z (inr k)))) in
    cc (e, rest)

location_eq_iff : (a b : AccountLocation) → (location_eq a b ≡ true) ↔ (a ≡ b)
location_eq_iff a b = ground (
  arith,
  eq_iff a.location_name b.location_name,
  nat_eq_iff a.failover_priority b.failover_priority,
  bool_eq_iff a.is_zone_redundant b.is_zone_redundant,
)

sorted_eq_iff :
    (sort : Sorter) (l m : List AccountLocation)
    → SortsByName sort
    → DistinctNames l
    → DistinctNames m
    → (list_eq location_eq (sort l) (sort m) ≡ true) ↔ ((x : AccountLocation) → In x l ↔ In x m)
sorted_eq_iff sort l m s dl dm =
    let iff = list_eq_iff location_eq (sort l) (sort m) location_eq_iff in
    (
      λ h x. (
        λ i. (s.members m x).0 (subst (λ k. In x k) (iff.0 h) ((s.members l x).1 i)),
        λ i. (s.members l x).0 (subst (λ k. In x k) (sym (iff.0 h)) ((s.members m x).1 i)),
      ),
      λ h. iff.1 (
          increasing_unique (sort l) (sort m) (s.increasing l dl) (s.increasing m dm)
            (λ z i. (s.members m z).1 ((h z).0 ((s.members l z).0 i)))
            (λ z i. (s.members l z).1 ((h z).1 ((s.members m z).0 i)))),
    )

otherwise :
    {P : Type 0} (b c : Bool) → b ≡ false → (c ≡ true) ↔ P → ((if b then true else c) ≡ true) ↔ P
otherwise true c h iff = absurd (cc h)
otherwise false c h iff = iff

-- Where go-cmp sorts the locations by their names and no list names a location twice,
-- checkEqualLocations says yes exactly if every location that is in one of the two lists is in the
-- other, with the same priority and the same redundancy: their order has no effect.
pub check_equal_locations_iff :
    (sort : Sorter) (a b : Slice AccountLocation)
    → SortsByName sort
    → DistinctNames (entries a)
    → DistinctNames (entries b)
    → (check_equal_locations sort a b ≡ true)
      ↔ ((x : AccountLocation) → In x (entries a) ↔ In x (entries b))
unfolding check_equal_locations
check_equal_locations_iff sort a b s da db = by_entries (entries a) (entries b) da db
  where
    by_entries :
        (l m : List AccountLocation)
        → DistinctNames l
        → DistinctNames m
        → ((if nat_eq (length l) 0 && nat_eq (length m) 0
              then true
              else list_eq location_eq (sort l) (sort m))
            ≡ true)
          ↔ ((x : AccountLocation) → In x l ↔ In x m)
    by_entries [] [] dl dm = (λ h x. (λ i. i, λ i. i), λ h. refl)
    by_entries [] (y ∷ m) dl dm =
        otherwise (nat_eq (length (y ∷ m)) 0) (list_eq location_eq (sort []) (sort (y ∷ m)))
          (ground arith) (sorted_eq_iff sort [] (y ∷ m) s dl dm)
    by_entries (x ∷ l) m dl dm =
        otherwise (nat_eq (length (x ∷ l)) 0 && nat_eq (length m) 0)
          (list_eq location_eq (sort (x ∷ l)) (sort m)) (ground arith)
          (sorted_eq_iff sort (x ∷ l) m s dl dm)
