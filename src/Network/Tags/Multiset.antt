-- ===== src/Network/Tags/Multiset.antt =====
-- isIPTagsUpToDate compares two lists of tags as multisets: the order of tags is total, and a sorted
-- list depends only on how often each tag occurs.
use text.Mathlib.TextEquality.{path_by_compare}
use text.Mathlib.TextPositions.{compare_refl}
use provider_azure.Prelude.{
  ℕ, suc, ◌≡◌, refl, sym, ap, ◌∙◌, ◌↔◌, true, false, Option, List, [], ◌∷◌, arith, eq_iff,
  nat_eq_iff, list_eq_iff, if◌then◌else◌,
}
use provider_azure.Go.Maps.{Slice, entries, length}
use provider_azure.Network.Order.{compare_trans, compare_flip, compare_lt}
use provider_azure.Network.Tags.{IpTag, less, insert_tag, sort_tags, tag_eq, is_ip_tags_up_to_date}

less_trans : (a b c : IpTag) → less a b ≡ true → less b c ≡ true → less a c ≡ true
unfolding less
less_trans a b c h k = ground (
  arith,
  path_by_compare a.ip_tag_type b.ip_tag_type,
  path_by_compare b.ip_tag_type c.ip_tag_type,
  compare_trans a.ip_tag_type b.ip_tag_type c.ip_tag_type,
  compare_trans a.tag b.tag c.tag,
  compare_refl a.ip_tag_type,
)

less_asym : (a b : IpTag) → less a b ≡ true → less b a ≡ false
unfolding less
less_asym a b h = ground (
  arith,
  path_by_compare a.ip_tag_type b.ip_tag_type,
  compare_refl a.ip_tag_type,
  compare_lt a.ip_tag_type b.ip_tag_type,
  compare_lt a.tag b.tag,
)

less_total : (a b : IpTag) → less a b ≡ false → less b a ≡ false → a ≡ b
unfolding less
less_total a b h k = ground (
  arith,
  path_by_compare a.ip_tag_type b.ip_tag_type,
  path_by_compare a.tag b.tag,
  compare_flip a.ip_tag_type b.ip_tag_type,
  compare_flip a.tag b.tag,
  compare_refl a.ip_tag_type,
)

insert-insert :
    (x y : IpTag) (l : List IpTag) → insert_tag x (insert_tag y l) ≡ insert_tag y (insert_tag x l)
insert-insert x y [] = ground (arith, less_asym x y, less_asym y x, less_total x y, less_total y x)
insert-insert x y (z ∷ l) = ground (
  arith,
  insert-insert x y l,
  less_asym x y,
  less_asym y x,
  less_total x y,
  less_total y x,
  less_trans z x y,
  less_trans z y x,
  less_trans x z y,
  less_trans y z x,
  less_trans x y z,
  less_trans y x z,
  less_asym x z,
  less_asym z x,
  less_asym y z,
  less_asym z y,
  less_total x z,
  less_total y z,
)

-- How often a tag occurs.
abbrev pub count : IpTag → List IpTag → ℕ
count x [] = 0
count x (y ∷ l) = let rest = count x l in if tag_eq y x then suc rest else rest

abbrev remove : IpTag → List IpTag → List IpTag
remove x [] = []
remove x (y ∷ l) = let rest = remove x l in if tag_eq y x then l else y ∷ rest

tag_eq_iff : (a b : IpTag) → (tag_eq a b ≡ true) ↔ (a ≡ b)
tag_eq_iff a b = ground (arith, eq_iff a.ip_tag_type b.ip_tag_type, eq_iff a.tag b.tag)

sort-remove :
    (x : IpTag) (m : List IpTag) (k : ℕ)
    → count x m ≡ suc k
    → sort_tags m ≡ insert_tag x (sort_tags (remove x m))
sort-remove x [] k h = ground arith
sort-remove x (y ∷ m) k h =
    ground (arith, tag_eq_iff y x, sort-remove x m k, insert-insert y x (sort_tags (remove x m)))

count-remove :
    (x y : IpTag) (m : List IpTag) (k : ℕ)
    → count x m ≡ suc k
    → count y (x ∷ remove x m) ≡ count y m
count-remove x y [] k h = omega arith
count-remove x y (z ∷ m) k h =
    ground (arith, tag_eq_iff z x, tag_eq_iff x y, tag_eq_iff z y, count-remove x y m k)

count-insert : (x y : IpTag) (l : List IpTag) → count y (insert_tag x l) ≡ count y (x ∷ l)
count-insert x y [] = refl
count-insert x y (z ∷ l) = ground (arith, count-insert x y l)

count-sort : (y : IpTag) (l : List IpTag) → count y (sort_tags l) ≡ count y l
count-sort y [] = refl
count-sort y (x ∷ l) = ground (arith, count-insert x y (sort_tags l), count-sort y l)

length-insert : (x : IpTag) (l : List IpTag) → length (insert_tag x l) ≡ suc (length l)
length-insert x [] = refl
length-insert x (z ∷ l) = ground (arith, length-insert x l)

length-sort : (l : List IpTag) → length (sort_tags l) ≡ length l
length-sort [] = refl
length-sort (x ∷ l) = ground (arith, length-insert x (sort_tags l), length-sort l)

count-here :
    (x : IpTag) (l m : List IpTag)
    → ((y : IpTag) → count y (x ∷ l) ≡ count y m)
    → count x m ≡ suc (count x l)
count-here x l m h = ground (arith, tag_eq_iff x x, h x)

sort-counts : (l m : List IpTag) → ((x : IpTag) → count x l ≡ count x m) → sort_tags l ≡ sort_tags m
sort-counts [] [] h = refl
sort-counts [] (y ∷ m) h = ground (arith, h y, tag_eq_iff y y)
sort-counts (x ∷ l) m h =
    ap (insert_tag x) (
      sort-counts l (remove x m) (λ y.
        let r = sym (count-remove x y m (count x l) (count-here x l m h)) in
        let e = h y ∙ r in ground (arith, e)))
    ∙ sym (sort-remove x m (count x l) (count-here x l m h))

lengths-counts : (l m : List IpTag) → ((x : IpTag) → count x l ≡ count x m) → length l ≡ length m
lengths-counts l m h = sym (length-sort l) ∙ ap length (sort-counts l m h) ∙ length-sort m

counts-sort : (l m : List IpTag) → sort_tags l ≡ sort_tags m → (x : IpTag) → count x l ≡ count x m
counts-sort l m p x = sym (count-sort x l) ∙ ap (count x) p ∙ count-sort x m

-- Whatever tags are desired and whatever tags Azure answers, no tags included, the two are equal for
-- isIPTagsUpToDate exactly if each tag occurs as often in the one as in the other.
pub is_ip_tags_up_to_date_iff :
    (t : Slice IpTag) (from : Option (List IpTag))
    → (is_ip_tags_up_to_date t from ≡ true)
      ↔ ((x : IpTag) → count x (entries t) ≡ count x (entries from))
unfolding is_ip_tags_up_to_date
is_ip_tags_up_to_date_iff t from =
    let l = entries t in
    let m = entries from in
    let same = list_eq_iff tag_eq (sort_tags m) (sort_tags l) tag_eq_iff in
    (
      λ h. counts-sort l m (ground (arith, same)),
      λ h.
          let r = lengths-counts l m h in
          let p = sort-counts l m h in ground (arith, same, nat_eq_iff (length l) (length m)),
    )
