-- ===== src/Network/Tags.antt =====
-- pkg/clients/network/network.go: isIPTagsUpToDate. The tags in an answer of Azure, which have two
-- pointers, are taken to have both.
pub mod Multiset
use Prim.Native.Nat.{Ordering}
use Prim.Native.String.{compare}
use provider_azure.Prelude.{
  String, Bool, true, false, ◌&&◌, not, Option, List, [], ◌∷◌, ◌==◌, nat_eq, list_eq, if◌then◌else◌,
}
use provider_azure.Go.Maps.{Slice, entries, length}

pub record IpTag : Type 0 where
  pub ip_tag_type : String
  pub tag : String

abbrev pub is_lt : Ordering → Bool
is_lt Ordering.lt = true
is_lt _ = false

-- The closures passed to sort.Slice.
abbrev pub tag_less : IpTag → IpTag → Bool
tag_less a b = elim (compare a.ip_tag_type b.ip_tag_type) [
  | Ordering.lt ↦ true
  | Ordering.gt ↦ false
  | Ordering.eq ↦ is_lt (compare a.tag b.tag)
]

unfoldable pub less : IpTag → IpTag → Bool
less a b = tag_less a b

-- `sort.Slice`: the order is total, so that every way of sorting has this result.
abbrev pub insert_tag : IpTag → List IpTag → List IpTag
insert_tag x [] = x ∷ []
insert_tag x (y ∷ l) = let rest = insert_tag x l in if less y x then y ∷ rest else x ∷ y ∷ l

abbrev pub sort_tags : List IpTag → List IpTag
sort_tags [] = []
sort_tags (x ∷ l) = insert_tag x (sort_tags l)

abbrev pub tag_eq : IpTag → IpTag → Bool
tag_eq a b = a.ip_tag_type == b.ip_tag_type && a.tag == b.tag

-- The slices are sorted, and then compared from the front.
unfoldable pub is_ip_tags_up_to_date : Slice IpTag → Option (List IpTag) → Bool
is_ip_tags_up_to_date t from =
    if not (nat_eq (length (entries t)) (length (entries from)))
    then false
    else list_eq tag_eq (sort_tags (entries from)) (sort_tags (entries t))
