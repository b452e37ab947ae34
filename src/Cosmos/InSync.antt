-- ===== src/Cosmos/InSync.antt =====
-- Whether an account that Azure has just as it was sent counts as up to date.
use provider_azure.Prelude.{
  ℕ, ◌<◌, ◌^◌, ◌≡◌, refl, subst, ap, ◌≢◌, ◌↔◌, Bool, true, false, ◌&&◌, Option, none, some, List,
  [], ◌∷◌, map, arith, eq_iff, eq_refl, nat_eq, nat_eq_iff, bool_eq_iff, list_eq_refl,
}
use provider_azure.Go.Num.{int32_of_int-int_of_int32}
use provider_azure.Go.Maps.{Slice, entries}
use provider_azure.Go.Errors.{ok}
use provider_azure.Go.Panic.{returns}
use provider_azure.Go.Effect.{Session}
use provider_azure.Managed.{no_observation}
use provider_azure.Vendor.{Vendor, Documented}
use provider_azure.Azure.Convert.{to_bool, to_int, to_string}
use provider_azure.Cosmos.{
  CosmosAccount, Pointer, ConsistencyPolicy, AccountLocation, AccountProperties, AzurePolicy,
  SentProperties, AzureProperties, DatabaseAccount,
}
use provider_azure.Cosmos.Controller.{AccountClient, observed, observe_account}
use provider_azure.Cosmos.Properties.{
  to_location, from_location, to_database_locations, from_database_locations, same_pointer,
  same_policy, from_database_consistency_policy, to_database_consistency_policy, location_eq,
  Sorter, check_equal_locations, equal_bool_if_not_null, equal_consistency_policy_if_not_null,
  to_database_properties, check_equal_database_properties,
}

-- A value that has been read from an answer: the same, at an address of its own.
abbrev pub Fresh : {A : Type 0} → Option (Pointer A) → Option (Pointer A) → Type 0
Fresh none none = Unit
Fresh none (some q) = ⊥
Fresh (some p) none = ⊥
Fresh (some p) (some q) = (p.pointee ≡ q.pointee) × (p.address ≢ q.address)

abbrev pub FreshPolicy : Option AzurePolicy → Option AzurePolicy → Type 0
FreshPolicy none none = Unit
FreshPolicy none (some b) = ⊥
FreshPolicy (some a) none = ⊥
FreshPolicy (some a) (some b) =
    (a.default_consistency_level ≡ b.default_consistency_level)
    × Fresh a.max_staleness_prefix b.max_staleness_prefix
    × Fresh a.max_interval_in_seconds b.max_interval_in_seconds

-- Azure has what was sent.
pub record Applied (sent : SentProperties) (az : AzureProperties) : Type 0 where
  pub consistency_policy : FreshPolicy sent.consistency_policy az.consistency_policy
  pub locations : sent.locations ≡ az.read_locations
  pub failover : sent.enable_automatic_failover ≡ az.enable_automatic_failover
  pub multiple_writes : sent.enable_multiple_write_locations ≡ az.enable_multiple_write_locations

-- A policy without the two numbers.
abbrev pub Unlimited : Option ConsistencyPolicy → Type 0
Unlimited none = Unit
Unlimited (some p) = (p.max_staleness_prefix ≡ none) × (p.max_interval_in_seconds ≡ none)

abbrev pub PrioritiesFit : List AccountLocation → Type 0
PrioritiesFit [] = Unit
PrioritiesFit (l ∷ ls) = (l.failover_priority < 2 ^ 32) × PrioritiesFit ls

location_eq_refl : (l : AccountLocation) → location_eq l l ≡ true
location_eq_refl l = ground (
  arith,
  eq_refl l.location_name,
  nat_eq_iff l.failover_priority l.failover_priority,
  bool_eq_iff l.is_zone_redundant l.is_zone_redundant,
)

same_pointer-Fresh :
    {A : Type 0} (p q : Option (Pointer A)) → Fresh p q → (same_pointer p q ≡ true) ↔ (p ≡ none)
same_pointer-Fresh none none h = (λ e. refl, λ e. refl)
same_pointer-Fresh none (some q) h = absurd h
same_pointer-Fresh (some p) none h = absurd h
same_pointer-Fresh (some p) (some q) h = ground (arith, nat_eq_iff p.address q.address, h.1)

policy-Fresh :
    (p : Option ConsistencyPolicy) (q : Option AzurePolicy)
    → FreshPolicy (to_database_consistency_policy p) q
    → (b : Bool) × (equal_consistency_policy_if_not_null p (from_database_consistency_policy q)
        ≡ returns b)
      × ((b ≡ true) ↔ Unlimited p)
unfolding equal_consistency_policy_if_not_null
policy-Fresh none q h = (true, refl, (λ e. tt, λ e. refl))
policy-Fresh (some p) none h = absurd h
policy-Fresh (some p) (some q) h = (
  same_policy p (record {
    default_consistency_level = q.default_consistency_level;
    max_staleness_prefix = q.max_staleness_prefix;
    max_interval_in_seconds = q.max_interval_in_seconds;
  }),
  refl,
  ground (
    arith,
    eq_iff p.default_consistency_level q.default_consistency_level,
    h.0,
    same_pointer-Fresh p.max_staleness_prefix q.max_staleness_prefix h.1,
    same_pointer-Fresh p.max_interval_in_seconds q.max_interval_in_seconds h.2,
  ),
)

not_404 : (status : ℕ) → status ≢ 404 → nat_eq status 404 ≡ false
not_404 status n = ground (arith, nat_eq_iff status 404)

all_iff :
    {P Q : Type 0} {b l f m : Bool}
    → l ≡ true
    → f ≡ true
    → (b ≡ true) ↔ P
    → (m ≡ true) ↔ Q
    → ((b && (l && f && m)) ≡ true) ↔ (Q × P)
all_iff {b = b} {l = l} {f = f} {m = m} x y p q = ground (arith, x, y, p, q)

module _ ⦃v : Vendor⦄ (d : Documented v) where
  from_location-to_location :
      (l : AccountLocation) → l.failover_priority < 2 ^ 32 → from_location (to_location l) ≡ l
  unfolding to_string to_int to_bool
  from_location-to_location l h =
      rw
        (
          d.string_value l.location_name,
          d.int32_value l.failover_priority,
          d.bool_value l.is_zone_redundant,
          int32_of_int-int_of_int32 l.failover_priority h,
        )
        refl

  map-locations :
      (ls : List AccountLocation) → PrioritiesFit ls → map from_location (map to_location ls) ≡ ls
  map-locations [] h = refl
  map-locations (l ∷ ls) h = cc (from_location-to_location l h.0, map-locations ls h.1)

  locations-sent :
      (sort : Sorter) (ls : Slice AccountLocation)
      → PrioritiesFit (entries ls)
      → check_equal_locations sort ls (from_database_locations (to_database_locations ls)) ≡ true
  unfolding check_equal_locations
  locations-sent sort none h = refl
  locations-sent sort (some ls) h =
      rw (map-locations ls h) (ground (arith, list_eq_refl location_eq (sort ls) location_eq_refl))

  equal_bool_iff :
      (a b : Option Bool) → (equal_bool_if_not_null a b ≡ true) ↔ (to_bool a ≡ to_bool b)
  unfolding equal_bool_if_not_null
  equal_bool_iff a b = bool_eq_iff (to_bool a) (to_bool b)

  check_equal_database_properties-sent :
      (sort : Sorter) (p : AccountProperties) (az : DatabaseAccount)
      → Applied (to_database_properties p) az.properties
      → PrioritiesFit (entries p.locations)
      → (b : Bool) × (check_equal_database_properties sort p az ≡ returns b)
        × ((b ≡ true) ↔ (
            (to_bool p.enable_multiple_write_locations ≡ to_bool p.enable_automatic_failover)
            × Unlimited p.consistency_policy))
  unfolding check_equal_database_properties to_database_properties
  check_equal_database_properties-sent sort p az a fit =
      let (b, q, iff) =
        policy-Fresh p.consistency_policy az.properties.consistency_policy a.consistency_policy in
      let l =
        subst
          (λ (r : Option _).
            check_equal_locations sort p.locations (from_database_locations r) ≡ true)
          a.locations (locations-sent sort p.locations fit) in
      let f = (equal_bool_iff _ _).1 (ap (λ (o : Option Bool). to_bool o) a.failover) in
      let m =
        subst
          (λ (o : Option Bool).
            (equal_bool_if_not_null p.enable_multiple_write_locations o ≡ true)
            ↔ (to_bool p.enable_multiple_write_locations ≡ to_bool p.enable_automatic_failover))
          a.multiple_writes
          (equal_bool_iff p.enable_multiple_write_locations p.enable_automatic_failover) in
      (b && _, rw q refl, all_iff l f iff m)

module _ {W : Type 0} (client : AccountClient W) (sort : Sorter) ⦃v : Vendor⦄
    (d : Documented v) where
  -- Where Azure has the account and answers with just the properties that Create and Update send
  -- for it, Observe does not panic, however locations are sorted; it returns no error, says that the
  -- account exists and records Azure's answer. The account counts as up to date exactly if the user
  -- wants writes to multiple locations just if he wants automatic failover, and sets no consistency
  -- policy or one without the two numbers.
  pub observe_account-sent :
      (s : Session CosmosAccount W) (az : DatabaseAccount) (status : ℕ) (w w' : W)
      → client.check_name_exists s.object.external_name s.world ≡ ((some status, none), w)
      → status ≢ 404
      → client.get s.object.for_provider.resource_group_name s.object.external_name w ≡ (ok az, w')
      → Applied (to_database_properties s.object.for_provider.properties) az.properties
      → PrioritiesFit (entries s.object.for_provider.properties.locations)
      → let p = s.object.for_provider.properties in
        (b : Bool) × (observe_account client sort s ≡ (
          returns (record no_observation { resource_exists = true; resource_up_to_date = b }, none),
          record { object = observed client sort az s.object; world = w' },
        ))
        × ((b ≡ true) ↔ (
            (to_bool p.enable_multiple_write_locations ≡ to_bool p.enable_automatic_failover)
            × Unlimited p.consistency_policy))
  unfolding observe_account
  observe_account-sent s az status w w' e n g a fit =
      let (b, q, iff) =
        check_equal_database_properties-sent d sort s.object.for_provider.properties az a fit in
      (b, rw (e, not_404 status n, g, q) refl, iff)
