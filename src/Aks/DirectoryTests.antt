-- ===== src/Aks/DirectoryTests.antt =====
-- A cluster over a concrete directory: the world counts the applications by the filter that finds
-- them, by which they are identified too.
use Prim.Native.Nat.{zero, suc}
use text.Mathlib.TextLemmas.{append_cancel_left, append_cancel_right}
use provider_azure.Prelude.{
  ℕ, String, ◌≡◌, refl, sym, ap, subst, ◌≢◌, Bool-cases, inl, inr, Option, none, some, List, [],
  ◌∷◌, ◌==◌, eq_refl, eq_iff, if◌then◌else◌,
}
use provider_azure.Go.Errors.{Err, message, Result, ok, err}
use provider_azure.Vendor.Standard.{standard, standard-Documented}
use provider_azure.Aks.Params.{name_filter}
use provider_azure.Aks.Sdk.{Application, AggregateClient}
use provider_azure.Aks.Client.{ensure_managed_cluster, delete_managed_cluster}
use provider_azure.Aks.Tests.{cluster}
use provider_azure.Aks.Directory.{Directory}
use provider_azure.Aks.Ownership.{start, again, delete_managed_cluster-ensure_managed_cluster}

abbrev World : Type 0
World = String → ℕ

abbrev app_of : String → Application
app_of f = record { app_id = some "app"; object_id = some f }

abbrev replicate : ℕ → Application → List Application
replicate zero a = []
replicate (suc n) a = a ∷ replicate n a

abbrev set : String → ℕ → World → World
set k n w f = if f == k then n else w f

abbrev create_by : Option String → World → Result Application × World
create_by none w = (err (message "a name is required"), w)
create_by (some n) w = let f = name_filter n in (ok (app_of f), set f (suc (w f)) w)

abbrev client : AggregateClient World
client = record {
  role_assignments = record {
    subscription_id = "sub";
    list_for_scope_complete = λ s f w. (([], none), w);
    create = λ s n p w. (none, w);
  };
  managed_clusters = record {
    get = λ g n w. (err (message "unavailable"), w);
    create_or_update = λ g n p w. (none, w);
    delete = λ g n w. (none, w);
    list_cluster_admin_credentials = λ g n w. (ok none, w);
  };
  applications = record {
    list_complete = λ f w. ((replicate (w f) (app_of f), none), w);
    update_password_credentials = λ i p w. (none, w);
    create = λ p w. create_by p.display_name w;
    delete = λ i w. (none, set i 0 w);
    get_service_principals_id_by_app_id = λ a w. (ok (some "p"), w);
  };
  service_principals = record {
    create = λ p w. (ok (record { object_id = some "p" }), w);
    get = λ i w. (ok (record { object_id = some "p" }), w);
  };
  runtime = record { new_uuid = λ w. (("uuid", none), w); now = λ w. (0, w); add_years = λ n t. t };
}

abbrev apps : World → String → List Application
apps w n = replicate (w (name_filter n)) (app_of (name_filter n))

set-same : (k : String) (n : ℕ) (w : World) → set k n w k ≡ n
set-same k n w = rw (eq_refl k) refl

name_filter_inj : (m n : String) → name_filter m ≡ name_filter n → m ≡ n
name_filter_inj m n h = append_cancel_right m n "'" (append_cancel_left "displayName eq '" _ _ h)

set-other :
    (m n : String) (k : ℕ) (w : World)
    → m ≢ n
    → set (name_filter n) k w (name_filter m) ≡ w (name_filter m)
set-other m n k w h = elim (Bool-cases (name_filter m == name_filter n)) [
  | inl e ↦ absurd (h (name_filter_inj m n ((eq_iff (name_filter m) (name_filter n)).0 e)))
  | inr e ↦ rw e refl
]

-- The world `u` is `w` with the application `a` more of the name `n`.
abbrev Grown : String → Application → World → World → Type 0
Grown n a w u = (apps u n ≡ a ∷ apps w n) × ((m : String) → m ≢ n → apps u m ≡ apps w m)

grown :
    (n : String) (w : World) → let f = name_filter n in Grown n (app_of f) w (set f (suc (w f)) w)
grown n w =
    let f = name_filter n in
    (
      ap (λ (k : ℕ). replicate k (app_of f)) (set-same f (suc (w f)) w),
      λ m h. ap (λ (k : ℕ). replicate k (app_of (name_filter m))) (set-other m n (suc (w f)) w h),
    )

created :
    (o : Option String) (n : String) (a : Application) (w w' : World)
    → o ≡ some n
    → create_by o w ≡ (ok a, w')
    → Grown n a w w'
created none n a w w' q h = absurd (cc q)
created (some k) n a w w' q h =
    let e : k ≡ n = cc q in
    let b : app_of (name_filter k) ≡ a = cc h in
    subst (λ j. Grown j a w w') e
      (subst (λ u. Grown k a w u) (ap (λ (r : Result Application × World). r.1) h)
        (subst (λ (x : Application). Grown k x w (set (name_filter k) (suc (w (name_filter k))) w))
          b (grown k w)))

not_created :
    (o : Option String) (e : Err) (w w' : World) → create_by o w ≡ (err e, w') → apps w' ≡ apps w
not_created none e w w' h = ap (λ (r : Result Application × World). apps r.1) (sym h)
not_created (some n) e w w' h = absurd (cc h)

only_app : (f : String) (k : ℕ) (a : Application) → replicate k (app_of f) ≡ a ∷ [] → app_of f ≡ a
only_app f zero a h = absurd (cc h)
only_app f (suc k) a h = cc h

-- The world `u` is `w` without an application of the name `n`.
abbrev Cleared : String → World → World → Type 0
Cleared n w u = (apps u n ≡ []) × ((m : String) → m ≢ n → apps u m ≡ apps w m)

deleted :
    (n : String) (a : Application) (w : World)
    → apps w n ≡ a ∷ []
    → Cleared n w (set (standard.string a.object_id) 0 w)
deleted n a w h =
    let f = name_filter n in
    subst (λ (x : Application). Cleared n w (set (standard.string x.object_id) 0 w))
      (only_app f (w f) a h)
      (
        ap (λ (k : ℕ). replicate k (app_of f)) (set-same f 0 w),
        λ m q. ap (λ (k : ℕ). replicate k (app_of (name_filter m))) (set-other m n 0 w q),
      )

directory : Directory client ⦃v = standard⦄
directory = record {
  apps = apps;
  searched = λ n w. refl;
  created = λ p n a w w' q h. created p.display_name n a w w' q h;
  not_created = λ p e w w' h. not_created p.display_name e w w' h;
  deleted = λ n a x w w' h q z.
      subst (λ u. Cleared n w u) (ap (λ (r : Option Err × World). r.1) q) (deleted n a w h);
  uuid_keeps = λ w. refl;
  now_keeps = λ w. refl;
  search_keeps = λ f w. refl;
  update_keeps = λ i l w. refl;
  find_principal_keeps = λ i w. refl;
  create_principal_keeps = λ p w. refl;
  get_principal_keeps = λ i w. refl;
  list_assignments_keeps = λ s f w. refl;
  create_assignment_keeps = λ s n p w. refl;
  put_cluster_keeps = λ g n p w. refl;
  delete_cluster_keeps = λ g n w. refl;
}

abbrev empty : World
empty f = 0

abbrev once : World
once = (ensure_managed_cluster client ⦃v = standard⦄ cluster "first" empty).1

abbrev twice : World
twice = (ensure_managed_cluster client ⦃v = standard⦄ cluster "second" once).1

abbrev gone : World
gone = (delete_managed_cluster client ⦃v = standard⦄ cluster twice).1

delete_managed_cluster-ensure_managed_cluster_example :
    ((a : Application) × (apps twice "prod" ≡ a ∷ []))
    × (apps gone "prod" ≡ [])
    × ((m : String) → m ≢ "prod" → apps gone m ≡ apps empty m)
unfolding ensure_managed_cluster delete_managed_cluster directory
delete_managed_cluster-ensure_managed_cluster_example =
    delete_managed_cluster-ensure_managed_cluster client ⦃v = standard⦄ directory
      standard-Documented cluster empty once twice "second" tt (again "first" once start refl) refl
      refl refl
