-- ===== src/Cosmos/Controller.antt =====
-- pkg/controller/database/cosmosdb/managed.go: what the managed reconciler calls.
use provider_azure.Prelude.{
  ℕ, String, Bool, true, false, Option, none, some, ◌==◌, nat_eq, if◌then◌else◌,
}
use provider_azure.Go.Errors.{Err, message, Result, ok, err}
use provider_azure.Go.Panic.{Outcome, returns, panics}
use provider_azure.Go.Effect.{M, ◌>>=◌, ◌>>◌, pure, get_object, modify, call}
use provider_azure.Vendor.{Vendor, Condition, creating, deleting, available, unavailable}
use provider_azure.Managed.{no_details, no_observation, Observed, Detailed, of_kind}
use provider_azure.Cosmos.{CosmosAccount, SentAccount, DatabaseAccount}
use provider_azure.Cosmos.Properties.{
  Sorter, to_database_account_create_or_update, check_equal_database_properties,
  update_cosmos_db_account_observation,
}

-- The SDK's client: each call takes the resource group and the name; `check_name_exists`, which
-- takes the name, answers with the status code of the response, if there is one, and an error.
pub record AccountClient (W : Type 0) : Type 0 where
  pub check_name_exists : String → W → (Option ℕ × Option Err) × W
  pub get : String → String → W → Result DatabaseAccount × W
  pub create_or_update : String → String → SentAccount → W → Option Err × W
  pub delete : String → String → W → Option Err × W

abbrev pub err_not_account : Err
err_not_account = message "managed resource is not a Database Account"

module _ {W : Type 0} (client : AccountClient W) (sort : Sorter) ⦃v : Vendor⦄ where
  abbrev set_condition : Condition → M CosmosAccount W (Unit {0})
  set_condition c = modify λ r. record r { conditions = v.set_condition c r.conditions }

  abbrev is_404 : Option ℕ → Bool
  is_404 none = false
  is_404 (some status) = nat_eq status 404

  abbrev condition_of : String → Condition
  condition_of state = if state == "Succeeded" then available else unavailable

  abbrev pub observed : DatabaseAccount → CosmosAccount → CosmosAccount
  observed az r =
      let o = update_cosmos_db_account_observation az in
      record r {
        at_provider = some o;
        conditions = v.set_condition (condition_of o.state) r.conditions;
      }

  abbrev judged : Outcome Bool → M CosmosAccount W (Outcome Observed)
  judged panics = pure panics
  judged (returns up) =
      pure
        (returns (record no_observation { resource_exists = true; resource_up_to_date = up }, none))

  abbrev fetched : Result DatabaseAccount → M CosmosAccount W (Outcome Observed)
  fetched (err x) = pure (returns (no_observation, v.wrap (some x) "cannot get Database Account"))
  fetched (ok az) = do
    modify (observed az)
    r ← get_object
    judged (check_equal_database_properties sort r.for_provider.properties az)

  abbrev checked : Option ℕ × Option Err → M CosmosAccount W (Outcome Observed)
  checked (status, x) = if is_404 status then pure (returns (no_observation, none)) else elim x [
    | some e ↦ pure (returns (no_observation, v.wrap (some e) "cannot get Database Account"))
    | none ↦ (do
      r ← get_object
      az ← call (client.get r.for_provider.resource_group_name r.external_name)
      fetched az)
  ]

  unfoldable pub observe_account : M CosmosAccount W (Outcome Observed)
  unfolding check_equal_database_properties
  observe_account = do
    r ← get_object
    answer ← call (client.check_name_exists r.external_name)
    checked answer

  unfoldable pub create_account : M CosmosAccount W Detailed
  unfolding to_database_account_create_or_update
  create_account = do
    set_condition creating
    r ← get_object
    x ← call (
        client.create_or_update r.for_provider.resource_group_name r.external_name
          (to_database_account_create_or_update r.for_provider))
    pure (no_details, v.wrap x "cannot create Database Account")

  unfoldable pub delete_account : M CosmosAccount W (Option Err)
  delete_account = do
    set_condition deleting
    r ← get_object
    x ← call (client.delete r.for_provider.resource_group_name r.external_name)
    pure (v.wrap x "cannot delete Database Account")

  unfoldable pub observe : M (Option CosmosAccount) W (Outcome Observed)
  unfolding observe_account
  observe = of_kind (returns (no_observation, some err_not_account)) observe_account

  unfoldable pub create : M (Option CosmosAccount) W Detailed
  unfolding create_account
  create = of_kind (no_details, some err_not_account) create_account

  -- Update creates the account again.
  unfoldable pub update : M (Option CosmosAccount) W Detailed
  unfolding create
  update = do (d, x) ← create; pure (no_details, x)

  unfoldable pub delete : M (Option CosmosAccount) W (Option Err)
  unfolding delete_account
  delete = of_kind (some err_not_account) delete_account
