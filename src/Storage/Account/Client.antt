-- ===== src/Storage/Account/Client.antt =====
-- pkg/clients/storage/account.go: AccountHandle, which implements AccountOperations.
use Prim.Native.String.{◌++◌}
use provider_azure.Prelude.{String, Bool, true, Option, none, some, List}
use provider_azure.Go.Errors.{Err, message, Result, ok, err}
use provider_azure.Go.Panic.{Outcome, returns, panics}
use provider_azure.Vendor.{Vendor}
use provider_azure.Storage.Sdk.{AzureAccount, AccountCreateParameters, AccountUpdateParameters}
use provider_azure.Storage.Account.{AccountKey, AccountOperations}

-- `storage.CheckNameAvailabilityResult`
pub record NameAvailability : Type 0 where
  pub name_available : Option Bool
  pub reason : String
  pub message : Option String

-- `storage.AccountsClient` of the SDK: calls take the resource group and the name of the account,
-- and a creation answers with a future `F`.
pub record AccountsClient (W F : Type 0) : Type 0 where
  pub check_name_availability : Option String → Option String → W → Result NameAvailability × W
  pub create : String → String → AccountCreateParameters → W → Result F × W
  pub wait_for_completion : F → W → Option Err × W
  pub result : F → W → Result AzureAccount × W
  pub update : String → String → AccountUpdateParameters → W → Result AzureAccount × W
  pub get_properties : String → String → W → Result AzureAccount × W
  pub delete : String → String → W → Option Err × W
  pub list_keys : String → String → W → Result (Option (List AccountKey)) × W

pub record AccountHandle (W F : Type 0) : Type 0 where
  pub client : AccountsClient W F
  pub group_name : String
  pub account_name : String

-- `*rs.Keys`
abbrev keys_of : Result (Option (List AccountKey)) → Outcome (Result (List AccountKey))
keys_of (err e) = returns (err e)
keys_of (ok none) = panics
keys_of (ok (some keys)) = returns (ok keys)

module _ {W F : Type 0} (a : AccountHandle W F) where
  unfoldable pub update_account : AccountUpdateParameters → W → Result AzureAccount × W
  update_account params w = a.client.update a.group_name a.account_name params w

  unfoldable pub get_account : W → Result AzureAccount × W
  get_account w = a.client.get_properties a.group_name a.account_name w

  unfoldable pub delete_account : W → Option Err × W
  delete_account w = a.client.delete a.group_name a.account_name w

  unfoldable pub list_keys : W → Outcome (Result (List AccountKey)) × W
  list_keys w = let (rs, w') = a.client.list_keys a.group_name a.account_name w in (keys_of rs, w')

module _ {W F : Type 0} (a : AccountHandle W F) ⦃v : Vendor⦄ where
  abbrev availability : Result NameAvailability → Option Err
  availability (err e) = some e
  availability (ok r) = elim r.name_available [
    | some true ↦ none
    | _ ↦ some (message (r.reason ++ (" - " ++ v.string r.message)))
  ]

  unfoldable pub is_account_name_available : String → W → Option Err × W
  is_account_name_available name w =
      let (r, w') =
        a.client.check_name_availability (v.string_ptr name)
          (v.string_ptr "Microsoft.Storage/storageAccounts") w in
      (availability r, w')

  -- An error that is not nil, wrapped.
  abbrev failing : Err → String → W → Result AzureAccount × W
  failing e text w = elim (v.wrap (some e) text) [ some x ↦ (err x, w) | none ↦ (err e, w) ]

  abbrev finished : F → Option Err × W → Result AzureAccount × W
  finished future (some e, w) = failing e "failed to finish creating storage account" w
  finished future (none, w) = a.client.result future w

  abbrev waiting : Result F × W → Result AzureAccount × W
  waiting (err e, w) = failing e "failed to start creating storage account" w
  waiting (ok future, w) = finished future (a.client.wait_for_completion future w)

  abbrev checked : AccountCreateParameters → Option Err × W → Result AzureAccount × W
  checked params (some e, w) = failing e "failed to check account name availability" w
  checked params (none, w) = waiting (a.client.create a.group_name a.account_name params w)

  unfoldable pub create_account : AccountCreateParameters → W → Result AzureAccount × W
  unfolding is_account_name_available
  create_account params w = checked params (is_account_name_available a.account_name w)

  -- `NewAccountHandle` as an `AccountOperations`.
  abbrev pub account_operations : AccountOperations W
  account_operations = record {
    create = create_account;
    update = update_account a;
    get = get_account a;
    delete = delete_account a;
    is_account_name_available = is_account_name_available;
    list_keys = list_keys a;
  }
