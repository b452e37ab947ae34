-- ===== src/Storage/Container/Client.antt =====
-- pkg/clients/storage/container.go: ContainerHandle, which implements ContainerOperations.
use Prim.Native.String.{◌++◌}
use provider_azure.Prelude.{String, Bool, false, Option, none, some, [], ◌∷◌, nat_eq}
use provider_azure.Go.Errors.{Err, storage_error, Result, ok, err}
use provider_azure.Go.Maps.{GoMap}
use provider_azure.Go.Panic.{Outcome, returns, panics}
use provider_azure.Storage.Container.{ContainerOperations}

-- What `GetProperties` answers.
pub record ContainerProperties : Type 0 where
  pub blob_public_access : String
  pub new_metadata : GoMap String

-- `azblob.ContainerURL`: the calls, without access conditions.
pub record ContainerUrl (W : Type 0) : Type 0 where
  pub create : GoMap String → String → W → Option Err × W
  pub set_metadata : GoMap String → W → Option Err × W
  pub set_access_policy : String → W → Option Err × W
  pub get_properties : W → Result ContainerProperties × W
  pub delete : W → Option Err × W

-- `azblob` and `net/url`, for a credential `K` and a parsed URL `U`: `Parse` may answer nil.
pub record BlobService (W K U : Type 0) : Type 0 where
  pub new_shared_key_credential : String → String → Result K
  pub parse : String → Option U
  pub new_container_url : K → U → String → ContainerUrl W

module _ {W K U : Type 0} (service : BlobService W K U) where
  abbrev pub with_credential : String → String → Result K → Outcome (Result (ContainerUrl W))
  with_credential account_name container_name (err e) = returns (err e)
  with_credential account_name container_name (ok c) =
      elim (service.parse ("https://" ++ (account_name ++ ".blob.core.windows.net"))) [
        | none ↦ panics
        | some u ↦ returns (ok (service.new_container_url c u container_name))
      ]

  unfoldable pub new_container_handle : String → String → String → Outcome (Result (ContainerUrl W))
  new_container_handle account_name account_key container_name =
      with_credential account_name container_name
        (service.new_shared_key_credential account_name account_key)

unfoldable pub is_not_found_error : Err → Bool
is_not_found_error (storage_error status_code) = nat_eq status_code 404
is_not_found_error _ = false

unfoldable pub emtpy_meta_to_nil : GoMap String → GoMap String
emtpy_meta_to_nil none = none
emtpy_meta_to_nil (some []) = none
emtpy_meta_to_nil (some (x ∷ xs)) = some (x ∷ xs)

module _ {W : Type 0} (a : ContainerUrl W) where
  -- The metadata argument is not used.
  unfoldable pub create_container : String → GoMap String → W → Option Err × W
  create_container public_access_type metadata w = a.create (some []) public_access_type w

  abbrev metadata_set : String → Option Err × W → Option Err × W
  metadata_set public_access_type (some e, w) = (some e, w)
  metadata_set public_access_type (none, w) = a.set_access_policy public_access_type w

  unfoldable pub update_container : String → GoMap String → W → Option Err × W
  update_container public_access_type metadata w =
      metadata_set public_access_type (a.set_metadata metadata w)

  abbrev properties_of : Result ContainerProperties × W → Result (String × GoMap String) × W
  properties_of (err e, w) = (err e, w)
  properties_of (ok rs, w) = (ok (rs.blob_public_access, emtpy_meta_to_nil rs.new_metadata), w)

  unfoldable pub get_container : W → Result (String × GoMap String) × W
  unfolding emtpy_meta_to_nil
  get_container w = properties_of (a.get_properties w)

  unfoldable pub delete_container : W → Option Err × W
  delete_container w = a.delete w

  abbrev pub container_operations : ContainerOperations W
  container_operations = record {
    create = create_container;
    update = update_container;
    get = get_container;
    delete = delete_container;
  }
