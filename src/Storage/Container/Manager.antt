-- ===== src/Storage/Container/Manager.antt =====
-- pkg/controller/storage/container/container.go: Reconcile and newSyncdeleter.
use Prim.Native.String.{◌++◌}
use provider_azure.Prelude.{
  ℕ, String, Bool, true, false, ◌&&◌, Option, none, some, List, ◌==◌, if◌then◌else◌,
}
use provider_azure.Go.Errors.{Err, message, Result, ok, err}
use provider_azure.Go.Effect.{Session, M, ◌>>=◌, ◌>>◌, pure, get_object, modify, call}
use provider_azure.Go.Panic.{Outcome, returns, panics}
use provider_azure.Vendor.{Vendor}
use provider_azure.Managed.{ConnectionDetails, kube_update}
use provider_azure.Azure.Auth.{Managed}
use provider_azure.Sql.Types.{SecretReference}
use provider_azure.Storage.Reconcile.{Reconciled, no_result}
use provider_azure.Storage.Account.{Account}
use provider_azure.Storage.Account.Controller.{is_kube_not_found}
use provider_azure.Storage.Container.{Container, OwnerReference}
use provider_azure.Storage.Container.Client.{
  ContainerUrl, BlobService, new_container_handle, container_operations,
}
use provider_azure.Storage.Container.Controller.{
  ContainerKube, Syncdeleter, finalizer, fail_with, sync, delete,
}

-- `Reconciler` of the package: the API server for containers, accounts and secrets, the blob
-- service, crossplane-runtime's owner references, and the text of a namespaced name.
pub record Manager (W K U : Type 0) : Type 0 where
  pub kube : ContainerKube W
  pub get_account : String → W → Result Account × W
  pub get_secret : SecretReference → W → Result ConnectionDetails × W
  pub service : BlobService W K U
  pub as_owner : Account → OwnerReference
  pub add_owner_reference : OwnerReference → List OwnerReference → List OwnerReference
  pub key_text : SecretReference → String
  pub poll : ℕ

-- `ref != nil && ref.Name != ""`
abbrev given : Option String → Option String
given none = none
given (some name) = if name == "" then none else some name

-- The `switch` of newSyncdeleter.
abbrev pub account_name_of : Managed → Option String
account_name_of refs = elim (given refs.provider_config_ref) [
  | some name ↦ some name
  | none ↦ given refs.provider_ref
]

abbrev pub or_empty : Option String → String
or_empty none = ""
or_empty (some s) = s

abbrev is_some : Option String → Bool
is_some none = false
is_some (some _) = true

module _ {W K U : Type 0} (m : Manager W K U) ⦃v : Vendor⦄ where
  -- `(syncdeleter, error)`, or a panic.
  abbrev pub Made : Type 0
  Made = Outcome (Result (Syncdeleter W))

  -- `nil, errors.Wrapf(err, text)` for an error that is not nil.
  abbrev pub refuse : Err → String → M Container W Made
  refuse e text = elim (v.wrap (some e) text) [
    | some x ↦ pure (returns (err x))
    | none ↦ pure (returns (err e))
  ]

  abbrev pub handled : Account → String → Outcome (Result (ContainerUrl W)) → M Container W Made
  handled acct account_name panics = pure panics
  handled acct account_name (returns (err e)) = do
    c ← get_object
    refuse e (
        "failed to create client handle: "
        ++ (c.external_name ++ (", storage account: " ++ account_name)))
  handled acct account_name (returns (ok url)) = do
    modify λ c. record c {
      owner_references =
          m.add_owner_reference
            (record (m.as_owner acct) { block_owner_deletion = v.bool_ptr true })
            c.owner_references;
    }
    pure (
        returns
          (ok (record { kube = m.kube; operations = container_operations url; poll = m.poll })))

  abbrev pub with_secret : Account → SecretReference → Result ConnectionDetails → M Container W Made
  with_secret acct ref (err e) =
      refuse e ("failed to retrieve storage account secret: " ++ m.key_text ref)
  with_secret acct ref (ok s) = do
    c ← get_object
    handled acct (or_empty s.username)
        (new_container_handle m.service (or_empty s.username) (or_empty s.password) c.external_name)

  abbrev pub with_reference : Account → Option SecretReference → M Container W Made
  with_reference acct none =
      pure (returns (err (message "account does not have a connection secret")))
  with_reference acct (some ref) = do s ← call (m.get_secret ref); with_secret acct ref s

  abbrev pub orphaned : Err → String → Option Err → M Container W Made
  orphaned e name (some x) = refuse x "failed to update after removing finalizer"
  orphaned e name none = refuse e ("failed to retrieve storage account: " ++ name)

  -- Whether the account is gone while the container is being deleted.
  abbrev pub gone_or_not : Bool → Err → String → M Container W Made
  gone_or_not false e name = refuse e ("failed to retrieve storage account: " ++ name)
  gone_or_not true e name = do
    modify λ c. record c { finalizers = v.remove_finalizer finalizer c.finalizers }
    x ← kube_update m.kube.update
    orphaned e name x

  abbrev pub no_account : Err → String → M Container W Made
  no_account e name = do
    c ← get_object
    gone_or_not (is_kube_not_found e && is_some c.deletion_timestamp) e name

  abbrev pub from_account : String → Result Account → M Container W Made
  from_account name (err e) = no_account e name
  from_account name (ok acct) = with_reference acct acct.write_connection_secret_to_ref

  abbrev pub named : Option String → M Container W Made
  named none = pure (returns (err (message "neither providerConfigRef nor providerRef is given")))
  named (some name) = do acct ← call (m.get_account name); from_account name acct

  unfoldable pub new_syncdeleter : M Container W Made
  unfolding new_container_handle
  new_syncdeleter = do c ← get_object; named (account_name_of c.references)

  abbrev connected : Made → M Container W (Outcome Reconciled)
  connected panics = pure panics
  connected (returns (err e)) = do x ← fail_with m.kube e; pure (returns x)
  connected (returns (ok sd)) = do
    c ← get_object
    x ← elim c.deletion_timestamp [ some _ ↦ delete sd | none ↦ sync sd ]
    pure (returns x)

  abbrev initialized : (Container × Option Err) × W → Outcome Reconciled × Session Container W
  initialized ((c, some e), w) = (returns (no_result, some e), record { object = c; world = w })
  initialized ((c, none), w) = (new_syncdeleter >>= connected) (record { object = c; world = w })

  abbrev read : Result Container × W → Outcome Reconciled × W
  read (err e, w) = (returns (no_result, v.ignore is_kube_not_found (some e)), w)
  read (ok c, w) = let (x, s) = initialized (m.kube.initialize c w) in (x, s.world)

  unfoldable pub reconcile : String → W → Outcome Reconciled × W
  unfolding new_syncdeleter sync delete
  reconcile name w = read (m.kube.get name w)
