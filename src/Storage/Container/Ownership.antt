-- ===== src/Storage/Container/Ownership.antt =====
-- What newSyncdeleter of pkg/controller/storage/container/container.go makes a container belong to.
use Prim.Native.String.{◌++◌}
use provider_azure.Prelude.{String, ◌≡◌, refl, Bool, true, false, Option, none, some, List, arith}
use provider_azure.Go.Errors.{Err, Result, ok, err}
use provider_azure.Go.Effect.{Session}
use provider_azure.Go.Panic.{Outcome, returns, panics}
use provider_azure.Vendor.{Vendor, Documented}
use provider_azure.Managed.{ConnectionDetails}
use provider_azure.Sql.Types.{SecretReference}
use provider_azure.Storage.Account.{Account}
use provider_azure.Storage.Container.{Container, OwnerReference}
use provider_azure.Storage.Container.Client.{
  ContainerUrl, BlobService, new_container_handle, with_credential, container_operations,
}
use provider_azure.Storage.Container.Controller.{Syncdeleter}
use provider_azure.Storage.Container.Manager.{
  Manager, account_name_of, or_empty, new_syncdeleter, handled, with_secret, with_reference,
  gone_or_not, orphaned, refuse, from_account, named,
}

module _ {W K U : Type 0} (service : BlobService W K U) where
  -- A URL of a container that is made with an account's name and key, at that account's address.
  abbrev pub Keyed : String → String → String → ContainerUrl W → Type 0
  Keyed name key container url =
      (k : K) × (u : U) × (service.new_shared_key_credential name key ≡ ok k)
      × (service.parse ("https://" ++ (name ++ ".blob.core.windows.net")) ≡ some u)
      × (url ≡ service.new_container_url k u container)

  new_container_handle-Keyed :
      (name key container : String) (url : ContainerUrl W)
      → new_container_handle service name key container ≡ returns (ok url)
      → Keyed name key container url
  unfolding new_container_handle
  new_container_handle-Keyed name key container url h = go _ _ refl refl h
    where
      go :
          (r : Result K) (p : Option U)
          → service.new_shared_key_credential name key ≡ r
          → service.parse ("https://" ++ (name ++ ".blob.core.windows.net")) ≡ p
          → with_credential service name container r ≡ returns (ok url)
          → Keyed name key container url
      go (err e) p c q h = cc
      go (ok k) none c q h = ground (arith, q, h)
      go (ok k) (some u) c q h = (k, u, c, q, ground (arith, q, h))

module _ {W K U : Type 0} (m : Manager W K U) where
  -- The owner references of a container owned by an account besides those it has.
  abbrev pub owned_by : Account → List OwnerReference → List OwnerReference
  owned_by acct refs =
      m.add_owner_reference (record (m.as_owner acct) { block_owner_deletion = some true }) refs

  -- `sd` works on the container `c` with the name and the key that a secret holds, and `t` is `c` with
  -- the account as another owner.
  abbrev pub Held : Account → ConnectionDetails → Container → Syncdeleter W → Container → Type 0
  Held acct secret c sd t =
      (url : ContainerUrl W) × Keyed m.service (or_empty secret.username) (or_empty secret.password)
        c.external_name url
      × (sd ≡ record { kube = m.kube; operations = container_operations url; poll = m.poll })
      × (t ≡ record c { owner_references = owned_by acct c.owner_references })

  -- The secret is the one that the account writes its connection details to, as it is read at `w`.
  abbrev pub Stored : Account → W → Container → Syncdeleter W → Container → Type 0
  Stored acct w c sd t =
      (ref : SecretReference) × (secret : ConnectionDetails) × (acct.write_connection_secret_to_ref
        ≡ some ref)
      × ((m.get_secret ref w).0 ≡ ok secret)
      × Held acct secret c sd t

module _ {W K U : Type 0} (m : Manager W K U) ⦃v : Vendor⦄ (d : Documented v) where
  refuse-err :
      {P : Type 0} (e : Err) (text : String) (s t : Session Container W) (sd : Syncdeleter W)
      → refuse m e text s ≡ (returns (ok sd), t)
      → P
  refuse-err e text s t sd h = ground (arith, d.wrap_error e text)

  handled-Held :
      (acct : Account) (secret : ConnectionDetails) (o : Outcome (Result (ContainerUrl W)))
      (s t : Session Container W) (sd : Syncdeleter W)
      → new_container_handle m.service
          (or_empty secret.username)
          (or_empty secret.password)
          s.object.external_name
        ≡ o
      → handled m acct (or_empty secret.username) o s ≡ (returns (ok sd), t)
      → Held m acct secret s.object sd t.object
  handled-Held acct secret panics s t sd k h = cc
  handled-Held acct secret (returns (err e)) s t sd k h = refuse-err e _ s t sd h
  handled-Held acct secret (returns (ok url)) s t sd k h = (
    url,
    new_container_handle-Keyed m.service _ _ _ url k,
    ground (arith, h, d.bool_ptr_value true),
    ground (arith, h, d.bool_ptr_value true),
  )

  with_secret-Held :
      (acct : Account) (ref : SecretReference) (r : Result ConnectionDetails)
      (s t : Session Container W) (sd : Syncdeleter W)
      → with_secret m acct ref r s ≡ (returns (ok sd), t)
      → (secret : ConnectionDetails) × (r ≡ ok secret) × Held m acct secret s.object sd t.object
  unfolding new_container_handle
  with_secret-Held acct ref (err e) s t sd h = refuse-err e _ s t sd h
  with_secret-Held acct ref (ok x) s t sd h = (x, refl, handled-Held acct x _ s t sd refl h)

  with_reference-Stored :
      (acct : Account) (ref : Option SecretReference) (s t : Session Container W)
      (sd : Syncdeleter W)
      → acct.write_connection_secret_to_ref ≡ ref
      → with_reference m acct ref s ≡ (returns (ok sd), t)
      → Stored m acct s.world s.object sd t.object
  with_reference-Stored acct none s t sd q h = cc
  with_reference-Stored acct (some ref) s t sd q h =
      let (secret, r, held) = with_secret-Held acct ref _ _ t sd h in (ref, secret, q, r, held)

  orphaned-err :
      {P : Type 0} (e : Err) (name : String) (o : Option Err) (s t : Session Container W)
      (sd : Syncdeleter W)
      → orphaned m e name o s ≡ (returns (ok sd), t)
      → P
  orphaned-err e name none s t sd h = refuse-err e _ s t sd h
  orphaned-err e name (some x) s t sd h = refuse-err x _ s t sd h

  gone_or_not-err :
      {P : Type 0} (b : Bool) (e : Err) (name : String) (s t : Session Container W)
      (sd : Syncdeleter W)
      → gone_or_not m b e name s ≡ (returns (ok sd), t)
      → P
  gone_or_not-err false e name s t sd h = refuse-err e _ s t sd h
  gone_or_not-err true e name s t sd h = orphaned-err e name _ _ t sd h

  -- Where newSyncdeleter returns what `delete` and `sync` work with, it has read the account that the
  -- references name, and then the secret that this account writes its connection details to. What it
  -- returns works on the container of the object's external name, at the address of the account that
  -- the secret names and with the key that the secret holds, and the object has changed only by the
  -- account, which is added to its owners as one that blocks the deletion.
  pub new_syncdeleter-Stored :
      (s t : Session Container W) (sd : Syncdeleter W)
      → new_syncdeleter m s ≡ (returns (ok sd), t)
      → (name : String) × (acct : Account) × (account_name_of s.object.references ≡ some name)
        × ((m.get_account name s.world).0 ≡ ok acct)
        × Stored m acct (m.get_account name s.world).1 s.object sd t.object
  unfolding new_syncdeleter
  new_syncdeleter-Stored s t sd h = go (account_name_of s.object.references) refl h
    where
      from :
          (name : String) (r : Result Account)
          → account_name_of s.object.references ≡ some name
          → (m.get_account name s.world).0 ≡ r
          → from_account m name r
              (record { object = s.object; world = (m.get_account name s.world).1 })
            ≡ (returns (ok sd), t)
          → (n : String) × (acct : Account) × (account_name_of s.object.references ≡ some n)
            × ((m.get_account n s.world).0 ≡ ok acct)
            × Stored m acct (m.get_account n s.world).1 s.object sd t.object
      from name (err e) n g h = gone_or_not-err _ e name _ t sd h
      from name (ok acct) n g h = (name, acct, n, g, with_reference-Stored acct _ _ t sd refl h)

      go :
          (o : Option String)
          → account_name_of s.object.references ≡ o
          → named m o s ≡ (returns (ok sd), t)
          → (n : String) × (acct : Account) × (account_name_of s.object.references ≡ some n)
            × ((m.get_account n s.world).0 ≡ ok acct)
            × Stored m acct (m.get_account n s.world).1 s.object sd t.object
      go none e h = cc
      go (some name) e h = from name _ e refl h
