-- ===== src/Go/Errors.antt =====
-- Go's `error` values, by the dynamic types that the program tests for.
use provider_azure.Prelude.{ℕ, String, Option, none, some}

-- The field `StatusCode` of `autorest.DetailedError` is an `interface{}`.
pub data StatusCode : Type 0 where
  int_code : ℕ → StatusCode
  other_code : String → StatusCode

pub data Err : Type 0 where
  message : String → Err  -- errors.New, and errors of types that no code tests for
  wrapped : String → Err → Err  -- errors.Wrap of an error that is not nil
  detailed : StatusCode → Err  -- autorest.DetailedError
  storage_error : ℕ → Err  -- azblob.StorageError, by the status code of its response
  kube_not_found : Err  -- an API server's error for which apierrors.IsNotFound holds
  kube_already_exists : Err  -- one for which apierrors.IsAlreadyExists holds

-- What a Go function returns as `(value, error)` where the value is zero beside an error.
pub data Result {ℓ} (A : Type ℓ) : Type ℓ where
  ok : A → Result A
  err : Err → Result A

abbrev pub error_of {ℓ} : {A : Type ℓ} → Result A → Option Err
error_of (ok a) = none
error_of (err e) = some e
