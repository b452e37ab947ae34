-- ===== src/Storage/Reconcile.antt =====
-- What the two storage controllers share: the results of a reconciliation, and its timings.
use provider_azure.Prelude.{ℕ, Bool, true, false, Option}
use provider_azure.Go.Errors.{Err}

-- `reconcile.Result` of controller-runtime, a duration in nanoseconds.
pub record ReconcileResult : Type 0 where
  pub requeue : Bool
  pub requeue_after : ℕ

-- `(reconcile.Result, error)`
abbrev pub Reconciled : Type 0
Reconciled = ReconcileResult × Option Err

-- `reconcile.Result{}`
abbrev pub no_result : ReconcileResult
no_result = record { requeue = false; requeue_after = 0 }

abbrev pub result_requeue : ReconcileResult
result_requeue = record { requeue = true; requeue_after = 0 }

-- `reconcile.Result{RequeueAfter: d}`
abbrev pub requeue_in : ℕ → ReconcileResult
requeue_in d = record { requeue = false; requeue_after = d }

-- Thirty seconds.
abbrev pub requeue_on_wait : ReconcileResult
requeue_on_wait = requeue_in 30000000000
