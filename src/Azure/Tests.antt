-- ===== src/Azure/Tests.antt =====
-- Concrete runs of pkg/clients/azure.go.
use provider_azure.Prelude.{
  ℕ, ◌+◌, ◌-◌, ◌^◌, String, ◌≡◌, refl, ◌≢◌, ◌⊎◌, ◌↔◌, Option, none, some, [], arith,
}
use provider_azure.Go.Num.{FitsInt32}
use provider_azure.Go.Errors.{Err, message}
use provider_azure.Vendor.Standard.{standard, standard-Documented}
use provider_azure.Azure.Convert.{to_int, to_int32_ptr}
use provider_azure.Azure.Convert.RoundTrip.{to_int-to_int32_ptr}
use provider_azure.Azure.Operation.{AsyncOperation, Futures, fetch_async_operation, future_json}
use provider_azure.Azure.Operation.Polling.{Told, fetch_async_operation_lem}

-- 2 ^ 31 becomes negative.
to_int-to_int32_ptr_example :
    (to_int ⦃v = standard⦄ (to_int32_ptr ⦃v = standard⦄ (2 ^ 31) []) ≡ 2 ^ 31) ↔ FitsInt32 (2 ^ 31)
to_int-to_int32_ptr_example =
    to_int-to_int32_ptr ⦃v = standard⦄ standard-Documented (2 ^ 31) [] (omega arith)

wraps : to_int ⦃v = standard⦄ (to_int32_ptr ⦃v = standard⦄ (2 ^ 31) []) ≡ 2 ^ 64 - 2 ^ 31
unfolding to_int to_int32_ptr
wraps = refl

-- A sender that counts the polls, each of which fails.
abbrev futures : Futures ℕ
futures = record {
  unmarshal_json = λ j. none;
  done_with_context = λ j w. (record { status = "Failed"; error = some (message "down") }, w + 1);
  error_text = λ e. "down";
}

abbrev operation : AsyncOperation
operation = record { method = "PUT"; polling_url = "u"; status = ""; error_message = "" }

fetch_async_operation_lem_example :
    let (e, op', w') = fetch_async_operation futures operation 0 in
    let (reply, after) = futures.done_with_context (future_json operation) 0 in
    (op'.method ≡ "PUT")
    × (op'.polling_url ≡ "u")
    × (((◌≡◌ {A = String} "u" "" ⊎ ◌≡◌ {A = String} "PUT" "")
          × (e ≡ none)
          × (op' ≡ operation)
          × (w' ≡ 0))
        ⊎ (◌≢◌ {A = String} "u" ""
            × ◌≢◌ {A = String} "PUT" ""
            × (((e ≢ none) × (e ≡ none) × (op' ≡ operation) × (w' ≡ 0))
                ⊎ (◌≡◌ {A = Option Err} none none
                    × (e ≡ none)
                    × (op'.status ≡ reply.status)
                    × Told futures operation reply.error op'
                    × (w' ≡ after)))))
fetch_async_operation_lem_example = fetch_async_operation_lem futures operation 0

polled_once :
    fetch_async_operation futures operation 0
    ≡ (none, record operation { status = "Failed"; error_message = "down" }, 1)
unfolding fetch_async_operation
polled_once = refl
