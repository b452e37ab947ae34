-- ===== src/Azure/Operation/Polling.antt =====
-- What polling an operation can change.
use provider_azure.Prelude.{
  String, ◌≡◌, sym, ◌∙◌, ◌≢◌, ◌⊎◌, inl, inr, Option, none, some, arith, eq_iff,
}
use provider_azure.Go.Errors.{Err}
use provider_azure.Azure.Operation.{AsyncOperation, Futures, fetch_async_operation, future_json}

-- The message that an operation keeps, or gets from an error of the polling.
abbrev pub Told : {W : Type 0} → Futures W → AsyncOperation → Option Err → AsyncOperation → Type 0
Told f op none op' = op'.error_message ≡ op.error_message
Told f op (some e) op' = op'.error_message ≡ f.error_text e

module _ {W : Type 0} (f : Futures W) where
  -- Polling keeps the method and the URL of an operation, and goes one of three ways. Where the URL
  -- or the method is empty, there is no error, nothing is called and nothing changes. Where both are
  -- there and the future cannot be restored, the error of the restoring is returned, and again
  -- nothing is called and nothing changes. Where both are there and the future is restored, it is
  -- polled: no error is returned, even if the polling failed, the status that Azure tells is recorded,
  -- and the message becomes the text of the error of the polling, or stays where there is none.
  pub fetch_async_operation_lem :
      (op : AsyncOperation) (w : W)
      → let (e, op', w') = fetch_async_operation f op w in
        let (reply, after) = f.done_with_context (future_json op) w in
        (op'.method ≡ op.method)
        × (op'.polling_url ≡ op.polling_url)
        × ((((op.polling_url ≡ "") ⊎ (op.method ≡ "")) × (e ≡ none) × (op' ≡ op) × (w' ≡ w))
            ⊎ ((op.polling_url ≢ "")
                × (op.method ≢ "")
                × (((e ≢ none) × (e ≡ f.unmarshal_json (future_json op)) × (op' ≡ op) × (w' ≡ w))
                    ⊎ ((f.unmarshal_json (future_json op) ≡ none)
                        × (e ≡ none)
                        × (op'.status ≡ reply.status)
                        × Told f op reply.error op'
                        × (w' ≡ after)))))
  unfolding fetch_async_operation
  fetch_async_operation_lem op w = ground (arith, eq_iff op.polling_url "", eq_iff op.method "")

-- An operation that is a creation and can be polled.
abbrev pub IsCreating : AsyncOperation → Type 0
IsCreating op = (op.method ≡ "PUT") × (op.polling_url ≢ "")

put_nonempty : ◌≡◌ {A = String} "PUT" "" → ⊥
put_nonempty h = ground (arith, eq_iff "PUT" "")

module _ {W : Type 0} (f : Futures W) (op : AsyncOperation) (w : W) (c : IsCreating op) where
  pub fetch_async_operation-IsCreating : IsCreating (fetch_async_operation f op w).1
  fetch_async_operation-IsCreating =
      let l = fetch_async_operation_lem f op w in (l.0 ∙ c.0, λ h. c.1 (sym l.1 ∙ h))

  -- Polling without an error records the status that Azure tells.
  pub status-fetch_async_operation :
      (fetch_async_operation f op w).0 ≡ none
      → (fetch_async_operation f op w).1.status ≡ (f.done_with_context (future_json op) w).0.status
  status-fetch_async_operation h =
      let (method, url, rest) = fetch_async_operation_lem f op w in
      elim rest [
        | inl (none_of, r, same, still) ↦ elim none_of [
          | inl u ↦ absurd (c.1 u)
          | inr m ↦ absurd (put_nonempty (sym c.0 ∙ m))
        ]
        | inr (u, m, inl (failed, r, same, still)) ↦ absurd (failed h)
        | inr (u, m, inr (restored, r, q, told, z)) ↦ q
      ]
