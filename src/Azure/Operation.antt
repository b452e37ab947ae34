-- ===== src/Azure/Operation.antt =====
-- pkg/clients/azure.go: FetchAsyncOperation; apis/v1alpha3: AsyncOperation.
pub mod Polling
use provider_azure.Prelude.{String, Bool, ◌||◌, Option, none, some, ◌==◌, if◌then◌else◌}
use provider_azure.Go.Errors.{Err}

pub record AsyncOperation : Type 0 where
  pub method : String
  pub polling_url : String
  pub status : String
  pub error_message : String

abbrev pub in_progress : String
in_progress = "InProgress"

abbrev async_operation_polling_method : String
async_operation_polling_method = "AsyncOperation"

-- The object that `json.Marshal` turns into the state of a future. Marshalling a map of strings
-- does not fail.
pub record FutureJson : Type 0 where
  pub method : String
  pub polling_method : String
  pub polling_uri : String

-- `op.Status()` after `op.DoneWithContext`, and the error of the latter.
pub record PollReply : Type 0 where
  pub status : String
  pub error : Option Err

-- The futures of go-autorest, over the sender that the caller passes.
pub record Futures (W : Type 0) : Type 0 where
  pub unmarshal_json : FutureJson → Option Err
  pub done_with_context : FutureJson → W → PollReply × W
  pub error_text : Err → String

abbrev pub future_json : AsyncOperation → FutureJson
future_json op = record {
  method = op.method;
  polling_method = async_operation_polling_method;
  polling_uri = op.polling_url;
}

module _ {W : Type 0} (f : Futures W) where
  abbrev with_error : Option Err → AsyncOperation → AsyncOperation
  with_error none op = op
  with_error (some e) op = record op { error_message = f.error_text e }

  abbrev polled : AsyncOperation → Option Err → W → Option Err × AsyncOperation × W
  polled op (some e) w = (some e, op, w)
  polled op none w =
      let (reply, w') = f.done_with_context (future_json op) w in
      (none, with_error reply.error (record op { status = reply.status }), w')

  -- Every caller passes the address of a field, so `as == nil` does not arise.
  unfoldable pub fetch_async_operation : AsyncOperation → W → Option Err × AsyncOperation × W
  fetch_async_operation op w =
      if op.polling_url == "" || op.method == ""
      then (none, op, w)
      else polled op (f.unmarshal_json (future_json op)) w
