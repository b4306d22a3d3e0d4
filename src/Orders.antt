-- ===== src/Orders.antt =====
-- workflows/order.go: the order workflow, as workflow code of the replay engine. The conversion of values,
-- sdk/converter on Go's JSON, is a parameter.
pub mod Shipping
pub mod Activities
pub mod Ledger
use Prim.Native.String.{◌++◌ as str_append}
use chronos_engine.Prelude.{ℕ, ℤ, pos, String, Option, none, some, List}
use chronos_engine.Messages.{Bytes, Duration}
use chronos_engine.Replay.Types.{
  ActivityError, ActivityOptions, WorkflowRetryPolicy, Workflow, Definition, GetResult, got,
  got_error,
}
use chronos_engine.Replay.Engine.{sleep}

pub record OrderInput : Type 0 where
  pub order_id : String
  pub customer_id : String
  pub amount_cents : ℤ
  pub items : List String

pub record OrderResult : Type 0 where
  pub order_id : String
  pub charge_id : String
  pub reservation_id : String
  pub tracking_no : String
  pub receipt_id : String
  pub status : String

-- What a decoder returns: a value, or the text of its error.
pub data Decoded (A : Type 0) : Type 0 where
  decodes : A → Decoded A
  refuses : String → Decoded A

-- `converter.Decode` at the types that the workflow decodes, and `converter.Encode`.
pub record Converter : Type 0 where
  pub decode_order : Bytes → Decoded OrderInput
  pub decode_string : Bytes → Decoded String
  pub encode_order : OrderInput → Option Bytes
  pub encode_result : OrderResult → Decoded Bytes

-- `Error` of an `ActivityError`.
unfoldable pub error_text : ActivityError → String
error_text e = str_append e.activity_type (str_append ": " e.message)

abbrev pub decoded : (String → Workflow) → Decoded String → Workflow
decoded k (decodes s) = k s
decoded k (refuses e) = Workflow.fails e

-- `Get(&s)`, and the return of its error.
abbrev pub received : Converter → (String → Workflow) → GetResult → Workflow
received c k (got b) = decoded k (c.decode_string b)
received c k (got_error e) = Workflow.fails (error_text e)

abbrev pub slept : Workflow → GetResult → Workflow
slept next (got b) = next
slept next (got_error e) = Workflow.fails (error_text e)

abbrev pub encoded : Decoded Bytes → Workflow
encoded (decodes b) = Workflow.returns b
encoded (refuses e) = Workflow.fails e

-- 2.0 is 4611686018427387904 as a float64.
abbrev pub order_options : ActivityOptions
order_options = record {
  task_queue = "";
  start_to_close_timeout = pos 30000000000;
  retry_policy = some (record {
    initial_interval = pos 1000000000;
    backoff_coefficient = 4611686018427387904;
    max_interval = pos 30000000000;
    max_attempts = pos 5;
  });
  activity_id = "";
}

abbrev pub packaging_delay : Duration
packaging_delay = pos 5000000000

-- `ctx.ExecuteActivity(activityType, in, opts).Get(&s)`.
abbrev pub calls_activity : Converter → String → OrderInput → (String → Workflow) → Workflow
calls_activity c activity_type order k =
    Workflow.executes_activity activity_type (c.encode_order order) order_options
      λ f. Workflow.gets f (received c k)

abbrev pub finishes : Converter → OrderInput → String → String → String → String → Workflow
finishes c order charge_id reservation_id tracking_no receipt_id = encoded (
    c.encode_result (record {
      order_id = order.order_id;
      charge_id = charge_id;
      reservation_id = reservation_id;
      tracking_no = tracking_no;
      receipt_id = receipt_id;
      status = "FULFILLED";
    }))

abbrev pub delivers : Converter → OrderInput → String → String → Workflow
delivers c order charge_id reservation_id = calls_activity c "ShipOrder" order λ tracking_no.
    calls_activity c "SendReceipt" order
      λ receipt_id. finishes c order charge_id reservation_id tracking_no receipt_id

abbrev pub fulfils : Converter → OrderInput → Workflow
fulfils c order = calls_activity c "ChargePayment" order λ charge_id.
    calls_activity c "ReserveInventory" order
      λ reservation_id. sleep packaging_delay (slept (delivers c order charge_id reservation_id))

abbrev pub on_order : Converter → Decoded OrderInput → Workflow
on_order c (decodes order) = fulfils c order
on_order c (refuses e) = Workflow.fails (str_append "decode order input: " e)

unfoldable pub order_fulfillment : Converter → Definition
order_fulfillment c input = on_order c (c.decode_order input)
