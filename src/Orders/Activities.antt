-- ===== src/Orders/Activities.antt =====
-- The activities of workflows/order.go on the ledger of workflows/ledger.go, the table demo_side_effects. Go's
-- JSON is a parameter.
use Prim.Native.String.{◌++◌ as str_append}
use chronos_engine.Prelude.{
  ℕ, ℤ, String, Option, none, some, List, [], ◌∷◌, ◌++◌, Bool, true, false, ◌&&◌, string_eq, ◌==◌,
  if◌then◌else◌, exists, count,
}
use chronos_engine.Messages.{Bytes}
use chronos_engine.Worker.{Info}
use chronos_engine.Orders.{OrderInput}

-- A row of demo_side_effects, with the primary key (workflow_id, activity_id).
pub record SideEffect : Type 0 where
  pub workflow_id : String
  pub activity_id : String
  pub activity_type : String
  pub payload : Bytes

abbrev pub same_key : String → String → SideEffect → Bool
same_key workflow_id activity_id s = s.workflow_id == workflow_id && s.activity_id == activity_id

-- The INSERT, with ON CONFLICT DO NOTHING.
unfoldable pub record_effect : String → String → String → Bytes → List SideEffect → List SideEffect
record_effect workflow_id activity_id activity_type payload ledger =
    if exists (same_key workflow_id activity_id) ledger
    then ledger
    else ledger
      ++ record {
        workflow_id = workflow_id;
        activity_id = activity_id;
        activity_type = activity_type;
        payload = payload;
      }
        ∷ []

unfoldable pub count_effects : String → List SideEffect → ℕ
count_effects workflow_id ledger = count (λ s. s.workflow_id == workflow_id) ledger

-- A value of the payload.
pub data Value : Type 0 where
  number : ℤ → Value
  text : String → Value
  texts : List String → Value

-- What the activities convert: the order that the variable holds after `Decode`, whose error they drop, a string,
-- and a payload.
pub record Json : Type 0 where
  pub read_order : Bytes → OrderInput
  pub encode_string : String → Option Bytes
  pub marshal : List (String × Value) → Option Bytes

-- What an activity returns, `none` for an error, and the ledger, `none` without one.
abbrev pub Performed : Type 0
Performed = Option Bytes × Option (List SideEffect)

abbrev pub write_effect : Info → Option Bytes → List SideEffect → Bool × List SideEffect
write_effect info none ledger = (false, ledger)
write_effect info (some blob) ledger =
    (true, record_effect info.workflow_id info.activity_id info.activity_type blob ledger)

-- `record`: whether there is no error, and the ledger.
unfoldable pub record_activity :
    Json → Info → List (String × Value) → Option (List SideEffect) → Bool × Option (List SideEffect)
record_activity j info kv none = (true, none)
record_activity j info kv (some ledger) =
    let written = write_effect info (j.marshal (("attempt", number info.attempt) ∷ kv)) ledger in
    (written.0, some written.1)

abbrev pub returning : Option Bytes → Bool × Option (List SideEffect) → Performed
returning output (true, ledger) = (output, ledger)
returning output (false, ledger) = (none, ledger)

unfoldable pub charge_payment : Json → Info → Bytes → Option (List SideEffect) → Performed
charge_payment j info input ledger =
    let order = j.read_order input in
    let charge_id = str_append "ch_" order.order_id in
    returning (j.encode_string charge_id) (
      record_activity j info
        (("amountCents", number order.amount_cents) ∷ ("chargeId", text charge_id) ∷ []) ledger)

unfoldable pub reserve_inventory : Json → Info → Bytes → Option (List SideEffect) → Performed
reserve_inventory j info input ledger =
    let order = j.read_order input in
    let reservation_id = str_append "rsv_" order.order_id in
    returning (j.encode_string reservation_id) (
      record_activity j info
        (("items", texts order.items) ∷ ("reservationId", text reservation_id) ∷ []) ledger)

unfoldable pub ship_order : Json → Info → Bytes → Option (List SideEffect) → Performed
ship_order j info input ledger =
    let order = j.read_order input in
    let tracking_no = str_append "1Z" order.order_id in
    returning (j.encode_string tracking_no)
      (record_activity j info (("trackingNo", text tracking_no) ∷ []) ledger)

unfoldable pub send_receipt : Json → Info → Bytes → Option (List SideEffect) → Performed
send_receipt j info input ledger =
    let order = j.read_order input in
    let receipt_id = str_append "rcpt_" order.order_id in
    returning (j.encode_string receipt_id) (
      record_activity j info
        (("customerId", text order.customer_id) ∷ ("receiptId", text receipt_id) ∷ []) ledger)

-- The activities that `Register` registers, by their names there.
pub data OrderActivity : Type 0 where
  charges_payment reserves_inventory ships_order sends_receipt : OrderActivity

unfoldable pub perform : Json → OrderActivity → Info → Bytes → Option (List SideEffect) → Performed
perform j charges_payment = charge_payment j
perform j reserves_inventory = reserve_inventory j
perform j ships_order = ship_order j
perform j sends_receipt = send_receipt j

-- Deliveries of activities, one after the other, on one ledger.
unfoldable pub perform_all :
    Json → List (OrderActivity × Info × Bytes) → Option (List SideEffect) → Option (List SideEffect)
perform_all j [] ledger = ledger
perform_all j ((a, info, input) ∷ rest) ledger =
    perform_all j rest (perform j a info input ledger).1
