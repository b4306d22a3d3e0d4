-- ===== src/Tests/Orders.antt =====
-- The order workflow ready to ship, and its activities on a ledger.
use chronos_engine.Prelude.{ℕ, pos, some, none, true, List, [], ◌∷◌, ◌≡◌, ◌≤◌, refl, exists, count}
use chronos_engine.Messages.{EventType, Attributes, HistoryEvent}
use chronos_engine.Worker.{Info}
use chronos_engine.Replay.Index.{
  new_environment, index_history, index_event, index_attributes, place, modify_at,
}
use chronos_engine.Replay.Engine.{
  run, decide, execute, conclude, and_then, execute_activity, activity_call, dispatch_activity,
  recall_activity, new_timer, timer_call, get,
}
use chronos_engine.Orders.{OrderInput, Converter, decodes, order_fulfillment}
use chronos_engine.Orders.Shipping.{ships, IsReady, order_ships_last}
use chronos_engine.Orders.Activities.{
  SideEffect, same_key, record_effect, Json, record_activity, charge_payment, charges_payment,
  perform, perform_all,
}
use chronos_engine.Orders.Ledger.{effects_once, effect_repeated}
use chronos_engine.Tests.Fixtures.{plain, event_of}

abbrev order : OrderInput
order = record { order_id = "order-1"; customer_id = "c-1"; amount_cents = pos 500; items = [] }

abbrev fixed : Converter
fixed = record {
  decode_order = λ b. decodes order;
  decode_string = λ b. decodes "done";
  encode_order = λ o. some (7 ∷ []);
  encode_result = λ r. decodes (8 ∷ []);
}

abbrev packed : List HistoryEvent
packed =
    event_of 1 EventType.workflow_execution_started
      (Attributes.workflow_execution_started "OrderFulfillment" "default" (7 ∷ []) none)
    ∷ event_of 2 EventType.activity_task_scheduled (
        Attributes.activity_task_scheduled "activity-0" "ChargePayment" "default" (7 ∷ []) none none
          (pos 1))
    ∷ event_of 3 EventType.activity_task_completed (Attributes.activity_task_completed 2 (9 ∷ []))
    ∷ event_of 4 EventType.activity_task_scheduled (
        Attributes.activity_task_scheduled "activity-1" "ReserveInventory" "default" (7 ∷ []) none
          none (pos 1))
    ∷ event_of 5 EventType.activity_task_completed (Attributes.activity_task_completed 4 (9 ∷ []))
    ∷ event_of 6 EventType.timer_started (Attributes.timer_started "timer-0" none none)
    ∷ event_of 7 EventType.timer_fired (Attributes.timer_fired "timer-0" 6)
    ∷ []

ships_packed :
    ships (execute plain (order_fulfillment fixed) "default" packed (pos 0)).commands ≡ true
unfolding execute decide run conclude and_then execute_activity activity_call dispatch_activity
    recall_activity new_timer timer_call get new_environment index_history index_event
    index_attributes exists order_fulfillment place modify_at
ships_packed = refl

order_ships_last_example : IsReady (new_environment "default" packed (pos 0))
order_ships_last_example = order_ships_last fixed plain "default" packed (pos 0) ships_packed

abbrev json : Json
json = record {
  read_order = λ b. order;
  encode_string = λ s. some (9 ∷ []);
  marshal = λ kv. some (5 ∷ []);
}

abbrev attempt_of : ℕ → Info
attempt_of n = record {
  workflow_id = "order-1";
  run_id = "run-a";
  activity_id = "activity-0";
  activity_type = "ChargePayment";
  attempt = pos n;
}

abbrev recorded : List SideEffect
recorded =
    record {
      workflow_id = "order-1";
      activity_id = "activity-0";
      activity_type = "ChargePayment";
      payload = 5 ∷ [];
    }
    ∷ []

records_twice :
    perform_all json
      ((charges_payment, attempt_of 1, 7 ∷ []) ∷ (charges_payment, attempt_of 2, 7 ∷ []) ∷ [])
      (some [])
    ≡ some recorded
unfolding perform_all perform charge_payment record_activity record_effect exists
records_twice = refl

effects_once_example : count (same_key "order-1" "activity-0") recorded ≤ 1
effects_once_example =
    effects_once json
      ((charges_payment, attempt_of 1, 7 ∷ []) ∷ (charges_payment, attempt_of 2, 7 ∷ []) ∷ [])
      recorded "order-1" "activity-0" records_twice

records_once :
    perform json charges_payment (attempt_of 1) (7 ∷ []) (some []) ≡ (some (9 ∷ []), some recorded)
unfolding perform charge_payment record_activity record_effect exists
records_once = refl

effect_repeated_example :
    (perform json charges_payment (attempt_of 2) (7 ∷ []) (some recorded)).1 ≡ some recorded
effect_repeated_example =
    effect_repeated json charges_payment charges_payment (attempt_of 1) (attempt_of 2) (7 ∷ [])
      (7 ∷ []) (9 ∷ []) [] recorded records_once refl refl
