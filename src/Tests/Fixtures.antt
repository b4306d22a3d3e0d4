-- ===== src/Tests/Fixtures.antt =====
-- Values that the tests share: one order, from its start to the result of its first activity.
use Prim.Native.Nat.{◌*◌}
use chronos_engine.Prelude.{pos, pos_part, ltb, none, some, List, [], ◌∷◌, ℕ}
use chronos_engine.Messages.{
  Time, WorkflowStatus, Command, ScheduleActivityTaskCommand, EventType, Attributes, HistoryEvent,
}
use chronos_engine.Replay.Clock.{IsClockFree}
use chronos_engine.Replay.Types.{
  ActivityOptions, Workflow, Definition, Fmt, GetResult, got, got_error,
}
use chronos_engine.Core.{Float64}
use chronos_engine.Store.Tables.{Run, Execution, StartWorkflowParams}
use chronos_engine.Store.Calls.{
  Call, starts, polls_workflow, completes_workflow, polls_activity, completes_activity,
  fires_timers,
}

-- A float64 that holds whole numbers.
abbrev pub whole : Float64
whole = record {
  from_int64 = pos_part;
  mul = λ a b. a * b;
  lt = ltb;
  to_int64 = pos;
  one = 1;
  two = 2;
}

abbrev pub order_run : Run
order_run = record { workflow_id = "order-1"; run_id = "run-a" }

abbrev pub order_row : Execution
order_row = record {
  run = order_run;
  workflow_type = "OrderFulfillment";
  task_queue = "default";
  status = WorkflowStatus.running;
  input = 7 ∷ [];
  retry_policy = none;
  next_event_id = 4;
  start_time = pos 1;
  close_time = none;
}

abbrev pub order_params : StartWorkflowParams
order_params = record {
  workflow_id = "order-1";
  workflow_type = "OrderFulfillment";
  task_queue = "default";
  input = 7 ∷ [];
  retry_policy = none;
}

abbrev pub charge : ScheduleActivityTaskCommand
charge = record {
  activity_id = "activity-0";
  activity_type = "ChargePayment";
  task_queue = "default";
  input = 7 ∷ [];
  retry_policy = none;
  start_to_close_timeout = none;
}

abbrev pub first_decision : List (Time × Call)
first_decision =
    (pos 1, starts "run-a" order_params)
    ∷ (pos 2, polls_workflow "default" "worker-1" (pos 30))
    ∷ (pos 3, completes_workflow 1 "worker-1" (Command.schedule_activity_task charge ∷ []))
    ∷ []

-- The activity is delivered twice, and both deliveries answer.
abbrev pub charged_twice : List (Time × Call)
charged_twice =
    (pos 1, starts "run-a" order_params)
    ∷ (pos 2, polls_workflow "default" "worker-1" (pos 30))
    ∷ (pos 3, completes_workflow 1 "worker-1" (Command.schedule_activity_task charge ∷ []))
    ∷ (pos 4, polls_activity "default" "worker-1" (pos 30))
    ∷ (pos 40, polls_activity "default" "worker-2" (pos 30))
    ∷ (pos 41, completes_activity 1 "worker-2" (9 ∷ []))
    ∷ (pos 42, completes_activity 1 "worker-1" (9 ∷ []))
    ∷ []

abbrev pub plain : Fmt
plain = record { decimal = λ n. "0"; panic_text = λ p. "panic" }

abbrev pub no_options : ActivityOptions
no_options = record {
  task_queue = "";
  start_to_close_timeout = pos 0;
  retry_policy = none;
  activity_id = "";
}

abbrev pub receipt_of : GetResult → Workflow
receipt_of (got receipt) = Workflow.returns receipt
receipt_of (got_error e) = Workflow.fails e.message

abbrev pub charging : Definition
charging input =
    Workflow.executes_activity "ChargePayment" (some input) no_options
      λ f. Workflow.gets f receipt_of

abbrev pub event_of : ℕ → EventType → Attributes → HistoryEvent
event_of id type a = record {
  event_id = id;
  event_type = type;
  event_time = some (pos id);
  attributes = some a;
}

abbrev pub started : List HistoryEvent
started =
    event_of 1 EventType.workflow_execution_started
      (Attributes.workflow_execution_started "OrderFulfillment" "default" (7 ∷ []) none)
    ∷ []

-- A workflow that waits for an hour, and the firing of its timer, asked for twice.
abbrev pub waited : List (Time × Call)
waited =
    (pos 1, starts "run-a" order_params)
    ∷ (pos 2, polls_workflow "default" "worker-1" (pos 30))
    ∷ (
      pos 3,
      completes_workflow 1 "worker-1" (
          Command.start_timer
            (record { timer_id = "timer-0"; start_to_fire_timeout = some (pos 3600) })
          ∷ []),
    )
    ∷ (pos 4000, fires_timers (pos 0))
    ∷ (pos 4001, fires_timers (pos 0))
    ∷ []

receipt_of-IsClockFree : (r : GetResult) → IsClockFree (receipt_of r)
unfolding IsClockFree
receipt_of-IsClockFree (got receipt) = tt
receipt_of-IsClockFree (got_error e) = tt

pub charging-IsClockFree : (input : List ℕ) → IsClockFree (charging input)
unfolding IsClockFree
charging-IsClockFree input = λ f. receipt_of-IsClockFree
