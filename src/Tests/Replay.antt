-- ===== src/Tests/Replay.antt =====
-- Decisions of sdk/workflow, for a workflow that charges a payment and waits for the result.
use chronos_engine.Prelude.{pos, true, false, none, some, List, [], ◌∷◌, ◌++◌, ◌≡◌, refl, exists}
use chronos_engine.Messages.{Attributes, EventType, HistoryEvent}
use chronos_engine.Replay.Index.{new_environment, index_history, index_event, index_attributes}
use chronos_engine.Replay.Engine.{
  run, decide, execute, conclude, and_then, execute_activity, activity_call, dispatch_activity, get,
}
use chronos_engine.Replay.Commands.{IsWellFormed}
use chronos_engine.Replay.Fresh.{is_closed, closes_attributes}
use chronos_engine.Replay.Recorded.{opens_activity}
use chronos_engine.Replay.Opened.{Opened, one_opened, none_opened, execute_extended}
use chronos_engine.Tests.Fixtures.{plain, charging, event_of, started, charging-IsClockFree}
use chronos_engine.Replay.Decisions.{execute-IsWellFormed, execute_closed}

abbrev ended : List HistoryEvent
ended =
    event_of 1 EventType.workflow_execution_completed
      (Attributes.workflow_execution_completed (9 ∷ []))
    ∷ []

started_open : is_closed started ≡ false
unfolding is_closed exists closes_attributes
started_open = refl

ended_closed : is_closed ended ≡ true
unfolding is_closed exists closes_attributes
ended_closed = refl

started_waits : (execute plain charging "default" started (pos 0)).completed ≡ false
unfolding execute decide run conclude and_then execute_activity activity_call dispatch_activity get
    new_environment index_history index_event index_attributes
started_waits = refl

execute-IsWellFormed_example : IsWellFormed (execute plain charging "default" started (pos 0))
execute-IsWellFormed_example =
    execute-IsWellFormed plain charging "default" started (pos 0) started_open

execute_closed_example :
    execute plain charging "default" ended (pos 0) ≡ record { commands = []; completed = true }
execute_closed_example = execute_closed plain charging "default" ended (pos 0) ended_closed

abbrev scheduled : HistoryEvent
scheduled = record {
  event_id = 2;
  event_type = EventType.activity_task_scheduled;
  event_time = some (pos 1);
  attributes = some (
      Attributes.activity_task_scheduled "activity-0" "ChargePayment" "default" (7 ∷ []) none none
        (pos 1));
}

scheduled-Opened :
    Opened (execute plain charging "default" started (pos 0)).commands (scheduled ∷ [])
unfolding execute decide run conclude and_then execute_activity activity_call dispatch_activity get
    new_environment index_history index_event index_attributes
scheduled-Opened = one_opened _ _ _ _ (opens_activity _ _ _ _ _ _ _) none_opened

execute_extended_example :
    execute plain charging "default" (started ++ scheduled ∷ []) (pos 77)
    ≡ record { commands = []; completed = false }
execute_extended_example =
    execute_extended plain charging "default" started (pos 0) (pos 77) (scheduled ∷ [])
      charging-IsClockFree started_open started_waits scheduled-Opened
