-- ===== src/Tests/Resumption.antt =====
-- A decision from the poll of its task to the history that its commands leave.
use chronos_engine.Prelude.{
  pos, some, false, List, [], ◌∷◌, ◌≡◌, refl, ap, ◌∙◌, first, exists, none, ◌+ℤ◌, select,
  update_where, delete_where,
}
use chronos_engine.Messages.{Time, Command, EventType, Attributes}
use chronos_engine.Store.Tables.{TaskRow, HistoryRow, Db, empty_db, same_run}
use chronos_engine.Store.Monad.{ok, after, order_by, insert_by, earliest, earliest_from}
use chronos_engine.Store.Events.{
  append_events, append_loop, insert_event, find_execution, update_execution, load_history,
  schedule_workflow_task,
}
use chronos_engine.Store.Workflows.{
  start_workflow, start_transaction, insert_execution, add_execution, already_started,
}
use chronos_engine.Store.Commands.{
  complete_workflow_task, find_workflow_task, apply_commands, apply_command,
  apply_schedule_activity, insert_activity, delete_workflow_task, poll_workflow_task,
  next_workflow_task, lock_workflow_task, lease_workflow_task, policy_blob,
}
use chronos_engine.Store.Calls.{Call, run_calls, step, starts, polls_workflow}
use chronos_engine.Replay.Index.{new_environment, index_history, index_event, index_attributes}
use chronos_engine.Replay.Engine.{
  run, decide, execute, conclude, and_then, execute_activity, activity_call, dispatch_activity, get,
}
use chronos_engine.Replay.Fresh.{is_closed, closes_attributes}
use chronos_engine.Resumption.{decision_recorded_once}
use chronos_engine.Tests.Fixtures.{
  whole, order_run, order_row, order_params, plain, charging, charging-IsClockFree,
}

abbrev polled : List (Time × Call)
polled =
    (pos 1, starts "run-a" order_params)
    ∷ (pos 2, polls_workflow "default" "worker-1" (pos 30))
    ∷ []

abbrev pub before : Db
before = run_calls whole empty_db polled

abbrev task : TaskRow
task = record {
  task_id = 1;
  run = order_run;
  task_queue = "default";
  visible_at = pos 1;
  locked_until = some (pos 32);
  locked_by = some "worker-1";
}

-- The database that the calls leave, row by row.
abbrev started_row : HistoryRow
started_row = record {
  run = order_run;
  event_id = 1;
  data_event = record {
    event_id = 1;
    event_type = EventType.workflow_execution_started;
    event_time = some (pos 1);
    attributes =
        some (Attributes.workflow_execution_started "OrderFulfillment" "default" (7 ∷ []) none);
  };
}

abbrev pub polled_db : Db
polled_db = record empty_db {
  executions = record order_row { next_event_id = 2 } ∷ [];
  history_events = started_row ∷ [];
  workflow_tasks = task ∷ [];
  workflow_task_seq = 2;
}

pub before_polled : before ≡ polled_db
unfolding run_calls step start_workflow start_transaction insert_execution already_started
    append_events append_loop insert_event find_execution update_execution load_history
    schedule_workflow_task poll_workflow_task next_workflow_task lock_workflow_task
    lease_workflow_task earliest earliest_from first exists select update_where same_run ◌+ℤ◌
    add_execution order_by insert_by
before_polled = refl

abbrev decided : Db → List Command
decided db = (execute plain charging "default" (load_history order_run db) (pos 2)).commands

abbrev answered : Db
answered =
    after polled_db
      (complete_workflow_task whole 1 "worker-1" (decided polled_db) (pos 3) polled_db)

polled_task : find_workflow_task 1 polled_db ≡ some task
unfolding find_workflow_task first
polled_task = refl

polled_open : is_closed (load_history order_run polled_db) ≡ false
unfolding is_closed exists closes_attributes load_history select order_by insert_by same_run
polled_open = refl

polled_waits :
    (execute plain charging "default" (load_history order_run polled_db) (pos 2)).completed ≡ false
unfolding execute decide run conclude and_then execute_activity activity_call dispatch_activity get
    new_environment index_history index_event index_attributes load_history select order_by
    insert_by same_run
polled_waits = refl

polled_answers :
    complete_workflow_task whole 1 "worker-1" (decided polled_db) (pos 3) polled_db
    ≡ ok (tt, answered)
unfolding execute decide run conclude and_then execute_activity activity_call dispatch_activity get
    new_environment index_history index_event index_attributes load_history select order_by
    insert_by same_run complete_workflow_task find_workflow_task first exists apply_commands
    apply_command apply_schedule_activity insert_activity policy_blob delete_workflow_task
    delete_where append_events append_loop insert_event find_execution update_execution update_where
polled_answers = refl

decision_recorded_once_example :
    execute plain charging "default" (load_history order_run answered) (pos 99)
    ≡ record { commands = []; completed = false }
decision_recorded_once_example =
    decision_recorded_once whole plain charging "default" polled 1 task "worker-1" (pos 2) (pos 3)
      (pos 99) tt answered charging-IsClockFree
      (ap (find_workflow_task 1) before_polled ∙ polled_task)
      (ap (λ db. is_closed (load_history order_run db)) before_polled ∙ polled_open)
      (ap (λ db. (execute plain charging "default" (load_history order_run db) (pos 2)).completed)
          before_polled
        ∙ polled_waits)
      (ap (λ db. complete_workflow_task whole 1 "worker-1" (decided db) (pos 3) db) before_polled
        ∙ polled_answers)
