-- ===== src/Tests/Store.antt =====
-- Runs of the store of internal/storage/postgres: the history and the outcomes that they leave.
use chronos_engine.Prelude.{◌+◌, ◌-◌, ◌≤◌, ◌≡◌, map, refl, some, false, List, ◌∷◌, [], ◌++◌, first}
use chronos_engine.Messages.{HistoryEvent, WorkflowStatus}
use chronos_engine.Store.Tables.{Db, Execution, HistoryRow, empty_db, same_run}
use chronos_engine.Store.Events.{load_history, find_execution}
use chronos_engine.Store.Workflows.{is_status}
use chronos_engine.Store.Calls.{run_calls}
use chronos_engine.Store.History.{iota}
use chronos_engine.Store.History.GapFree.{next_id}
use chronos_engine.Store.History.Numbered.{load_history_numbered}
use chronos_engine.Store.Once.Invariant.{ends, waiting}
use chronos_engine.Store.Once.Activities.{outcome_once}
use chronos_engine.Store.Fired.{fires, pending}
use chronos_engine.Store.Fired.Timers.{timer_fired_once}
use chronos_engine.Store.Durable.{history_append_only}
use chronos_engine.Store.Closed.{run_stays_closed}
use chronos_engine.Tests.Fixtures.{whole, order_run, order_row, charged_twice, waited}

load_history_numbered_example :
    map
      (λ (e : HistoryEvent). e.event_id)
      (load_history order_run (run_calls whole empty_db charged_twice))
    ≡ iota 1 (next_id order_run (run_calls whole empty_db charged_twice) - 1)
load_history_numbered_example = load_history_numbered whole charged_twice order_run

outcome_once_example :
    ends order_run 2 (run_calls whole empty_db charged_twice)
      + waiting order_run 2 (run_calls whole empty_db charged_twice)
    ≤ 1
outcome_once_example = outcome_once whole charged_twice order_run 2

timer_fired_once_example :
    fires order_run 2 (run_calls whole empty_db waited)
      + pending order_run 2 (run_calls whole empty_db waited)
    ≤ 1
timer_fired_once_example = timer_fired_once whole waited order_run 2

history_append_only_example :
    (added : List HistoryRow) × ((run_calls whole
        (run_calls whole empty_db waited)
        charged_twice).history_events
      ≡ (run_calls whole empty_db waited).history_events ++ added)
history_append_only_example =
    history_append_only whole (run_calls whole empty_db waited) charged_twice

abbrev closed_db : Db
closed_db = record empty_db {
  executions = record order_row { status = WorkflowStatus.completed } ∷ [];
}

is_closed_row :
    find_execution order_run closed_db
    ≡ some (record order_row { status = WorkflowStatus.completed })
unfolding find_execution first same_run
is_closed_row = refl

run_stays_closed_example :
    (row : Execution) × (find_execution order_run (run_calls whole closed_db charged_twice)
      ≡ some row)
    × (is_status row.status WorkflowStatus.running ≡ false)
run_stays_closed_example =
    run_stays_closed whole closed_db charged_twice order_run
      (record order_row { status = WorkflowStatus.completed }) is_closed_row refl
