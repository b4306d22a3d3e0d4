-- ===== src/Tests/Wakeups.antt =====
-- Executions and workflow tasks of internal/storage/postgres: two starts of one order, and a signal while
-- a worker decides.
use chronos_engine.Prelude.{
  ℕ, pos, true, some, [], ◌∷◌, ◌++◌, ◌≡◌, ◌≤◌, refl, first, exists, delete_where, update_where,
  ◌==◌, nat_eq,
}
use chronos_engine.Store.Tables.{TaskRow, Db, empty_db, same_run, run_eq}
use chronos_engine.Store.Monad.{ok, after}
use chronos_engine.Store.Events.{
  append_events, append_loop, insert_event, find_execution, update_execution,
  schedule_workflow_task,
}
use chronos_engine.Store.Workflows.{
  is_running, cast_run, signal_run, signal_workflow, start_workflow,
}
use chronos_engine.Store.Commands.{
  complete_workflow_task, find_workflow_task, apply_commands, delete_workflow_task,
}
use chronos_engine.Store.Calls.{run_calls, starts}
use chronos_engine.Store.Running.{running_count, one_running}
use chronos_engine.Store.Starts.{start_workflow_again}
use chronos_engine.Store.Wakeups.{signal_row, signal-no_wakeup}
use chronos_engine.Tests.Fixtures.{whole, order_run, order_row, order_params}

one_running_example :
    running_count "order-1" (
      run_calls whole empty_db
        ((pos 1, starts "run-a" order_params) ∷ (pos 2, starts "run-b" order_params) ∷ []))
    ≤ 1
one_running_example =
    one_running whole
      ((pos 1, starts "run-a" order_params) ∷ (pos 2, starts "run-b" order_params) ∷ []) "order-1"

abbrev deciding : Db
deciding = record empty_db {
  executions = order_row ∷ [];
  workflow_tasks =
      record {
        task_id = 1;
        run = order_run;
        task_queue = "default";
        visible_at = pos 1;
        locked_until = some (pos 30);
        locked_by = some "worker-1";
      }
      ∷ [];
}

abbrev signalled : Db
signalled = after deciding (signal_workflow some order_run "cancel" [] (pos 5) deciding)

abbrev decided : Db
decided = after signalled (complete_workflow_task whole 1 "worker-1" [] (pos 6) signalled)

is_queued : exists (λ (t : TaskRow). t.run == order_run) deciding.workflow_tasks ≡ true
unfolding exists same_run
is_queued = refl

signals_order : signal_workflow some order_run "cancel" [] (pos 5) deciding ≡ ok (tt, signalled)
unfolding signal_workflow signal_run cast_run append_events append_loop insert_event find_execution
    update_execution schedule_workflow_task first exists update_where same_run
signals_order = refl

decides_order : complete_workflow_task whole 1 "worker-1" [] (pos 6) signalled ≡ ok (tt, decided)
unfolding signal_workflow signal_run cast_run append_events append_loop insert_event find_execution
    update_execution schedule_workflow_task first exists update_where same_run
    complete_workflow_task find_workflow_task apply_commands delete_workflow_task delete_where
decides_order = refl

order_cast : cast_run some order_run ≡ some order_run
unfolding cast_run
order_cast = refl

signal-no_wakeup_example :
    (id : ℕ) × (decided.history_events
      ≡ deciding.history_events ++ signal_row order_run id "cancel" [] (pos 5) ∷ [])
    × (decided.workflow_tasks
        ≡ delete_where (λ (t : TaskRow). t.task_id == 1) deciding.workflow_tasks)
signal-no_wakeup_example =
    signal-no_wakeup whole some order_run order_run "cancel" [] (pos 5) deciding tt signalled 1
      "worker-1" (pos 6) tt decided order_cast is_queued signals_order decides_order

runs_already : first (is_running "order-1") deciding.executions ≡ some order_row
unfolding first
runs_already = refl

start_workflow_again_example :
    start_workflow "run-b" order_params (pos 9) deciding ≡ ok (("run-a", true), deciding)
start_workflow_again_example =
    start_workflow_again "run-b" order_params (pos 9) deciding order_row runs_already
