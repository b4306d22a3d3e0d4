-- ===== src/Store/Calls.antt =====
-- The calls of `storage.Store` that change the database, and their histories: every call is one
-- transaction at a time of its own.
use chronos_engine.Prelude.{ℕ, ℤ, String, Option, List, [], ◌∷◌, Bool}
use chronos_engine.Messages.{Bytes, Time, Duration, Failure, Command}
use chronos_engine.Core.{Float64}
use chronos_engine.Store.Tables.{Run, Db, StartWorkflowParams}
use chronos_engine.Store.Monad.{after}
use chronos_engine.Store.Workflows.{Cast, start_workflow, signal_workflow}
use chronos_engine.Store.Commands.{poll_workflow_task, complete_workflow_task}
use chronos_engine.Store.Activities.{
  poll_activity_task, complete_activity_task, fail_activity_task, extend_activity_lease,
}
use chronos_engine.Store.Timers.{fire_due_timers}

pub data Call : Type 0 where
  starts : String → StartWorkflowParams → Call
  signals : Cast → Run → String → Bytes → Call
  polls_workflow : String → String → Duration → Call
  completes_workflow : ℕ → String → List Command → Call
  polls_activity : String → String → Duration → Call
  completes_activity : ℕ → String → Bytes → Call
  fails_activity : ℕ → String → Option Failure → Bool → Call
  extends_lease : ℕ → Duration → Call
  fires_timers : ℤ → Call

unfoldable pub step : Float64 → Db → Time → Call → Db
step fl db now (starts run_id p) = after db (start_workflow run_id p now db)
step fl db now (signals cast r name input) = after db (signal_workflow cast r name input now db)
step fl db now (polls_workflow queue identity lease) =
    after db (poll_workflow_task queue identity lease now db)
step fl db now (completes_workflow token identity commands) =
    after db (complete_workflow_task fl token identity commands now db)
step fl db now (polls_activity queue identity lease) =
    after db (poll_activity_task queue identity lease now db)
step fl db now (completes_activity token identity result) =
    after db (complete_activity_task token identity result now db)
step fl db now (fails_activity token identity failure retryable) =
    after db (fail_activity_task fl token identity failure retryable now db)
step fl db now (extends_lease token lease) = after db (extend_activity_lease token lease now db)
step fl db now (fires_timers batch) = after db (fire_due_timers now batch db)

-- A history of the store: calls with the times at which they run.
unfoldable pub run_calls : Float64 → Db → List (Time × Call) → Db
run_calls fl db [] = db
run_calls fl db ((now, c) ∷ cs) = run_calls fl (step fl db now c) cs
