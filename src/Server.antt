-- ===== src/Server.antt =====
-- internal/server/server.go: the handlers of the gRPC service, on the store and the counters of
-- internal/metrics/metrics.go that they raise.
pub mod Late
pub mod Polls
pub mod Waits
pub mod Paging
pub mod Background
pub mod Gauges
pub mod Accepts
use chronos_engine.Prelude.{
  ℕ, ◌+◌, String, Option, some, List, [], ◌∷◌, Bool, true, false, ◌||◌, string_eq, ◌==◌,
  if◌then◌else◌,
}
use chronos_engine.Messages.{
  Bytes, Time, Duration, Failure, HistoryEvent, Command, WorkflowExecution,
}
use chronos_engine.Core.{Float64}
use chronos_engine.Store.Tables.{Run, Db, StartWorkflowParams}
use chronos_engine.Store.Monad.{
  Error, Result, ok, err, Tx, ◌>>=◌, pure, not_found, conflict, task_lost,
}
use chronos_engine.Store.Workflows.{
  ExecutionView, Cast, start_workflow, signal_workflow, describe_workflow, get_history,
}
use chronos_engine.Store.Commands.{complete_workflow_task}
use chronos_engine.Store.Activities.{
  complete_activity_task, fail_activity_task, extend_activity_lease,
}

-- The gRPC codes that the handlers use.
pub data Code : Type 0 where
  invalid_argument code_not_found aborted failed_precondition internal : Code

unfoldable pub to_status : Error → Code
to_status not_found = code_not_found
to_status conflict = aborted
to_status task_lost = failed_precondition
to_status e = internal

-- Of `metrics.Metrics`, the counters.
pub record Metrics : Type 0 where
  pub workflows_started : ℕ
  pub workflows_completed : ℕ
  pub workflows_failed : ℕ
  pub activities_started : ℕ
  pub activities_complete : ℕ
  pub activities_retried : ℕ
  pub activities_failed : ℕ
  pub timers_fired : ℕ
  pub workflow_tasks_polled : ℕ
  pub activity_tasks_polled : ℕ

pub data Reply (A : Type 0) : Type 0 where
  replies : A → Reply A
  rejects : Code → Reply A

-- What a handler comes to: the reply, the counters and the database.
pub record Served (A : Type 0) : Type 0 where
  pub reply : Reply A
  pub metrics : Metrics
  pub db : Db

-- An error of the store is mapped to a status.
unfoldable pub serve :
    {A : Type 0} → Result (A × Db) → (A → Metrics → Metrics) → Metrics → Db → Served A
serve (ok (a, db')) counts m db = record { reply = replies a; metrics = counts a m; db = db' }
serve (err e) counts m db = record { reply = rejects (to_status e); metrics = m; db = db }

-- An answer that came too late is no error for its worker.
unfoldable pub settle :
    {A : Type 0}
    → (Error → Bool)
    → Result (A × Db)
    → (A → Metrics → Metrics)
    → Metrics
    → Db
    → Served Unit
settle benign (ok (a, db')) counts m db = record {
  reply = replies tt;
  metrics = counts a m;
  db = db';
}
settle benign (err e) counts m db = record {
  reply = if benign e then replies tt else rejects (to_status e);
  metrics = m;
  db = db;
}

abbrev pub is_lost : Error → Bool
is_lost task_lost = true
is_lost e = false

abbrev is_lost_or_conflict : Error → Bool
is_lost_or_conflict task_lost = true
is_lost_or_conflict conflict = true
is_lost_or_conflict e = false

abbrev pub unchanged : {A : Type 0} → A → Metrics → Metrics
unchanged a m = m

abbrev pub count_start : String × Bool → Metrics → Metrics
count_start (run_id, true) m = m
count_start (run_id, false) m = record m { workflows_started = m.workflows_started + 1 }

-- `run_id` and `now` are those of the store's call.
unfoldable pub serve_start_workflow :
    String → StartWorkflowParams → Time → Metrics → Db → Served (String × Bool)
serve_start_workflow run_id p now m db =
    if p.workflow_id == "" || p.workflow_type == "" || p.task_queue == ""
    then record { reply = rejects invalid_argument; metrics = m; db = db }
    else serve (start_workflow run_id p now db) count_start m db

unfoldable pub serve_signal_workflow :
    Cast → Run → String → Bytes → Time → Metrics → Db → Served Unit
serve_signal_workflow cast r name input now m db =
    serve (signal_workflow cast r name input now db) unchanged m db

unfoldable pub to_proto_execution : ExecutionView → WorkflowExecution
to_proto_execution e = record {
  workflow_id = e.run.workflow_id;
  run_id = e.run.run_id;
  workflow_type = e.workflow_type;
  task_queue = e.task_queue;
  status = e.status;
  start_time = some e.start_time;
  close_time = e.close_time;
  history_length = e.history_length;
}

unfoldable pub serve_describe_workflow : Cast → Run → Metrics → Db → Served WorkflowExecution
serve_describe_workflow cast r m db =
    serve ((describe_workflow cast r >>= λ e. pure (to_proto_execution e)) db) unchanged m db

unfoldable pub serve_history : Cast → Run → Metrics → Db → Served (List HistoryEvent)
serve_history cast r m db = serve (get_history cast r db) unchanged m db

-- The counters see all the commands, also those that the store did not reach.
unfoldable pub count_commands : List Command → Metrics → Metrics
count_commands [] m = m
count_commands (Command.complete_workflow_execution _ ∷ cs) m =
    count_commands cs (record m { workflows_completed = m.workflows_completed + 1 })
count_commands (Command.fail_workflow_execution _ ∷ cs) m =
    count_commands cs (record m { workflows_failed = m.workflows_failed + 1 })
count_commands (_ ∷ cs) m = count_commands cs m

unfoldable pub respond_workflow_task_completed :
    Float64 → ℕ → String → List Command → Time → Metrics → Db → Served Unit
respond_workflow_task_completed fl token identity commands now m db =
    settle is_lost_or_conflict (complete_workflow_task fl token identity commands now db)
      (λ _. count_commands commands) m db

abbrev count_complete : {A : Type 0} → A → Metrics → Metrics
count_complete a m = record m { activities_complete = m.activities_complete + 1 }

unfoldable pub respond_activity_task_completed :
    ℕ → String → Bytes → Time → Metrics → Db → Served Unit
respond_activity_task_completed token identity result now m db =
    settle is_lost (complete_activity_task token identity result now db) count_complete m db

abbrev pub count_failure : Bool → Metrics → Metrics
count_failure true m = record m { activities_retried = m.activities_retried + 1 }
count_failure false m = record m { activities_failed = m.activities_failed + 1 }

unfoldable pub respond_activity_task_failed :
    Float64 → ℕ → String → Option Failure → Bool → Time → Metrics → Db → Served Unit
respond_activity_task_failed fl token identity failure retryable now m db =
    settle is_lost (fail_activity_task fl token identity failure retryable now db) count_failure m
      db

abbrev never : Error → Bool
never e = false

-- `lease` is the service's own. The reply does not tell whether there was a row.
unfoldable pub record_activity_heartbeat : Duration → ℕ → Time → Metrics → Db → Served Unit
record_activity_heartbeat lease token now m db =
    settle never (extend_activity_lease token lease now db) unchanged m db
