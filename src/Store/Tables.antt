-- ===== src/Store/Tables.antt =====
-- The tables of internal/storage/migrations/0001_init.sql and the types of
-- internal/storage/store.go and internal/core/core.go that leave the store.
-- A BYTEA column that holds a serialized message is modelled by the message.
use chronos_engine.Prelude.{
  ℕ, ℤ, ◌≡◌, ◌↔◌, String, Option, List, [], Bool, true, ◌&&◌, arith, Eq, string_eq, ◌==◌, ==_iff,
}
use chronos_engine.Messages.{Bytes, Time, WorkflowStatus, RetryPolicy, HistoryEvent}

-- The key `(workflow_id, run_id)` of a run.
pub record Run : Type 0 where
  pub workflow_id : String
  pub run_id : String

unfoldable pub same_run : Run → Run → Bool
same_run r s = r.workflow_id == s.workflow_id && r.run_id == s.run_id

pub same_run_iff : (r s : Run) → (same_run r s ≡ true) ↔ (r ≡ s)
unfolding same_run
same_run_iff r s = ground (arith, ==_iff r.workflow_id s.workflow_id, ==_iff r.run_id s.run_id)

instance abbrev pub run_eq : Eq Run
run_eq = record { same? = same_run; same?_iff = same_run_iff }

-- A row of `workflow_executions`.
pub record Execution : Type 0 where
  pub run : Run
  pub workflow_type : String
  pub task_queue : String
  pub status : WorkflowStatus
  pub input : Bytes
  pub retry_policy : Option RetryPolicy
  pub next_event_id : ℕ
  pub start_time : Time
  pub close_time : Option Time

-- A row of `history_events`; its type and time columns repeat those of the event.
pub record HistoryRow : Type 0 where
  pub run : Run
  pub event_id : ℕ
  pub data_event : HistoryEvent

-- A row of `workflow_tasks`.
pub record TaskRow : Type 0 where
  pub task_id : ℕ
  pub run : Run
  pub task_queue : String
  pub visible_at : Time
  pub locked_until : Option Time
  pub locked_by : Option String

-- A row of `activity_tasks`.
pub record ActivityRow : Type 0 where
  pub task_id : ℕ
  pub run : Run
  pub scheduled_event_id : ℕ
  pub task_queue : String
  pub activity_id : String
  pub activity_type : String
  pub input : Bytes
  pub retry_policy : Option RetryPolicy
  pub attempt : ℤ
  pub last_started_attempt : ℤ
  pub visible_at : Time
  pub locked_until : Option Time
  pub locked_by : Option String

-- A row of `timers`.
pub record TimerRow : Type 0 where
  pub run : Run
  pub started_event_id : ℕ
  pub timer_id : String
  pub fire_at : Time
  pub fired : Bool

-- The database, with the two BIGSERIAL sequences.
pub record Db : Type 0 where
  pub executions : List Execution
  pub history_events : List HistoryRow
  pub workflow_tasks : List TaskRow
  pub activity_tasks : List ActivityRow
  pub timers : List TimerRow
  pub workflow_task_seq : ℕ
  pub activity_task_seq : ℕ

abbrev pub empty_db : Db
empty_db = record {
  executions = [];
  history_events = [];
  workflow_tasks = [];
  activity_tasks = [];
  timers = [];
  workflow_task_seq = 1;
  activity_task_seq = 1;
}

-- `core.WorkflowTask`.
pub record WorkflowTask : Type 0 where
  pub task_token : ℕ
  pub run : Run
  pub workflow_type : String
  pub history : List HistoryEvent
  pub started_event_id : ℕ

-- `core.ActivityTask`.
pub record ActivityTask : Type 0 where
  pub task_token : ℕ
  pub run : Run
  pub activity_id : String
  pub activity_type : String
  pub input : Bytes
  pub attempt : ℤ
  pub scheduled_event_id : ℕ

-- `storage.StartWorkflowParams`; nothing reads its `ExecutionTimeout`.
pub record StartWorkflowParams : Type 0 where
  pub workflow_id : String
  pub workflow_type : String
  pub task_queue : String
  pub input : Bytes
  pub retry_policy : Option RetryPolicy
