-- ===== src/Store/Workflows.antt =====
-- internal/storage/postgres/workflow.go.
use chronos_engine.Prelude.{
  ℕ, ◌-◌, ℤ, pos, pos_part, ltb_ℤ, leb_ℤ, String, Option, none, some, List, [], ◌∷◌, ◌++◌, map,
  Bool, true, false, not, ◌&&◌, ◌||◌, string_eq, ◌==◌, if◌then◌else◌, first, select, exists, count,
  take, drop,
}
use chronos_engine.Messages.{
  Bytes, Time, WorkflowStatus, running, EventType, HistoryEvent, Attributes,
}
use chronos_engine.Store.Tables.{Run, run_eq, Execution, StartWorkflowParams, Db}
use chronos_engine.Store.Monad.{
  Error, Tx, ◌>>=◌, ◌>>◌, pure, raise, gets, on_error, row_or, exec, when, not_found, not_running,
  invalid_text, unique_violation, order_by,
}
use chronos_engine.Store.Events.{
  event, find_execution, append_events, schedule_workflow_task, load_history,
}

abbrev pub is_status : WorkflowStatus → WorkflowStatus → Bool
is_status WorkflowStatus.unspecified WorkflowStatus.unspecified = true
is_status WorkflowStatus.running WorkflowStatus.running = true
is_status WorkflowStatus.completed WorkflowStatus.completed = true
is_status WorkflowStatus.failed WorkflowStatus.failed = true
is_status WorkflowStatus.timed_out WorkflowStatus.timed_out = true
is_status WorkflowStatus.terminated WorkflowStatus.terminated = true
is_status _ _ = false

abbrev pub is_running : String → Execution → Bool
is_running w e = e.run.workflow_id == w && is_status e.status running

unfoldable pub add_execution : Execution → Db → Db
add_execution row db = record db { executions = db.executions ++ row ∷ [] }

-- The INSERT, with the primary key and the partial unique index on running rows.
unfoldable pub insert_execution : Execution → Tx Unit
insert_execution row = do
  taken ←
      gets (λ db. exists (λ e. e.run == row.run || is_running row.run.workflow_id e) db.executions)
  when taken unique_violation
  exec (add_execution row)

abbrev pub new_execution : Run → StartWorkflowParams → Time → Execution
new_execution r p now = record {
  run = r;
  workflow_type = p.workflow_type;
  task_queue = p.task_queue;
  status = running;
  input = p.input;
  retry_policy = p.retry_policy;
  next_event_id = 1;
  start_time = now;
  close_time = none;
}

abbrev pub started_event : StartWorkflowParams → HistoryEvent
started_event p =
    event EventType.workflow_execution_started
      (Attributes.workflow_execution_started p.workflow_type p.task_queue p.input p.retry_policy)

unfoldable pub start_transaction : Run → StartWorkflowParams → Time → Tx Unit
start_transaction r p now = do
  insert_execution (new_execution r p now)
  append_events r now (started_event p ∷ [])
  schedule_workflow_task r p.task_queue now

unfoldable pub running_run_id : String → Db → Option String
running_run_id w db = elim (first (is_running w) db.executions) [
  | none ↦ none
  | some e ↦ some e.run.run_id
]

-- `pgErr.Code == "23505"`: the workflow runs already.
unfoldable pub already_started : String → Error → Tx (String × Bool)
already_started w unique_violation = do
  existing ← row_or not_found (running_run_id w)
  pure (existing, true)
already_started w e = raise e

-- `run_id` is the `uuid.NewString()` of the call. The result is the run and `alreadyStarted`.
unfoldable pub start_workflow : String → StartWorkflowParams → Time → Tx (String × Bool)
start_workflow run_id p now =
    on_error
      (do
        start_transaction (record { workflow_id = p.workflow_id; run_id = run_id }) p now
        pure (run_id, false))
      (already_started p.workflow_id)

-- The text of a run id in the form in which the database keeps it, where it is a UUID: Postgres' `::uuid`.
abbrev pub Cast : Type 0
Cast = String → Option String

abbrev pub with_run_id : String → Option String → Option Run
with_run_id w none = none
with_run_id w (some id) = some (record { workflow_id = w; run_id = id })

unfoldable pub cast_run : Cast → Run → Option Run
cast_run cast r = with_run_id r.workflow_id (cast r.run_id)

unfoldable pub signal_run : Run → String → Bytes → Time → Tx Unit
signal_run r signal_name input now = do
  row ← row_or not_found (find_execution r)
  when (not (is_status row.status running)) not_running
  append_events r now (
      event EventType.workflow_execution_signaled
        (Attributes.workflow_execution_signaled signal_name input)
      ∷ [])
  schedule_workflow_task r row.task_queue now

unfoldable pub signal_workflow : Cast → Run → String → Bytes → Time → Tx Unit
signal_workflow cast r signal_name input now = do
  run ← row_or invalid_text (λ db. cast_run cast r)
  signal_run run signal_name input now

-- `storage.Execution`, the projection that `scanExecution` reads.
pub record ExecutionView : Type 0 where
  pub run : Run
  pub workflow_type : String
  pub task_queue : String
  pub status : WorkflowStatus
  pub start_time : Time
  pub close_time : Option Time
  pub history_length : ℕ

unfoldable pub scan_execution : Execution → ExecutionView
scan_execution e = record {
  run = e.run;
  workflow_type = e.workflow_type;
  task_queue = e.task_queue;
  status = e.status;
  start_time = e.start_time;
  close_time = e.close_time;
  history_length = e.next_event_id - 1;
}

unfoldable pub describe_workflow : Cast → Run → Tx ExecutionView
describe_workflow cast r = do
  run ← row_or invalid_text (λ db. cast_run cast r)
  row ← row_or not_found (find_execution run)
  pure (scan_execution row)

abbrev non_empty {ℓ} : {A : Type ℓ} → List A → Option (List A)
non_empty [] = none
non_empty (x ∷ xs) = some (x ∷ xs)

unfoldable pub get_history : Cast → Run → Tx (List HistoryEvent)
get_history cast r = do
  run ← row_or invalid_text (λ db. cast_run cast r)
  row_or not_found (λ db. non_empty (load_history run db))

abbrev pub page_limit : ℤ → ℕ
page_limit limit = if leb_ℤ limit (pos 0) || ltb_ℤ (pos 200) limit then 50 else pos_part limit

abbrev pub matches_filter : WorkflowStatus → Execution → Bool
matches_filter WorkflowStatus.unspecified e = true
matches_filter s e = is_status e.status s

-- The order in which a query meets the rows of the table, which Postgres leaves open.
abbrev pub Scan : Type 0
Scan = List Execution → List Execution

-- A negative offset is an error of Postgres; the callers that can pass one get `none`.
unfoldable pub list_workflows : Scan → WorkflowStatus → ℤ → ℤ → Db → Option (List ExecutionView)
list_workflows scan status_filter limit offset db =
    let rows =
      order_by (λ a b. leb_ℤ b.start_time a.start_time)
        (select (matches_filter status_filter) (scan db.executions)) in
    if ltb_ℤ offset (pos 0)
    then none
    else some (map scan_execution (take (page_limit limit) (drop (pos_part offset) rows)))

-- The histogram, a map: what it has under each key. `GROUP BY` makes a group of each status that has a row.
unfoldable pub count_by_status : Db → WorkflowStatus → Option ℕ
count_by_status db s =
    if exists (λ e. is_status e.status s) db.executions
    then some (count (λ e. is_status e.status s) db.executions)
    else none

abbrev pub add_entry :
    WorkflowStatus → Option ℕ → List (WorkflowStatus × ℕ) → List (WorkflowStatus × ℕ)
add_entry w none rest = rest
add_entry w (some n) rest = (w, n) ∷ rest

-- Go's range over such a map, which comes in any order: the entries at the statuses `keys`, as far as it has them.
unfoldable pub entries :
    (WorkflowStatus → Option ℕ) → List WorkflowStatus → List (WorkflowStatus × ℕ)
entries counts [] = []
entries counts (w ∷ keys) = add_entry w (counts w) (entries counts keys)
