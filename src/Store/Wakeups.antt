-- ===== src/Store/Wakeups.antt =====
-- A signal while a workflow task of its run is in the queue, in internal/storage/postgres/workflow.go and
-- helpers.go, and the completion of that task, in internal/storage/postgres/tasks.go.
use chronos_engine.Prelude.{
  ℕ, ◌≡◌, refl, sym, ap, ◌∙◌, true, not, String, List, [], ◌∷◌, ◌++◌, arith, exists, nat_eq, ◌==◌,
  delete_where,
}
use chronos_engine.Messages.{Bytes, Time, WorkflowStatus, EventType, Attributes, HistoryEvent}
use chronos_engine.Core.{Float64}
use chronos_engine.Store.Tables.{Run, run_eq, Execution, HistoryRow, Db}
use chronos_engine.Store.Monad.{ok, when, row_or, not_found, not_running, task_lost}
use chronos_engine.Store.Keeps.{bind-inv, row_or-inv, when-inv, ok-injective}
use chronos_engine.Store.Events.{
  event, stamp, append_events, schedule_workflow_task, find_execution, update_execution,
}
use chronos_engine.Store.Workflows.{is_status, Cast, cast_run, signal_run, signal_workflow}
use chronos_engine.Store.Commands.{
  not_owner, find_workflow_task, delete_workflow_task, apply_commands, complete_workflow_task,
}
use chronos_engine.Store.Monad.{invalid_text}
use chronos_engine.Prelude.{some}
use chronos_engine.Store.Progress.Commits.{row_or_commits}
use chronos_engine.Store.History.{append_events-inv, new_rows, add_rows}

-- The row that a signal adds to the history.
abbrev pub signal_row : Run → ℕ → String → Bytes → Time → HistoryRow
signal_row r id name input now = record {
  run = r;
  event_id = id;
  data_event =
      stamp
        (event EventType.workflow_execution_signaled
          (Attributes.workflow_execution_signaled name input))
        id now;
}

schedule-queued :
    (r : Run) (queue : String) (now : Time) (db : Db) (u : Unit {0}) (db' : Db)
    → exists (λ t. t.run == r) db.workflow_tasks ≡ true
    → schedule_workflow_task r queue now db ≡ ok (u, db')
    → db' ≡ db
unfolding schedule_workflow_task
schedule-queued r queue now db u db' h e = ground (arith, h, e)

-- What an append changes of the two tables.
pub append-tables :
    (r : Run) (f : Execution → Execution) (rows : List HistoryRow) (db : Db)
    → ((update_execution r f (add_rows rows db)).workflow_tasks ≡ db.workflow_tasks)
      × ((update_execution r f (add_rows rows db)).history_events ≡ db.history_events ++ rows)
unfolding update_execution
append-tables r f rows db = (refl, refl)

queued_after :
    (r : Run) (f : Execution → Execution) (rows : List HistoryRow) (queue : String) (now : Time)
    (db mid grown : Db) (u : Unit {0}) (db' : Db)
    → db ≡ mid
    → grown ≡ update_execution r f (add_rows rows mid)
    → exists (λ t. t.run == r) db.workflow_tasks ≡ true
    → schedule_workflow_task r queue now grown ≡ ok (u, db')
    → (db'.workflow_tasks ≡ db.workflow_tasks) × (db'.history_events ≡ db.history_events ++ rows)
queued_after r f rows queue now db mid grown u db' same added h e =
    let tables = append-tables r f rows mid in
    let tasks : grown.workflow_tasks ≡ db.workflow_tasks =
      ap (λ x. x.workflow_tasks) added ∙ tables.0 ∙ ap (λ x. x.workflow_tasks) (sym same) in
    let events : grown.history_events ≡ db.history_events ++ rows =
      ap (λ x. x.history_events) added ∙ tables.1 ∙ ap (λ x. x.history_events ++ rows) (sym same) in
    let kept : db' ≡ grown =
      schedule-queued r queue now grown u db' (ap (exists (λ t. t.run == r)) tasks ∙ h) e in
    (ap (λ x. x.workflow_tasks) kept ∙ tasks, ap (λ x. x.history_events) kept ∙ events)

pub signal-queued :
    (r : Run) (name : String) (input : Bytes) (now : Time) (db : Db) (u : Unit {0}) (db' : Db)
    → exists (λ t. t.run == r) db.workflow_tasks ≡ true
    → signal_run r name input now db ≡ ok (u, db')
    → (id : ℕ) × (db'.workflow_tasks ≡ db.workflow_tasks)
      × (db'.history_events ≡ db.history_events ++ signal_row r id name input now ∷ [])
unfolding signal_run
signal-queued r name input now db u db' h e =
    let (row, db₁, found, h₁) =
      bind-inv (row_or not_found (find_execution r)) _ db {b = u} {db' = db'} e in
    let same₁ = (row_or-inv not_found (find_execution r) db found).1 in
    let (v, db₂, passed, h₂) =
      bind-inv (when (not (is_status row.status WorkflowStatus.running)) not_running) _ db₁ {b = u}
        {db' = db'} h₁ in
    let same₂ =
      (when-inv (not (is_status row.status WorkflowStatus.running)) not_running db₁ passed).1 in
    let (n, db₃, appended, h₃) =
      bind-inv (append_events r now (signal ∷ [])) _ db₂ {b = u} {db' = db'} h₂ in
    let (x, _, first_id, grown) = append_events-inv r now signal [] db₂ appended in
    let (tasks, events) =
      queued_after r _ (new_rows r now x.next_event_id (signal ∷ [])) row.task_queue now db db₂ db₃
        u db' (same₁ ∙ same₂) grown h h₃ in
    (x.next_event_id, tasks, events)
  where
    signal : HistoryEvent
    signal =
        event EventType.workflow_execution_signaled
          (Attributes.workflow_execution_signaled name input)

signal_workflow-run :
    (cast : Cast) (text r : Run) (name : String) (input : Bytes) (now : Time) (db : Db)
    (u : Unit {0}) (db' : Db)
    → cast_run cast text ≡ some r
    → signal_workflow cast text name input now db ≡ ok (u, db')
    → signal_run r name input now db ≡ ok (u, db')
unfolding signal_workflow
signal_workflow-run cast text r name input now db u db' h e =
    sym (
      row_or_commits invalid_text (λ db. cast_run cast text) (λ run. signal_run run name input now)
        db r h)
    ∙ e

complete-nothing :
    (fl : Float64) (token : ℕ) (identity : String) (now : Time) (db : Db) (u : Unit {0}) (db' : Db)
    → complete_workflow_task fl token identity [] now db ≡ ok (u, db')
    → db' ≡ delete_workflow_task token db
unfolding complete_workflow_task apply_commands
complete-nothing fl token identity now db u db' e =
    let (t, db₁, found, h₁) =
      bind-inv (row_or task_lost (find_workflow_task token)) _ db {b = u} {db' = db'} e in
    let same₁ = (row_or-inv task_lost (find_workflow_task token) db found).1 in
    let (v, db₂, passed, h₂) =
      bind-inv (when (not_owner t.locked_by identity) task_lost) _ db₁ {b = u} {db' = db'} h₁ in
    let same₂ = (when-inv (not_owner t.locked_by identity) task_lost db₁ passed).1 in
    sym (ok-injective h₂).1 ∙ ap (delete_workflow_task token) (sym (same₁ ∙ same₂))

delete-tables :
    (token : ℕ) (db : Db)
    → ((delete_workflow_task token db).workflow_tasks
        ≡ delete_where (λ t. t.task_id == token) db.workflow_tasks)
      × ((delete_workflow_task token db).history_events ≡ db.history_events)
unfolding delete_workflow_task
delete-tables token db = (refl, refl)

-- A signal with a run id that is a UUID, committed while a workflow task of its run is in the queue, leased or not,
-- adds its event to the history and queues nothing. A worker that then completes a task of the queue without a
-- command leaves the queue as it was before the signal, less that task: the signal's event is in the history, and
-- no task was queued for it.
pub signal-no_wakeup :
    (fl : Float64) (cast : Cast) (text r : Run) (name : String) (input : Bytes) (now : Time)
    (db : Db) (u : Unit {0}) (db' : Db) (token : ℕ) (identity : String) (later : Time)
    (v : Unit {0}) (db'' : Db)
    → cast_run cast text ≡ some r
    → exists (λ t. t.run == r) db.workflow_tasks ≡ true
    → signal_workflow cast text name input now db ≡ ok (u, db')
    → complete_workflow_task fl token identity [] later db' ≡ ok (v, db'')
    → (id : ℕ) × (db''.history_events ≡ db.history_events ++ signal_row r id name input now ∷ [])
      × (db''.workflow_tasks ≡ delete_where (λ t. t.task_id == token) db.workflow_tasks)
signal-no_wakeup fl cast text r name input now db u db' token identity later v db'' c h e k =
    let (id, tasks, events) =
      signal-queued r name input now db u db' h
        (signal_workflow-run cast text r name input now db u db' c e) in
    let done = complete-nothing fl token identity later db' v db'' k in
    let tables = delete-tables token db' in
    (
      id,
      ap (λ x. x.history_events) done ∙ tables.1 ∙ events,
      ap (λ x. x.workflow_tasks) done
          ∙ tables.0
          ∙ ap (delete_where (λ t. t.task_id == token)) tasks,
    )
