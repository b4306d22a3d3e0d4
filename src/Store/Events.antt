-- ===== src/Store/Events.antt =====
-- internal/storage/postgres/helpers.go.
use chronos_engine.Prelude.{
  ℕ, ◌+◌, ltb, String, Option, none, some, List, [], ◌∷◌, ◌++◌, map, ◌&&◌, ◌==◌, nat_eq,
  if◌then◌else◌, first, select, exists, update_where,
}
use chronos_engine.Messages.{Time, EventType, HistoryEvent, Attributes}
use chronos_engine.Store.Tables.{Run, run_eq, Execution, HistoryRow, Db}
use chronos_engine.Store.Monad.{
  Tx, ◌>>=◌, ◌>>◌, pure, gets, row_or, exec, when, no_rows, unique_violation, order_by,
}

-- `event(t)` with its attributes set.
abbrev pub event : EventType → Attributes → HistoryEvent
event t a = record { event_id = 0; event_type = t; event_time = none; attributes = some a }

unfoldable pub find_execution : Run → Db → Option Execution
find_execution r db = first (λ e. e.run == r) db.executions

unfoldable pub update_execution : Run → (Execution → Execution) → Db → Db
update_execution r f db = record db { executions = update_where (λ e. e.run == r) f db.executions }

abbrev pub stamp : HistoryEvent → ℕ → Time → HistoryEvent
stamp e id now = record e {
  event_id = id;
  event_time = elim e.event_time [ none ↦ some now | some t ↦ some t ];
}

-- The INSERT into `history_events`, with the table's primary key.
unfoldable pub insert_event : Run → ℕ → HistoryEvent → Tx Unit
insert_event r id e = do
  taken ← gets (λ db. exists (λ row. row.run == r && row.event_id == id) db.history_events)
  when taken unique_violation
  exec λ db. record db {
    history_events = db.history_events ++ record { run = r; event_id = id; data_event = e } ∷ [];
  }

-- The loop of `appendEvents`: it returns the id after the last.
unfoldable pub append_loop : Run → Time → ℕ → List HistoryEvent → Tx ℕ
append_loop r now next_id [] = pure next_id
append_loop r now next_id (e ∷ es) = do
  insert_event r next_id (stamp e next_id now)
  append_loop r now (next_id + 1) es

unfoldable pub append_events : Run → Time → List HistoryEvent → Tx ℕ
append_events r now [] = pure 0
append_events r now (e ∷ es) = do
  row ← row_or no_rows (find_execution r)
  next_id ← append_loop r now row.next_event_id (e ∷ es)
  exec (update_execution r (λ x. record x { next_event_id = next_id }))
  pure row.next_event_id

-- `INSERT ... ON CONFLICT (workflow_id, run_id) DO NOTHING`.
unfoldable pub schedule_workflow_task : Run → String → Time → Tx Unit
schedule_workflow_task r task_queue now = exec λ db.
    if exists (λ t. t.run == r) db.workflow_tasks then db else record db {
      workflow_tasks =
          db.workflow_tasks
          ++ record {
            task_id = db.workflow_task_seq;
            run = r;
            task_queue = task_queue;
            visible_at = now;
            locked_until = none;
            locked_by = none;
          }
            ∷ [];
      workflow_task_seq = db.workflow_task_seq + 1;
    }

unfoldable pub schedule_workflow_task_for_run : Run → Time → Tx Unit
schedule_workflow_task_for_run r now = do
  row ← row_or no_rows (find_execution r)
  schedule_workflow_task r row.task_queue now

abbrev rows_of : Run → Db → List HistoryRow
rows_of r db = select (λ row. row.run == r) db.history_events

-- `ORDER BY event_id ASC`.
unfoldable pub load_history : Run → Db → List HistoryEvent
load_history r db =
    map (λ row. row.data_event) (order_by (λ a b. ltb a.event_id b.event_id) (rows_of r db))
