-- ===== src/Store/Progress/Added.antt =====
-- What the end of an activity adds to the history table, in internal/storage/postgres/tasks.go.
use chronos_engine.Prelude.{ℕ, String, List, [], ◌∷◌, ◌++◌, ◌≡◌, refl, ap, ◌∙◌, arith}
use chronos_engine.Messages.{Time, EventType, Attributes}
use chronos_engine.Store.Tables.{Run, HistoryRow, ActivityRow, Db}
use chronos_engine.Store.Monad.{ok, ◌>>◌, exec}
use chronos_engine.Store.Keeps.{Keeps, Keeps-exec, keeps_rules, bind-inv}
use chronos_engine.Store.Events.{
  event, stamp, append_events, schedule_workflow_task, schedule_workflow_task_for_run,
}
use chronos_engine.Store.Activities.{delete_activity, finish_activity}
use chronos_engine.Store.History.GapFree.{next_id}
use chronos_engine.Store.Once.{append-Appended}

abbrev HasHistory : List HistoryRow → Db → Type 0
HasHistory rows db = db.history_events ≡ rows

schedule-HasHistory :
    (rows : List HistoryRow) (r : Run) (queue : String) (now : Time)
    → Keeps (HasHistory rows) (schedule_workflow_task r queue now)
unfolding schedule_workflow_task
schedule-HasHistory rows r queue now = Keeps-exec _ λ db v. ground (arith, v)

wake-HasHistory :
    (rows : List HistoryRow) (r : Run) (now : Time)
    → Keeps (HasHistory rows) (schedule_workflow_task_for_run r now)
unfolding schedule_workflow_task_for_run
wake-HasHistory rows r now = search (keeps_rules, schedule-HasHistory)

pub finish_adds :
    (token : ℕ) (t : ActivityRow) (type : EventType) (a : Attributes) (now : Time) (db : Db)
    (u : Unit {0}) (db' : Db)
    → finish_activity token t type a now db ≡ ok (u, db')
    → db'.history_events
      ≡ db.history_events
        ++ record {
          run = t.run;
          event_id = next_id t.run db;
          data_event = stamp (event type a) (next_id t.run db) now;
        }
          ∷ []
unfolding finish_activity delete_activity
finish_adds token t type a now db u db' h =
    let (n, mid, appended, rest) =
      bind-inv (append_events t.run now (event type a ∷ []))
        (λ _. do exec (delete_activity token); schedule_workflow_task_for_run t.run now) db {b = u}
        {db' = db'} h in
    let added = append-Appended t.run now (event type a) db n mid appended in
    (wake-HasHistory mid.history_events t.run now).at (delete_activity token mid) refl u db' rest
    ∙ added.rows
    ∙ ap
        (λ (k : ℕ).
          db.history_events
          ++ record { run = t.run; event_id = k; data_event = stamp (event type a) k now } ∷ [])
        added.first
