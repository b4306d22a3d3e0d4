-- ===== src/Store/Once/Finishes.antt =====
-- The invariant under the end of an activity, in internal/storage/postgres/tasks.go.
use mathlib.Core.Path.{subst}
use chronos_engine.Prelude.{
  ℕ, ◌+◌, ◌≤◌, ◌≡◌, refl, sym, ap, true, some, [], ◌∷◌, arith, nat_eq, ◌==◌, ==_iff, count,
  delete_where,
}
use chronos_engine.Prelude.Counting.{one_if, count-delete_where}
use chronos_engine.Messages.{Time, EventType, Attributes}
use chronos_engine.Store.Tables.{Run, run_eq, ActivityRow, Db}
use chronos_engine.Store.Monad.{ok, ◌>>◌, exec}
use chronos_engine.Store.Keeps.{bind-inv}
use chronos_engine.Store.Events.{event, append_events, schedule_workflow_task_for_run}
use chronos_engine.Store.Commands.{same_activity}
use chronos_engine.Store.Activities.{find_activity, delete_activity, finish_activity}
use chronos_engine.Store.Statements.{ends_activity}
use chronos_engine.Store.History.Calls.{next_id-frame}
use chronos_engine.Store.Once.{Appended, append-Appended, closing, closings-append, next_id-grows}
use chronos_engine.Store.Once.Invariant.{waiting, IsOnce, no_more, wake-IsOnce}

pub not_ends_other :
    (k s : ℕ) (a : Attributes) → ends_activity k a ≡ true → ends_activity s a ≡ (k == s)
not_ends_other k s (Attributes.activity_task_completed j x) h = rw ((==_iff j k).0 h)
not_ends_other k s (Attributes.activity_task_failed j x y) h = rw ((==_iff j k).0 h)
not_ends_other k s a h = ground arith

pub delete_activity-frame :
    (token : ℕ) (db : Db)
    → ((delete_activity token db).executions ≡ db.executions)
      × ((delete_activity token db).history_events ≡ db.history_events)
unfolding delete_activity
delete_activity-frame token db = (refl, refl)

pub finish-IsOnce :
    (token : ℕ) (t : ActivityRow) (type : EventType) (a : Attributes) (now : Time)
    → ends_activity t.scheduled_event_id a ≡ true
    → (db : Db) → IsOnce db
    → find_activity token db ≡ some t
    → (u : Unit {0}) (db' : Db) → finish_activity token t type a now db ≡ ok (u, db')
    → IsOnce db'
unfolding finish_activity
finish-IsOnce token t type a now ending db v found u db' h =
    let (n, mid, appended, rest) =
      bind-inv (append_events t.run now (event type a ∷ []))
        (λ _. do exec (delete_activity token); schedule_workflow_task_for_run t.run now) db {b = u}
        {db' = db'} h in
    let done = append-Appended t.run now (event type a) db n mid appended in
    (wake-IsOnce t.run now).at (delete_activity token mid) (deleted n mid done) u db' rest
  where
    gone :
        (n : ℕ) (mid : Db)
        → Appended t.run now (event type a) db n mid
        → (q : Run) (s : ℕ)
        → waiting q s (delete_activity token mid) + one_if (same_activity q s t) ≤ waiting q s db
    gone n mid done q s =
        unfold delete_activity find_activity in
        subst
          (λ rows.
            count (same_activity q s) (delete_where (λ x. x.task_id == token) rows)
              + one_if (same_activity q s t)
            ≤ waiting q s db)
          (sym done.activities)
          (count-delete_where (λ x. x.task_id == token) (same_activity q s) db.activity_tasks t
            found)

    deleted :
        (n : ℕ) (mid : Db)
        → Appended t.run now (event type a) db n mid
        → IsOnce (delete_activity token mid)
    deleted n mid done =
        no_more db _
          (λ q s. ground (
            arith,
            closings-append ends_activity t.run q s now type a db n mid done,
            not_ends_other t.scheduled_event_id s a ending,
            gone n mid done q s,
            ap (count (closing ends_activity q s)) (delete_activity-frame token mid).1,
          ))
          (λ q. omega (
            arith,
            next_id-grows t.run q now (event type a) db n mid done,
            next_id-frame mid (delete_activity token mid) (delete_activity-frame token mid).0 q,
          ))
          v
