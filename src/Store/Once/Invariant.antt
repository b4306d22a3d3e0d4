-- ===== src/Store/Once/Invariant.antt =====
-- The invariant of the queue of activity tasks in internal/storage/postgres/tasks.go, for the outcome
-- of an activity, and the statements that neither schedule nor end one.
use chronos_engine.Prelude.{
  ℕ, String, ◌+◌, ◌≤◌, ◌≡◌, refl, ap, false, some, [], ◌∷◌, arith, nat_eq, ◌==◌, count,
}
use chronos_engine.Prelude.Counting.{count-update_where}
use chronos_engine.Messages.{Time, WorkflowStatus, EventType, Attributes}
use chronos_engine.Store.Tables.{Run, run_eq, Execution, ActivityRow, Db}
use chronos_engine.Store.Monad.{exec}
use chronos_engine.Store.Keeps.{Keeps, Keeps-exec, keeps_rules}
use chronos_engine.Store.Events.{
  event, find_execution, update_execution, append_events, schedule_workflow_task,
  schedule_workflow_task_for_run,
}
use chronos_engine.Store.Workflows.{add_execution, insert_execution}
use chronos_engine.Store.Commands.{same_activity, close_execution}
use chronos_engine.Store.Activities.{update_activity, is_live, push_lease}
use chronos_engine.Store.Statements.{is_outcome, ends_activity}
use chronos_engine.Store.History.GapFree.{next_id}
use chronos_engine.Store.History.Calls.{next_id-close, next_id-add, next_id-frame}
use chronos_engine.Store.Once.{append-Appended, closing, closings, closings-append, next_id-grows}

-- The rows of the queue for the activity that the event s of the run r scheduled.
abbrev pub waiting : Run → ℕ → Db → ℕ
waiting r s db = count (same_activity r s) db.activity_tasks

abbrev pub ends : Run → ℕ → Db → ℕ
ends = closings ends_activity

pub record IsOnce (db : Db) : Type 0 where
  pub once : (r : Run) (s : ℕ) → ends r s db + waiting r s db ≤ 1
  pub fresh : (r : Run) (s : ℕ) → next_id r db ≤ s → ends r s db + waiting r s db ≡ 0
  pub started : (r : Run) → 1 ≤ next_id r db
  pub no_zero : (r : Run) → ends r 0 db + waiting r 0 db ≡ 0

-- A change that opens nothing and gives no id back.
pub no_more :
    (db db' : Db)
    → ((r : Run) (s : ℕ) → ends r s db' + waiting r s db' ≤ ends r s db + waiting r s db)
    → ((r : Run) → next_id r db ≤ next_id r db')
    → IsOnce db
    → IsOnce db'
no_more db db' less grows v = record {
  once = λ r s. omega (arith, less r s, v.once r s);
  fresh = λ r s h. omega (arith, less r s, grows r, v.fresh r s (omega (arith, grows r)));
  started = λ r. omega (arith, grows r, v.started r);
  no_zero = λ r. omega (arith, less r 0, v.no_zero r);
}

pub frame-IsOnce :
    (db db' : Db)
    → db'.executions ≡ db.executions
    → db'.history_events ≡ db.history_events
    → db'.activity_tasks ≡ db.activity_tasks
    → IsOnce db
    → IsOnce db'
frame-IsOnce db db' e h a v =
    no_more db db'
      (λ r s.
        omega (arith, ap (count (closing ends_activity r s)) h, ap (count (same_activity r s)) a))
      (λ r. omega (arith, next_id-frame db db' e r)) v

pub not_ends : (s : ℕ) (a : Attributes) → is_outcome a ≡ false → ends_activity s a ≡ false
not_ends s (Attributes.activity_task_completed k x) h = cc
not_ends s a h = ground arith

pub append-IsOnce :
    (r : Run) (now : Time) (type : EventType) (a : Attributes)
    → ((s : ℕ) → ends_activity s a ≡ false)
    → Keeps IsOnce (append_events r now (event type a ∷ []))
append-IsOnce r now type a quiet = record {
  at = λ db v n db' h.
      let done = append-Appended r now (event type a) db n db' h in
      no_more db db'
        (λ q s. ground (
          arith,
          closings-append ends_activity r q s now type a db n db' done,
          quiet s,
          ap (count (same_activity q s)) done.activities,
        ))
        (λ q. next_id-grows r q now (event type a) db n db' done) v;
}

pub add_execution-IsOnce :
    (row : Execution) → row.next_event_id ≡ 1 → Keeps IsOnce (exec (add_execution row))
unfolding add_execution
add_execution-IsOnce row one =
    Keeps-exec _
      λ db v. no_more db _ (λ r s. omega arith) (λ r. omega (arith, next_id-add row r db one)) v

pub insert-IsOnce : (row : Execution) → row.next_event_id ≡ 1 → Keeps IsOnce (insert_execution row)
unfolding insert_execution
insert-IsOnce row one = search (keeps_rules, add_execution-IsOnce) depth 7

pub close-IsOnce :
    (r : Run) (s : WorkflowStatus) (now : Time) → Keeps IsOnce (exec (close_execution r s now))
unfolding close_execution update_execution
close-IsOnce r s now =
    Keeps-exec _
      λ db v. no_more db _ (λ q k. omega arith) (λ q. omega (arith, next_id-close r q s now db)) v

pub update-IsOnce :
    (id : ℕ) (f : ActivityRow → ActivityRow)
    → ((t : ActivityRow) → (f t).run ≡ t.run)
    → ((t : ActivityRow) → (f t).scheduled_event_id ≡ t.scheduled_event_id)
    → Keeps IsOnce (exec (update_activity id f))
unfolding update_activity find_execution
update-IsOnce id f run scheduled = Keeps-exec _ λ db v.
    no_more db _
      (λ q k. omega (
        arith,
        count-update_where (λ t. t.task_id == id) (same_activity q k) f db.activity_tasks
            (λ t. ground (arith, run t, scheduled t)),
      ))
      (λ q. omega arith) v

pub lease-IsOnce : (token : ℕ) (until now : Time) → Keeps IsOnce (exec (push_lease token until now))
unfolding push_lease find_execution
lease-IsOnce token until now = Keeps-exec _ λ db v.
    no_more db _
      (λ q k. omega (
        arith,
        count-update_where (is_live token now) (same_activity q k)
            (λ t. record t { locked_until = some until }) db.activity_tasks (λ t. refl),
      ))
      (λ q. omega arith) v

pub schedule-IsOnce :
    (r : Run) (queue : String) (now : Time) → Keeps IsOnce (schedule_workflow_task r queue now)
unfolding schedule_workflow_task
schedule-IsOnce r queue now =
    Keeps-exec _ λ db v. frame-IsOnce db _ (ground arith) (ground arith) (ground arith) v

pub wake-IsOnce : (r : Run) (now : Time) → Keeps IsOnce (schedule_workflow_task_for_run r now)
unfolding schedule_workflow_task_for_run
wake-IsOnce r now = search (keeps_rules, schedule-IsOnce)
