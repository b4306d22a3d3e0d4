-- ===== src/Store/Fired.antt =====
-- The invariant of the timers of internal/storage/postgres: the events that fire a timer and the rows that
-- may still fire it.
pub mod Loop
pub mod Timers
pub mod Due
use chronos_engine.Prelude.{
  ℕ, suc, ◌+◌, ◌≤◌, ◌≡◌, refl, sym, ap, ◌∙◌, Bool, true, false, not, ◌&&◌, List, [], ◌∷◌, arith,
  nat_eq, ◌==◌, ==_iff, if◌then◌else◌, count, update_where, String,
}
use chronos_engine.Prelude.Counting.{one_if}
use chronos_engine.Messages.{Time, WorkflowStatus, EventType, Attributes}
use chronos_engine.Store.Tables.{Run, run_eq, Execution, TimerRow, Db}
use chronos_engine.Store.Monad.{exec}
use chronos_engine.Store.Keeps.{Keeps, Keeps-exec, keeps_rules}
use chronos_engine.Store.Events.{
  event, append_events, schedule_workflow_task, schedule_workflow_task_for_run, update_execution,
}
use chronos_engine.Store.Workflows.{add_execution, insert_execution}
use chronos_engine.Store.Commands.{same_timer, close_execution}
use chronos_engine.Store.Statements.{fires_timer}
use chronos_engine.Store.History.GapFree.{next_id}
use chronos_engine.Store.History.Calls.{next_id-close, next_id-add, next_id-frame}
use chronos_engine.Store.Once.{append-Appended, closing, closings, closings-append, next_id-grows}

abbrev pub unfired : Run → ℕ → TimerRow → Bool
unfired r s t = same_timer r s t && not t.fired

-- The rows that may still fire the timer that the event s of the run r started.
abbrev pub pending : Run → ℕ → Db → ℕ
pending r s db = count (unfired r s) db.timers

abbrev pub fires : Run → ℕ → Db → ℕ
fires = closings fires_timer

pub record IsTimed (db : Db) : Type 0 where
  pub once : (r : Run) (s : ℕ) → fires r s db + pending r s db ≤ 1
  pub fresh : (r : Run) (s : ℕ) → next_id r db ≤ s → fires r s db + pending r s db ≡ 0
  pub started : (r : Run) → 1 ≤ next_id r db
  pub no_zero : (r : Run) → fires r 0 db + pending r 0 db ≡ 0

-- A change that opens nothing and gives no id back.
pub no_later :
    (db db' : Db)
    → ((r : Run) (s : ℕ) → fires r s db' + pending r s db' ≤ fires r s db + pending r s db)
    → ((r : Run) → next_id r db ≤ next_id r db')
    → IsTimed db
    → IsTimed db'
no_later db db' less grows v = record {
  once = λ r s. omega (arith, less r s, v.once r s);
  fresh = λ r s h. omega (arith, less r s, grows r, v.fresh r s (omega (arith, grows r)));
  started = λ r. omega (arith, grows r, v.started r);
  no_zero = λ r. omega (arith, less r 0, v.no_zero r);
}

pub frame-IsTimed :
    (db db' : Db)
    → db'.executions ≡ db.executions
    → db'.history_events ≡ db.history_events
    → db'.timers ≡ db.timers
    → IsTimed db
    → IsTimed db'
frame-IsTimed db db' e h a v =
    no_later db db'
      (λ r s. omega (arith, ap (count (closing fires_timer r s)) h, ap (count (unfired r s)) a))
      (λ r. omega (arith, next_id-frame db db' e r)) v

pub append-IsTimed :
    (r : Run) (now : Time) (type : EventType) (a : Attributes)
    → ((s : ℕ) → fires_timer s a ≡ false)
    → Keeps IsTimed (append_events r now (event type a ∷ []))
append-IsTimed r now type a quiet = record {
  at = λ db v n db' h.
      let done = append-Appended r now (event type a) db n db' h in
      no_later db db'
        (λ q s. ground (
          arith,
          closings-append fires_timer r q s now type a db n db' done,
          quiet s,
          ap (count (unfired q s)) done.timers,
        ))
        (λ q. next_id-grows r q now (event type a) db n db' done) v;
}

add_execution-IsTimed :
    (row : Execution) → row.next_event_id ≡ 1 → Keeps IsTimed (exec (add_execution row))
unfolding add_execution
add_execution-IsTimed row one =
    Keeps-exec _
      λ db v. no_later db _ (λ r s. omega arith) (λ r. omega (arith, next_id-add row r db one)) v

pub insert-IsTimed :
    (row : Execution) → row.next_event_id ≡ 1 → Keeps IsTimed (insert_execution row)
unfolding insert_execution
insert-IsTimed row one = search (keeps_rules, add_execution-IsTimed) depth 7

pub close-IsTimed :
    (r : Run) (s : WorkflowStatus) (now : Time) → Keeps IsTimed (exec (close_execution r s now))
unfolding close_execution update_execution
close-IsTimed r s now =
    Keeps-exec _
      λ db v. no_later db _ (λ q k. omega arith) (λ q. omega (arith, next_id-close r q s now db)) v

schedule-IsTimed :
    (r : Run) (queue : String) (now : Time) → Keeps IsTimed (schedule_workflow_task r queue now)
unfolding schedule_workflow_task
schedule-IsTimed r queue now =
    Keeps-exec _ λ db v. frame-IsTimed db _ (ground arith) (ground arith) (ground arith) v

pub wake-IsTimed : (r : Run) (now : Time) → Keeps IsTimed (schedule_workflow_task_for_run r now)
unfolding schedule_workflow_task_for_run
wake-IsTimed r now = search (keeps_rules, schedule-IsTimed)
