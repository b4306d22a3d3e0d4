-- ===== src/Store/Once/Schedules.antt =====
-- The invariant under `applyScheduleActivity` of internal/storage/postgres/tasks.go.
use mathlib.Core.Path.{subst}
use chronos_engine.Prelude.{
  ℕ, pos, ◌+◌, ◌≤◌, ◌≡◌, refl, sym, ap, ◌∙◌, true, false, ◌&&◌, some, [], ◌∷◌, arith, nat_eq, ◌==◌,
  ==_iff, if◌then◌else◌, count,
}
use chronos_engine.Prelude.Counting.{one_if, count-append}
use chronos_engine.Messages.{Time, EventType, Attributes, RetryPolicy, ScheduleActivityTaskCommand}
use chronos_engine.Core.{Float64}
use chronos_engine.Store.Tables.{Run, run_eq, Db}
use chronos_engine.Store.Monad.{ok}
use chronos_engine.Store.Keeps.{Keeps, bind-inv}
use chronos_engine.Store.Events.{event, append_events}
use chronos_engine.Store.Commands.{
  same_activity, new_activity, add_activity, insert_activity, apply_schedule_activity, or_default,
}
use chronos_engine.Store.Statements.{ends_activity}
use chronos_engine.Store.History.GapFree.{next_id}
use chronos_engine.Store.History.Calls.{next_id-frame}
use chronos_engine.Store.Once.{Appended, append-Appended, closings-append, next_id-grows}
use chronos_engine.Store.Once.Invariant.{waiting, ends, IsOnce}

-- The row of a scheduled activity stands under the id of its event, which nothing has used.
pub insert_activity-inv :
    (r : Run) (n : ℕ) (cmd : ScheduleActivityTaskCommand) (p : RetryPolicy) (now : Time) (db : Db)
    (u : Unit {0}) (db' : Db)
    → insert_activity r n cmd p now db ≡ ok (u, db')
    → db' ≡ add_activity r n cmd p now db
unfolding insert_activity
insert_activity-inv r n cmd p now db u db' h = ground arith

module _ (r : Run) (n : ℕ) (now : Time) (type : EventType) (a : Attributes)
    (cmd : ScheduleActivityTaskCommand) (p : RetryPolicy) (db mid : Db)
    (quiet : (s : ℕ) → ends_activity s a ≡ false) (v : IsOnce db)
    (done : Appended r now (event type a) db n mid) where
  abbrev scheduled_db : Db
  scheduled_db = add_activity r n cmd p now mid

  total :
      (q : Run) (s : ℕ)
      → ends q s scheduled_db + waiting q s scheduled_db
        ≡ ends q s db + waiting q s db + one_if (r == q && n == s)
  unfolding count
  total q s = ground (
    arith,
    closings-append ends_activity r q s now type a db n mid done,
    quiet s,
    ap (count (same_activity q s)) done.activities,
    count-append (same_activity q s) mid.activity_tasks
        (new_activity r n cmd p now mid.activity_task_seq ∷ []),
  )

  -- The id was free.
  unused : (q : Run) (s : ℕ) → (r == q && n == s) ≡ true → ends q s db + waiting q s db ≡ 0
  unused q s h = v.fresh q s (omega (arith, done.first, at_run, at_id))
    where
      at_run : next_id r db ≡ next_id q db
      at_run = ap (λ x. next_id x db) ((==_iff r q).0 (ground arith))

      at_id : n ≡ s
      at_id = ground arith

  next_scheduled : (q : Run) → next_id q scheduled_db ≡ (if q == r then n + 1 else next_id q db)
  next_scheduled q = next_id-frame mid scheduled_db refl q ∙ done.next q

  scheduled-fresh :
      (q : Run) (s : ℕ)
      → next_id q scheduled_db ≤ s
      → ends q s scheduled_db + waiting q s scheduled_db ≡ 0
  scheduled-fresh q s h = ground (
    arith,
    total q s,
    next_scheduled q,
    next_id-grows r q now (event type a) db n mid done,
    done.next q,
    v.fresh q s,
    ==_iff r q,
    ==_iff q r,
  )

  schedule_row-IsOnce : IsOnce scheduled_db
  schedule_row-IsOnce = record {
    once = λ q s. ground (arith, total q s, v.once q s, unused q s);
    fresh = scheduled-fresh;
    started = λ q. ground (arith, next_scheduled q, v.started q);
    no_zero = λ q. ground (arith, total q 0, v.no_zero q, v.started r, done.first);
  }

pub schedules-IsOnce :
    (fl : Float64) (r : Run) (now : Time) (cmd : ScheduleActivityTaskCommand)
    → Keeps IsOnce (apply_schedule_activity fl r now cmd)
unfolding apply_schedule_activity
schedules-IsOnce fl r now cmd = record {
  at = λ db v u db' h.
      let (n, mid, appended, rest) =
        bind-inv (append_events r now (event EventType.activity_task_scheduled scheduled ∷ []))
          (λ n. insert_activity r n cmd retry now) db {b = u} {db' = db'} h in
      subst IsOnce (sym (insert_activity-inv r n cmd retry now mid u db' rest)) (
        schedule_row-IsOnce r n now EventType.activity_task_scheduled scheduled cmd retry db mid
          (λ s. refl) v
          (append-Appended r now (event EventType.activity_task_scheduled scheduled) db n mid
            appended));
}
  where
    retry : RetryPolicy
    retry = or_default fl cmd.retry_policy

    scheduled : Attributes
    scheduled =
        Attributes.activity_task_scheduled cmd.activity_id cmd.activity_type cmd.task_queue
          cmd.input (some retry) cmd.start_to_close_timeout (pos 1)
