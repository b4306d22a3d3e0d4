-- ===== src/Store/Fired/Timers.antt =====
-- The timers of a workflow, through every call of the store in internal/storage/postgres.
use mathlib.Core.Path.{subst}
use chronos_engine.Prelude.{
  String, ℕ, ◌+ℤ◌, ◌+◌, ◌≤◌, ◌≡◌, refl, sym, ap, ◌∙◌, true, false, ◌&&◌, some, List, [], ◌∷◌, arith,
  nat_eq, ◌==◌, ==_iff, if◌then◌else◌, count, first,
}
use chronos_engine.Prelude.Counting.{one_if, count-append}
use chronos_engine.Messages.{
  Time, EventType, Attributes, RetryPolicy, ScheduleActivityTaskCommand, StartTimerCommand,
  as_duration,
}
use chronos_engine.Core.{Float64}
use chronos_engine.Store.Tables.{Run, run_eq, ActivityRow, Db, empty_db}
use chronos_engine.Store.Monad.{ok, exec}
use chronos_engine.Store.Keeps.{Keeps, Keeps-exec, Keeps-bind, bind-inv, keeps_rules}
use chronos_engine.Store.Events.{event, find_execution, append_events}
use chronos_engine.Store.Workflows.{new_execution}
use chronos_engine.Store.Commands.{
  add_activity, insert_activity, apply_schedule_activity, add_timer, insert_timer,
  apply_start_timer,
}
use chronos_engine.Store.Activities.{update_activity, push_lease, delete_activity, finish_activity}
use chronos_engine.Store.Statements.{
  StatementRules, call_rules, ends_activity, fires_timer, is_outcome,
}
use chronos_engine.Store.Calls.{Call, run_calls}
use chronos_engine.Store.CallRules.{run_calls-Keeps}
use chronos_engine.Store.History.GapFree.{next_id}
use chronos_engine.Store.History.Calls.{next_id-frame}
use chronos_engine.Store.Once.{Appended, append-Appended, closings-append, next_id-grows}
use chronos_engine.Store.Fired.{
  unfired, pending, fires, IsTimed, frame-IsTimed, append-IsTimed, insert-IsTimed, close-IsTimed,
  wake-IsTimed,
}
use chronos_engine.Store.Fired.Loop.{fire_due-IsTimed}

insert_timer-inv :
    (r : Run) (n : ℕ) (id : String) (at : Time) (db : Db) (u : Unit {0}) (db' : Db)
    → insert_timer r n id at db ≡ ok (u, db')
    → db' ≡ add_timer r n id at db
unfolding insert_timer
insert_timer-inv r n id at db u db' h = ground arith

-- A new timer stands under the id of its event, which nothing has used.
module _ (r : Run) (n : ℕ) (now at : Time) (id : String) (a : Attributes) (db mid : Db)
    (quiet : (s : ℕ) → fires_timer s a ≡ false) (v : IsTimed db)
    (done : Appended r now (event EventType.timer_started a) db n mid) where
  abbrev started_db : Db
  started_db = add_timer r n id at mid

  total :
      (q : Run) (s : ℕ)
      → fires q s started_db + pending q s started_db
        ≡ fires q s db + pending q s db + one_if (r == q && n == s)
  unfolding count
  total q s = ground (
    arith,
    closings-append fires_timer r q s now EventType.timer_started a db n mid done,
    quiet s,
    ap (count (unfired q s)) done.timers,
    count-append (unfired q s) mid.timers
        (record { run = r; started_event_id = n; timer_id = id; fire_at = at; fired = false } ∷ []),
  )

  -- The id was free.
  unused : (q : Run) (s : ℕ) → (r == q && n == s) ≡ true → fires q s db + pending q s db ≡ 0
  unused q s h = v.fresh q s (omega (arith, done.first, at_run, at_id))
    where
      at_run : next_id r db ≡ next_id q db
      at_run = ap (λ x. next_id x db) ((==_iff r q).0 (ground arith))

      at_id : n ≡ s
      at_id = ground arith

  next_started : (q : Run) → next_id q started_db ≡ (if q == r then n + 1 else next_id q db)
  next_started q = next_id-frame mid started_db refl q ∙ done.next q

  started-fresh :
      (q : Run) (s : ℕ)
      → next_id q started_db ≤ s
      → fires q s started_db + pending q s started_db ≡ 0
  started-fresh q s h = ground (
    arith,
    total q s,
    next_started q,
    next_id-grows r q now (event EventType.timer_started a) db n mid done,
    done.next q,
    v.fresh q s,
    ==_iff r q,
    ==_iff q r,
  )

  started-IsTimed : IsTimed started_db
  started-IsTimed = record {
    once = λ q s. ground (arith, total q s, v.once q s, unused q s);
    fresh = started-fresh;
    started = λ q. ground (arith, next_started q, v.started q);
    no_zero = λ q. ground (arith, total q 0, v.no_zero q, v.started r, done.first);
  }

starts_timer-IsTimed :
    (r : Run) (now : Time) (cmd : StartTimerCommand) → Keeps IsTimed (apply_start_timer r now cmd)
unfolding apply_start_timer
starts_timer-IsTimed r now cmd = record {
  at = λ db v u db' h.
      let (n, mid, appended, rest) =
        bind-inv
          (append_events r now (
            event EventType.timer_started (started (now +ℤ as_duration cmd.start_to_fire_timeout))
            ∷ []))
          (λ n. insert_timer r n cmd.timer_id (now +ℤ as_duration cmd.start_to_fire_timeout)) db
          {b = u} {db' = db'} h in
      let at : Time = now +ℤ as_duration cmd.start_to_fire_timeout in
      subst IsTimed (sym (insert_timer-inv r n cmd.timer_id at mid u db' rest)) (
        started-IsTimed r n now at cmd.timer_id (started at) db mid (λ s. refl) v
          (append-Appended r now (event EventType.timer_started (started at)) db n mid appended));
}
  where
    started : Time → Attributes
    started at = Attributes.timer_started cmd.timer_id cmd.start_to_fire_timeout (some at)

-- The statements that do not touch the timers.
add_activity-IsTimed :
    (r : Run) (n : ℕ) (cmd : ScheduleActivityTaskCommand) (p : RetryPolicy) (now : Time)
    → Keeps IsTimed (exec (add_activity r n cmd p now))
add_activity-IsTimed r n cmd p now = Keeps-exec _ λ db v. frame-IsTimed db _ refl refl refl v

insert_activity-IsTimed :
    (r : Run) (n : ℕ) (cmd : ScheduleActivityTaskCommand) (p : RetryPolicy) (now : Time)
    → Keeps IsTimed (insert_activity r n cmd p now)
unfolding insert_activity
insert_activity-IsTimed r n cmd p now = search (keeps_rules, add_activity-IsTimed)

schedules-IsTimed :
    (fl : Float64) (r : Run) (now : Time) (cmd : ScheduleActivityTaskCommand)
    → Keeps IsTimed (apply_schedule_activity fl r now cmd)
unfolding apply_schedule_activity
schedules-IsTimed fl r now cmd =
    Keeps-bind _ _ (append-IsTimed r now _ _ (λ s. refl)) λ n. insert_activity-IsTimed r n cmd _ now

update-IsTimed :
    (id : ℕ) (f : ActivityRow → ActivityRow) → Keeps IsTimed (exec (update_activity id f))
unfolding update_activity
update-IsTimed id f = Keeps-exec _ λ db v. frame-IsTimed db _ refl refl refl v

lease-IsTimed : (token : ℕ) (until now : Time) → Keeps IsTimed (exec (push_lease token until now))
unfolding push_lease
lease-IsTimed token until now = Keeps-exec _ λ db v. frame-IsTimed db _ refl refl refl v

delete-IsTimed : (token : ℕ) → Keeps IsTimed (exec (delete_activity token))
unfolding delete_activity
delete-IsTimed token = Keeps-exec _ λ db v. frame-IsTimed db _ refl refl refl v

not_fires : (k s : ℕ) (a : Attributes) → ends_activity k a ≡ true → fires_timer s a ≡ false
not_fires k s (Attributes.timer_fired x j) h = cc
not_fires k s a h = ground arith

quiet_event : (s : ℕ) (a : Attributes) → is_outcome a ≡ false → fires_timer s a ≡ false
quiet_event s (Attributes.timer_fired x j) h = cc
quiet_event s a h = ground arith

finish-IsTimed :
    (token : ℕ) (t : ActivityRow) (type : EventType) (a : Attributes) (now : Time)
    → ends_activity t.scheduled_event_id a ≡ true
    → Keeps IsTimed (finish_activity token t type a now)
unfolding finish_activity
finish-IsTimed token t type a now ending =
    Keeps-bind _ _
      (append-IsTimed t.run now type a (λ s. not_fires t.scheduled_event_id s a ending))
      λ _. Keeps-bind _ _ (delete-IsTimed token) λ _. wake-IsTimed t.run now

pub IsTimed-rules : StatementRules IsTimed
IsTimed-rules = record {
  frame = λ db db' e h _ t _. frame-IsTimed db db' e h t;
  appends = λ r now type a quiet. append-IsTimed r now type a (λ s. quiet_event s a quiet);
  inserts = λ r p now. insert-IsTimed (new_execution r p now) refl;
  closes = λ r s now _. close-IsTimed r s now;
  updates = λ id f _ _ _. update-IsTimed id f;
  leases = lease-IsTimed;
  schedules = schedules-IsTimed;
  starts_timer = starts_timer-IsTimed;
  finishes = λ token t type a now ending db v _. (finish-IsTimed token t type a now ending).at db v;
  fires = fire_due-IsTimed;
}

pub empty-IsTimed : IsTimed empty_db
unfolding count find_execution first
empty-IsTimed = record {
  once = λ r s. omega arith;
  fresh = λ r s h. omega arith;
  started = λ r. omega arith;
  no_zero = λ r. omega arith;
}

-- Whatever calls the store has served, with any batch sizes and any readings of the clock: of the
-- TimerFired events of a run for the timer that a given event started, and the rows of `timers` for
-- it that are not yet marked as fired, there is at most one together. So no timer fires twice, also
-- when one call of `FireDueTimers` has several timers of one run to fire.
pub timer_fired_once :
    (fl : Float64) (cs : List (Time × Call)) (r : Run) (s : ℕ)
    → let db = run_calls fl empty_db cs in fires r s db + pending r s db ≤ 1
timer_fired_once fl cs r s =
    (run_calls-Keeps (call_rules IsTimed-rules fl) empty_db cs empty-IsTimed).once r s
