-- ===== src/Store/Once/Activities.antt =====
-- The outcomes of activities, through every call of the store in internal/storage/postgres.
use chronos_engine.Prelude.{
  ℕ, ℤ, String, ◌+◌, ◌≤◌, refl, List, [], ◌∷◌, arith, nat_eq, count, first,
}
use chronos_engine.Messages.{Time, StartTimerCommand}
use chronos_engine.Core.{Float64}
use chronos_engine.Store.Tables.{Run, run_eq, TimerRow, empty_db}
use chronos_engine.Store.Monad.{exec}
use chronos_engine.Store.Keeps.{Keeps, Keeps-pure, Keeps-exec, Keeps-bind, keeps_rules}
use chronos_engine.Store.Workflows.{new_execution}
use chronos_engine.Store.Events.{find_execution}
use chronos_engine.Store.Commands.{add_timer, insert_timer, apply_start_timer}
use chronos_engine.Store.Timers.{mark_fired, fire_timer, fire_all, fire_due_timers}
use chronos_engine.Store.Statements.{StatementRules, call_rules}
use chronos_engine.Store.Calls.{Call, run_calls}
use chronos_engine.Store.CallRules.{run_calls-Keeps}
use chronos_engine.Store.Once.Invariant.{
  waiting, ends, IsOnce, frame-IsOnce, not_ends, append-IsOnce, insert-IsOnce, close-IsOnce,
  update-IsOnce, lease-IsOnce, wake-IsOnce,
}
use chronos_engine.Store.Once.Schedules.{schedules-IsOnce}
use chronos_engine.Store.Once.Finishes.{finish-IsOnce}

add_timer-IsOnce :
    (r : Run) (id : ℕ) (name : String) (at : Time) → Keeps IsOnce (exec (add_timer r id name at))
add_timer-IsOnce r id name at = Keeps-exec _ λ db v. frame-IsOnce db _ refl refl refl v

insert_timer-IsOnce :
    (r : Run) (id : ℕ) (name : String) (at : Time) → Keeps IsOnce (insert_timer r id name at)
unfolding insert_timer
insert_timer-IsOnce r id name at = search (keeps_rules, add_timer-IsOnce)

starts_timer-IsOnce :
    (r : Run) (now : Time) (cmd : StartTimerCommand) → Keeps IsOnce (apply_start_timer r now cmd)
unfolding apply_start_timer
starts_timer-IsOnce r now cmd =
    Keeps-bind _ _ (append-IsOnce r now _ _ (λ s. refl)) λ n. insert_timer-IsOnce r n cmd.timer_id _

mark_fired-IsOnce : (d : TimerRow) → Keeps IsOnce (exec (mark_fired d))
unfolding mark_fired
mark_fired-IsOnce d = Keeps-exec _ λ db v. frame-IsOnce db _ refl refl refl v

fire_timer-IsOnce : (now : Time) (d : TimerRow) → Keeps IsOnce (fire_timer now d)
unfolding fire_timer
fire_timer-IsOnce now d =
    Keeps-bind _ _ (append-IsOnce d.run now _ _ (λ s. refl))
      λ _. Keeps-bind _ _ (mark_fired-IsOnce d) λ _. wake-IsOnce d.run now

fire_all-IsOnce : (now : Time) (n : ℕ) (dues : List TimerRow) → Keeps IsOnce (fire_all now n dues)
unfolding fire_all
fire_all-IsOnce now n [] = Keeps-pure n
fire_all-IsOnce now n (d ∷ dues) =
    Keeps-bind _ _ (fire_timer-IsOnce now d) (λ _. fire_all-IsOnce now (n + 1) dues)

fire_due-IsOnce : (now : Time) (batch : ℤ) → Keeps IsOnce (fire_due_timers now batch)
unfolding fire_due_timers
fire_due-IsOnce now batch = search (keeps_rules, fire_all-IsOnce)

pub IsOnce-rules : StatementRules IsOnce
IsOnce-rules = record {
  frame = λ db db' e h a _ _. frame-IsOnce db db' e h a;
  appends = λ r now type a quiet. append-IsOnce r now type a (λ s. not_ends s a quiet);
  inserts = λ r p now. insert-IsOnce (new_execution r p now) refl;
  closes = λ r s now _. close-IsOnce r s now;
  updates = λ id f run event _. update-IsOnce id f run event;
  leases = lease-IsOnce;
  schedules = schedules-IsOnce;
  starts_timer = starts_timer-IsOnce;
  finishes = finish-IsOnce;
  fires = fire_due-IsOnce;
}

pub empty-IsOnce : IsOnce empty_db
unfolding count find_execution first
empty-IsOnce = record {
  once = λ r s. omega arith;
  fresh = λ r s h. omega arith;
  started = λ r. omega arith;
  no_zero = λ r. omega arith;
}

-- Whatever calls the store has served, and however often a task was delivered and answered: of the
-- events of a run that end the activity scheduled by a given event (ActivityTaskCompleted or
-- ActivityTaskFailed) and the rows of `activity_tasks` for it there is at most one together. So its
-- outcome is recorded at most once, and once it is, no row is left to dispatch it again.
pub outcome_once :
    (fl : Float64) (cs : List (Time × Call)) (r : Run) (s : ℕ)
    → let db = run_calls fl empty_db cs in ends r s db + waiting r s db ≤ 1
outcome_once fl cs r s =
    (run_calls-Keeps (call_rules IsOnce-rules fl) empty_db cs empty-IsOnce).once r s
