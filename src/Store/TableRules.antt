-- ===== src/Store/TableRules.antt =====
-- Invariants that speak of the executions and the events alone: what they have to show of the few
-- statements that touch these two tables, and from that all the calls.
use chronos_engine.Prelude.{ℕ, ℤ, String, ◌+◌, ◌≡◌, refl, false, List, [], ◌∷◌, arith, nat_eq}
use chronos_engine.Messages.{
  WorkflowStatus, EventType, Attributes, Time, HistoryEvent, RetryPolicy,
  ScheduleActivityTaskCommand, StartTimerCommand,
}
use chronos_engine.Core.{Float64}
use chronos_engine.Store.Tables.{Run, run_eq, ActivityRow, TimerRow, Db, StartWorkflowParams}
use chronos_engine.Store.Monad.{exec}
use chronos_engine.Store.Keeps.{Keeps, Keeps-exec, Keeps-bind, Keeps-pure, keeps_rules}
use chronos_engine.Store.Events.{
  append_events, schedule_workflow_task, schedule_workflow_task_for_run,
}
use chronos_engine.Store.Workflows.{is_status, insert_execution, new_execution}
use chronos_engine.Store.Commands.{
  add_activity, add_timer, insert_activity, apply_schedule_activity, insert_timer,
  apply_start_timer, close_execution,
}
use chronos_engine.Store.Activities.{push_lease, update_activity, delete_activity, finish_activity}
use chronos_engine.Store.Timers.{mark_fired, fire_timer, fire_all, fire_due_timers}
use chronos_engine.Store.Statements.{StatementRules}

pub record TableRules (P : Db → Type 0) : Type 0 where
  pub frame :
      (db db' : Db)
      → db'.executions ≡ db.executions
      → db'.history_events ≡ db.history_events
      → P db
      → P db'
  pub appends : (r : Run) (now : Time) (es : List HistoryEvent) → Keeps P (append_events r now es)
  pub inserts :
      (r : Run) (p : StartWorkflowParams) (now : Time)
      → Keeps P (insert_execution (new_execution r p now))
  pub closes :
      (r : Run) (s : WorkflowStatus) (now : Time)
      → is_status s WorkflowStatus.running ≡ false
      → Keeps P (exec (close_execution r s now))

module _ {P : Db → Type 0} (rules : TableRules P) where
  appends-Keeps : (r : Run) (now : Time) (es : List HistoryEvent) → Keeps P (append_events r now es)
  appends-Keeps = rules.appends

  schedule-Keeps :
      (r : Run) (queue : String) (now : Time) → Keeps P (schedule_workflow_task r queue now)
  unfolding schedule_workflow_task
  schedule-Keeps r queue now = Keeps-exec _ λ db v. rules.frame db _ (ground arith) (ground arith) v

  update_activity-Keeps :
      (id : ℕ) (f : ActivityRow → ActivityRow) → Keeps P (exec (update_activity id f))
  unfolding update_activity
  update_activity-Keeps id f = Keeps-exec _ λ db v. rules.frame db _ refl refl v

  delete_activity-Keeps : (id : ℕ) → Keeps P (exec (delete_activity id))
  unfolding delete_activity
  delete_activity-Keeps id = Keeps-exec _ λ db v. rules.frame db _ refl refl v

  add_activity-Keeps :
      (r : Run) (id : ℕ) (cmd : ScheduleActivityTaskCommand) (p : RetryPolicy) (now : Time)
      → Keeps P (exec (add_activity r id cmd p now))
  add_activity-Keeps r id cmd p now = Keeps-exec _ λ db v. rules.frame db _ refl refl v

  add_timer-Keeps :
      (r : Run) (id : ℕ) (name : String) (at : Time) → Keeps P (exec (add_timer r id name at))
  add_timer-Keeps r id name at = Keeps-exec _ λ db v. rules.frame db _ refl refl v

  mark_fired-Keeps : (d : TimerRow) → Keeps P (exec (mark_fired d))
  unfolding mark_fired
  mark_fired-Keeps d = Keeps-exec _ λ db v. rules.frame db _ refl refl v

  ruleset table_rules = (
    keeps_rules, appends-Keeps, schedule-Keeps, update_activity-Keeps, delete_activity-Keeps,
    add_activity-Keeps, add_timer-Keeps, mark_fired-Keeps,
  )

  wake-Keeps : (r : Run) (now : Time) → Keeps P (schedule_workflow_task_for_run r now)
  unfolding schedule_workflow_task_for_run
  wake-Keeps r now = search table_rules

  insert_activity-Keeps :
      (r : Run) (id : ℕ) (cmd : ScheduleActivityTaskCommand) (p : RetryPolicy) (now : Time)
      → Keeps P (insert_activity r id cmd p now)
  unfolding insert_activity
  insert_activity-Keeps r id cmd p now = search table_rules

  insert_timer-Keeps :
      (r : Run) (id : ℕ) (name : String) (at : Time) → Keeps P (insert_timer r id name at)
  unfolding insert_timer
  insert_timer-Keeps r id name at = search table_rules

  ruleset row_rules = (table_rules, insert_activity-Keeps, insert_timer-Keeps, wake-Keeps)

  finish-Keeps :
      (token : ℕ) (t : ActivityRow) (type : EventType) (a : Attributes) (now : Time)
      → Keeps P (finish_activity token t type a now)
  unfolding finish_activity
  finish-Keeps token t type a now = search row_rules depth 7

  push_lease-Keeps : (token : ℕ) (until now : Time) → Keeps P (exec (push_lease token until now))
  unfolding push_lease
  push_lease-Keeps token until now = Keeps-exec _ λ db v. rules.frame db _ refl refl v

  pub fire_timer-Keeps : (now : Time) (d : TimerRow) → Keeps P (fire_timer now d)
  unfolding fire_timer
  fire_timer-Keeps now d = search row_rules depth 7

  fire_all-Keeps : (now : Time) (n : ℕ) (dues : List TimerRow) → Keeps P (fire_all now n dues)
  unfolding fire_all
  fire_all-Keeps now n [] = Keeps-pure n
  fire_all-Keeps now n (d ∷ dues) =
      Keeps-bind _ _ (fire_timer-Keeps now d) (λ _. fire_all-Keeps now (n + 1) dues)

  fire_due-Keeps : (now : Time) (batch : ℤ) → Keeps P (fire_due_timers now batch)
  unfolding fire_due_timers
  fire_due-Keeps now batch = search (keeps_rules, fire_all-Keeps)

  schedules-Keeps :
      (fl : Float64) (r : Run) (now : Time) (cmd : ScheduleActivityTaskCommand)
      → Keeps P (apply_schedule_activity fl r now cmd)
  unfolding apply_schedule_activity
  schedules-Keeps fl r now cmd = search row_rules

  starts_timer-Keeps :
      (r : Run) (now : Time) (cmd : StartTimerCommand) → Keeps P (apply_start_timer r now cmd)
  unfolding apply_start_timer
  starts_timer-Keeps r now cmd = search row_rules

  pub statements : StatementRules P
  statements = record {
    frame = λ db db' e h _ _ _. rules.frame db db' e h;
    appends = λ r now type a _. rules.appends r now _;
    inserts = rules.inserts;
    closes = rules.closes;
    updates = λ id f _ _ _. update_activity-Keeps id f;
    leases = push_lease-Keeps;
    schedules = schedules-Keeps;
    starts_timer = starts_timer-Keeps;
    finishes = λ token t type a now _ db v _. (finish-Keeps token t type a now).at db v;
    fires = fire_due-Keeps;
  }
