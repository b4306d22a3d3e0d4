-- ===== src/Store/Statements.antt =====
-- From the statements of the calls to the calls: what an invariant of the store has to show of each
-- statement that can touch it.
use chronos_engine.Prelude.{
  ℕ, ℤ, String, ◌≡◌, refl, ◌∙◌, Bool, true, false, Option, none, some, [], ◌∷◌, arith, nat_eq, ◌==◌,
  ==_refl,
}
use chronos_engine.Messages.{
  WorkflowStatus, EventType, Attributes, Failure, Bytes, Time, Duration, Command,
  ScheduleActivityTaskCommand, StartTimerCommand,
}
use chronos_engine.Core.{Float64}
use chronos_engine.Store.Tables.{Run, run_eq, TaskRow, ActivityRow, Db, StartWorkflowParams}
use chronos_engine.Store.Monad.{Tx, ok, ◌>>=◌, ◌>>◌, pure, row_or, when, task_lost, exec}
use chronos_engine.Store.Keeps.{
  Keeps, Keeps-exec, Keeps-bind, Keeps-pure, bind-inv, row_or-inv, when-inv, ok-injective,
  keeps_rules,
}
use chronos_engine.Store.Events.{
  event, append_events, schedule_workflow_task, schedule_workflow_task_for_run,
}
use chronos_engine.Store.Workflows.{
  is_status, insert_execution, new_execution, start_transaction, Cast, signal_run, signal_workflow,
}
use chronos_engine.Store.Commands.{
  lock_workflow_task, lease_workflow_task, poll_workflow_task, apply_schedule_activity,
  apply_start_timer, close_execution, apply_complete_workflow, apply_fail_workflow, apply_command,
  delete_workflow_task, not_owner,
}
use chronos_engine.Store.Activities.{
  push_lease, update_activity, record_attempt, record_started, lease_activity_task,
  poll_activity_task, find_activity, retry_delay, finish_activity, complete_activity_task,
  retry_activity, settle_failure, fail_activity_task, extend_activity_lease,
}
use chronos_engine.Store.Timers.{fire_due_timers}
use chronos_engine.Store.CallRules.{CallRules}
use mathlib.Core.Path.{subst}

-- The event says that a timer has fired or an activity has ended.
abbrev pub is_outcome : Attributes → Bool
is_outcome (Attributes.activity_task_completed _ _) = true
is_outcome (Attributes.activity_task_failed _ _ _) = true
is_outcome (Attributes.timer_fired _ _) = true
is_outcome _ = false

-- The event ends the activity that was scheduled by the event s.
abbrev pub ends_activity : ℕ → Attributes → Bool
ends_activity s (Attributes.activity_task_completed k _) = k == s
ends_activity s (Attributes.activity_task_failed k _ _) = k == s
ends_activity s _ = false

-- The event fires the timer that was started by the event s.
abbrev pub fires_timer : ℕ → Attributes → Bool
fires_timer s (Attributes.timer_fired _ k) = k == s
fires_timer s _ = false

pub record StatementRules (P : Db → Type 0) : Type 0 where
  pub frame :
      (db db' : Db)
      → db'.executions ≡ db.executions
      → db'.history_events ≡ db.history_events
      → db'.activity_tasks ≡ db.activity_tasks
      → db'.timers ≡ db.timers
      → db'.activity_task_seq ≡ db.activity_task_seq
      → P db
      → P db'
  pub appends :
      (r : Run) (now : Time) (type : EventType) (a : Attributes)
      → is_outcome a ≡ false
      → Keeps P (append_events r now (event type a ∷ []))
  pub inserts :
      (r : Run) (p : StartWorkflowParams) (now : Time)
      → Keeps P (insert_execution (new_execution r p now))
  pub closes :
      (r : Run) (s : WorkflowStatus) (now : Time)
      → is_status s WorkflowStatus.running ≡ false
      → Keeps P (exec (close_execution r s now))
  pub updates :
      (id : ℕ) (f : ActivityRow → ActivityRow)
      → ((t : ActivityRow) → (f t).run ≡ t.run)
      → ((t : ActivityRow) → (f t).scheduled_event_id ≡ t.scheduled_event_id)
      → ((t : ActivityRow) → (f t).task_id ≡ t.task_id)
      → Keeps P (exec (update_activity id f))
  pub leases : (token : ℕ) (until now : Time) → Keeps P (exec (push_lease token until now))
  pub schedules :
      (fl : Float64) (r : Run) (now : Time) (cmd : ScheduleActivityTaskCommand)
      → Keeps P (apply_schedule_activity fl r now cmd)
  pub starts_timer :
      (r : Run) (now : Time) (cmd : StartTimerCommand) → Keeps P (apply_start_timer r now cmd)
  pub finishes :
      (token : ℕ) (t : ActivityRow) (type : EventType) (a : Attributes) (now : Time)
      → ends_activity t.scheduled_event_id a ≡ true
      → (db : Db) → P db
      → find_activity token db ≡ some t
      → (u : Unit {0}) (db' : Db) → finish_activity token t type a now db ≡ ok (u, db')
      → P db'
  pub fires : (now : Time) (batch : ℤ) → Keeps P (fire_due_timers now batch)

module _ {P : Db → Type 0} (rules : StatementRules P) where
  append-Keeps :
      (r : Run) (now : Time) (type : EventType) (a : Attributes)
      → is_outcome a ≡ false
      → Keeps P (append_events r now (event type a ∷ []))
  append-Keeps = rules.appends

  update-Keeps :
      (id : ℕ) (f : ActivityRow → ActivityRow)
      → ((t : ActivityRow) → (f t).run ≡ t.run)
      → ((t : ActivityRow) → (f t).scheduled_event_id ≡ t.scheduled_event_id)
      → ((t : ActivityRow) → (f t).task_id ≡ t.task_id)
      → Keeps P (exec (update_activity id f))
  update-Keeps = rules.updates

  leases-Keeps : (token : ℕ) (until now : Time) → Keeps P (exec (push_lease token until now))
  leases-Keeps = rules.leases

  close-Keeps :
      (r : Run) (s : WorkflowStatus) (now : Time)
      → is_status s WorkflowStatus.running ≡ false
      → Keeps P (exec (close_execution r s now))
  close-Keeps = rules.closes

  schedule-Keeps :
      (r : Run) (queue : String) (now : Time) → Keeps P (schedule_workflow_task r queue now)
  unfolding schedule_workflow_task
  schedule-Keeps r queue now = Keeps-exec _ λ db v.
      rules.frame db _ (ground arith) (ground arith) (ground arith) (ground arith) (ground arith) v

  lock-Keeps :
      (id : ℕ) (identity : String) (until : Time)
      → Keeps P (exec (lock_workflow_task id identity until))
  unfolding lock_workflow_task
  lock-Keeps id identity until = Keeps-exec _ λ db v. rules.frame db _ refl refl refl refl refl v

  delete_task-Keeps : (id : ℕ) → Keeps P (exec (delete_workflow_task id))
  unfolding delete_workflow_task
  delete_task-Keeps id = Keeps-exec _ λ db v. rules.frame db _ refl refl refl refl refl v

  ruleset statement_rules = (
    keeps_rules, append-Keeps, update-Keeps, leases-Keeps, close-Keeps, schedule-Keeps, lock-Keeps,
    delete_task-Keeps, refl,
  )

  signal_run-Keeps :
      (r : Run) (name : String) (input : Bytes) (now : Time) → Keeps P (signal_run r name input now)
  unfolding signal_run
  signal_run-Keeps r name input now = search statement_rules

  signal-Keeps :
      (cast : Cast) (r : Run) (name : String) (input : Bytes) (now : Time)
      → Keeps P (signal_workflow cast r name input now)
  unfolding signal_workflow
  signal-Keeps cast r name input now = search (statement_rules, signal_run-Keeps)

  wake-Keeps : (r : Run) (now : Time) → Keeps P (schedule_workflow_task_for_run r now)
  unfolding schedule_workflow_task_for_run
  wake-Keeps r now = search statement_rules

  lease_workflow-Keeps :
      (t : Option TaskRow) (identity : String) (until : Time)
      → Keeps P (lease_workflow_task t identity until)
  unfolding lease_workflow_task
  lease_workflow-Keeps none identity until = search statement_rules
  lease_workflow-Keeps (some t) identity until = search statement_rules depth 7

  poll_workflow-Keeps :
      (queue identity : String) (lease : Duration) (now : Time)
      → Keeps P (poll_workflow_task queue identity lease now)
  unfolding poll_workflow_task
  poll_workflow-Keeps queue identity lease now = search (statement_rules, lease_workflow-Keeps)

  start-Keeps :
      (r : Run) (p : StartWorkflowParams) (now : Time) → Keeps P (start_transaction r p now)
  unfolding start_transaction
  start-Keeps r p now =
      Keeps-bind _ _ (rules.inserts r p now)
        λ _. Keeps-bind _ _ (rules.appends r now _ _ refl) λ _. schedule-Keeps r p.task_queue now

  command-Keeps :
      (fl : Float64) (r : Run) (now : Time) (c : Command) → Keeps P (apply_command fl r now c)
  unfolding apply_command apply_complete_workflow apply_fail_workflow
  command-Keeps fl r now (Command.schedule_activity_task a) =
      Keeps-bind _ _ (rules.schedules fl r now a) (λ _. Keeps-pure false)
  command-Keeps fl r now (Command.start_timer a) =
      Keeps-bind _ _ (rules.starts_timer r now a) (λ _. Keeps-pure false)
  command-Keeps fl r now (Command.complete_workflow_execution a) = search statement_rules depth 7
  command-Keeps fl r now (Command.fail_workflow_execution a) = search statement_rules depth 7
  command-Keeps fl r now Command.unset = search statement_rules

  record_attempt-Keeps :
      (t : ActivityRow) (identity : String) (now : Time) → Keeps P (record_attempt t identity now)
  unfolding record_attempt
  record_attempt-Keeps t identity now = search statement_rules

  record_started-Keeps :
      (t : ActivityRow) (identity : String) (now : Time) → Keeps P (record_started t identity now)
  unfolding record_started
  record_started-Keeps t identity now = search (statement_rules, record_attempt-Keeps)

  lease_activity-Keeps :
      (t : Option ActivityRow) (identity : String) (lease : Duration) (now : Time)
      → Keeps P (lease_activity_task t identity lease now)
  unfolding lease_activity_task
  lease_activity-Keeps none identity lease now = search statement_rules
  lease_activity-Keeps (some t) identity lease now =
      search (statement_rules, record_started-Keeps) depth 7

  poll_activity-Keeps :
      (queue identity : String) (lease : Duration) (now : Time)
      → Keeps P (poll_activity_task queue identity lease now)
  unfolding poll_activity_task
  poll_activity-Keeps queue identity lease now = search (keeps_rules, lease_activity-Keeps)

  -- The row that a token names, and the owner of its lease.
  retry-Keeps :
      (token : ℕ) (t : ActivityRow) (f : Option Failure) (delay : Duration) (now : Time)
      → Keeps P (retry_activity token t f delay now)
  unfolding retry_activity
  retry-Keeps token t f delay now =
      Keeps-bind _ _ (rules.appends _ _ _ _ refl)
        λ _. rules.updates token _ (λ _. refl) (λ _. refl) (λ _. refl)

  settles :
      (token : ℕ) (t : ActivityRow) (f : Option Failure) (retryable : Bool) (now : Time)
      (delay : Option Duration) (db : Db)
      → P db
      → find_activity token db ≡ some t
      → (b : Bool) (db' : Db) → settle_failure token t f retryable now delay db ≡ ok (b, db')
      → P db'
  unfolding settle_failure
  settles token t f retryable now (some delay) db v e b db' h =
      (Keeps-bind _ _ (retry-Keeps token t f delay now) (λ _. Keeps-pure true)).at db v b db' h
  settles token t f retryable now none db v e b db' h =
      let (u, mid, done, rest) =
        bind-inv
          (finish_activity token t EventType.activity_task_failed
            (Attributes.activity_task_failed t.scheduled_event_id f retryable) now)
          (λ _. pure false) db {b = b} {db' = db'} h in
      subst P (ok-injective rest).1
        (rules.finishes token t _ _ now (==_refl t.scheduled_event_id) db v e u mid done)

  -- A call that names an activity task by its token, and is refused unless it owns the lease.
  owned-Keeps :
      {B : Type 0} (token : ℕ) (identity : String) (rest : ActivityRow → Tx B)
      → ((t : ActivityRow) (db : Db)
          → P db
          → find_activity token db ≡ some t
          → (b : B) (db' : Db) → rest t db ≡ ok (b, db')
          → P db')
      → Keeps P (do
        t ← row_or task_lost (find_activity token)
        when (not_owner t.locked_by identity) task_lost
        rest t)
  owned-Keeps token identity rest k = record {
    at = λ db v b db' h.
        let (t, db₁, found, h₁) =
          bind-inv (row_or task_lost (find_activity token))
            (λ t. do when (not_owner t.locked_by identity) task_lost; rest t) db {b = b} {db' = db'}
            h in
        let (read, same) = row_or-inv task_lost (find_activity token) db found in
        let (u, db₂, passed, h₂) =
          bind-inv (when (not_owner t.locked_by identity) task_lost) (λ _. rest t) db₁ {b = b}
            {db' = db'} h₁ in
        let here = same ∙ (when-inv (not_owner t.locked_by identity) task_lost db₁ passed).1 in
        k t db₂ (subst P here v) (subst (λ x. find_activity token x ≡ some t) here read) b db' h₂;
  }

  complete_activity-Keeps :
      (token : ℕ) (identity : String) (result : Bytes) (now : Time)
      → Keeps P (complete_activity_task token identity result now)
  unfolding complete_activity_task
  complete_activity-Keeps token identity result now =
      owned-Keeps token identity _
        λ t. rules.finishes token t _ _ now (==_refl t.scheduled_event_id)

  fail_activity-Keeps :
      (fl : Float64) (token : ℕ) (identity : String) (f : Option Failure) (retryable : Bool)
      (now : Time)
      → Keeps P (fail_activity_task fl token identity f retryable now)
  unfolding fail_activity_task
  fail_activity-Keeps fl token identity f retryable now =
      owned-Keeps token identity _ λ t. settles token t f retryable now (retry_delay fl t retryable)

  extend-Keeps :
      (token : ℕ) (lease : Duration) (now : Time) → Keeps P (extend_activity_lease token lease now)
  unfolding extend_activity_lease
  extend-Keeps token lease now = search (keeps_rules, leases-Keeps)

  pub call_rules : (fl : Float64) → CallRules fl P
  call_rules fl = record {
    starts = start-Keeps;
    signals = signal-Keeps;
    polls_workflow = poll_workflow-Keeps;
    command = command-Keeps fl;
    deletes_task = delete_task-Keeps;
    polls_activity = poll_activity-Keeps;
    completes_activity = complete_activity-Keeps;
    fails_activity = fail_activity-Keeps fl;
    extends_lease = extend-Keeps;
    fires_timers = rules.fires;
  }
