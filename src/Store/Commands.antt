-- ===== src/Store/Commands.antt =====
-- internal/storage/postgres/tasks.go: the queue of workflow tasks and the commands of a decision.
use chronos_engine.Prelude.{
  ℕ, ◌+◌, ◌-◌, pos, ◌+ℤ◌, leb_ℤ, String, Option, none, some, List, [], ◌∷◌, ◌++◌, Bool, true, false,
  not, ◌&&◌, nat_eq, string_eq, ◌==◌, if◌then◌else◌, first, select, exists, update_where,
  delete_where,
}
use chronos_engine.Messages.{
  Bytes, Time, Duration, WorkflowStatus, EventType, Attributes, Failure, RetryPolicy,
  ScheduleActivityTaskCommand, StartTimerCommand, Command, as_duration,
}
use chronos_engine.Core.{Float64, default_activity_retry_policy}
use chronos_engine.Store.Tables.{Run, run_eq, TaskRow, ActivityRow, TimerRow, WorkflowTask, Db}
use chronos_engine.Store.Monad.{
  Tx, ◌>>=◌, ◌>>◌, pure, raise, gets, row_or, exec, when, no_rows, task_lost, unknown_command,
  unique_violation, earliest,
}
use chronos_engine.Store.Events.{
  event, find_execution, update_execution, append_events, load_history,
}

-- `locked_until IS NULL OR locked_until <= now()`.
abbrev pub lease_over : Option Time → Time → Bool
lease_over none now = true
lease_over (some t) now = leb_ℤ t now

abbrev available : String → Time → TaskRow → Bool
available task_queue now t =
    t.task_queue == task_queue && leb_ℤ t.visible_at now && lease_over t.locked_until now

unfoldable pub next_workflow_task : String → Time → Db → Option TaskRow
next_workflow_task task_queue now db =
    earliest (λ t. t.visible_at) (select (available task_queue now) db.workflow_tasks)

unfoldable pub lock_workflow_task : ℕ → String → Time → Db → Db
lock_workflow_task id identity until db = record db {
  workflow_tasks =
      update_where (λ t. t.task_id == id)
        (λ t. record t { locked_until = some until; locked_by = some identity }) db.workflow_tasks;
}

unfoldable pub lease_workflow_task : Option TaskRow → String → Time → Tx (Option WorkflowTask)
lease_workflow_task none identity until = pure none
lease_workflow_task (some t) identity until = do
  exec (lock_workflow_task t.task_id identity until)
  row ← row_or no_rows (find_execution t.run)
  history ← gets (load_history t.run)
  pure (
      some (record {
        task_token = t.task_id;
        run = t.run;
        workflow_type = row.workflow_type;
        history = history;
        started_event_id = row.next_event_id - 1;
      }))

unfoldable pub poll_workflow_task : String → String → Duration → Time → Tx (Option WorkflowTask)
poll_workflow_task task_queue identity lease now = do
  found ← gets (next_workflow_task task_queue now)
  lease_workflow_task found identity (now +ℤ lease)

abbrev pub or_default : Float64 → Option RetryPolicy → RetryPolicy
or_default fl none = default_activity_retry_policy fl
or_default fl (some p) = p

abbrev is_zero_duration : Option Duration → Bool
is_zero_duration none = true
is_zero_duration (some _) = false

-- A message whose fields all have their default values is marshalled to no bytes, and then
-- `len(policyBlob) > 0` fails when the column is read.
unfoldable pub policy_blob : RetryPolicy → Option RetryPolicy
policy_blob p =
    if is_zero_duration p.initial_interval
      && p.backoff_coefficient == 0
      && is_zero_duration p.max_interval
      && leb_ℤ p.max_attempts (pos 0)
      && leb_ℤ (pos 0) p.max_attempts
    then none
    else some p

abbrev pub same_activity : Run → ℕ → ActivityRow → Bool
same_activity r scheduled_id t = t.run == r && t.scheduled_event_id == scheduled_id

abbrev pub new_activity :
    Run → ℕ → ScheduleActivityTaskCommand → RetryPolicy → Time → ℕ → ActivityRow
new_activity r scheduled_id cmd retry now id = record {
  task_id = id;
  run = r;
  scheduled_event_id = scheduled_id;
  task_queue = cmd.task_queue;
  activity_id = cmd.activity_id;
  activity_type = cmd.activity_type;
  input = cmd.input;
  retry_policy = policy_blob retry;
  attempt = pos 1;
  last_started_attempt = pos 0;
  visible_at = now;
  locked_until = none;
  locked_by = none;
}

abbrev pub add_activity : Run → ℕ → ScheduleActivityTaskCommand → RetryPolicy → Time → Db → Db
add_activity r scheduled_id cmd retry now db = record db {
  activity_tasks =
      db.activity_tasks ++ new_activity r scheduled_id cmd retry now db.activity_task_seq ∷ [];
  activity_task_seq = db.activity_task_seq + 1;
}

-- The INSERT into `activity_tasks`, with the unique index on the scheduled event.
unfoldable pub insert_activity :
    Run → ℕ → ScheduleActivityTaskCommand → RetryPolicy → Time → Tx Unit
insert_activity r scheduled_id cmd retry now = do
  taken ← gets (λ db. exists (same_activity r scheduled_id) db.activity_tasks)
  when taken unique_violation
  exec (add_activity r scheduled_id cmd retry now)

unfoldable pub apply_schedule_activity :
    Float64 → Run → Time → ScheduleActivityTaskCommand → Tx Unit
apply_schedule_activity fl r now cmd = do
  let retry = or_default fl cmd.retry_policy
  scheduled_id ← append_events r now (
      event EventType.activity_task_scheduled (
        Attributes.activity_task_scheduled cmd.activity_id cmd.activity_type cmd.task_queue
          cmd.input (some retry) cmd.start_to_close_timeout (pos 1))
      ∷ [])
  insert_activity r scheduled_id cmd retry now

abbrev pub same_timer : Run → ℕ → TimerRow → Bool
same_timer r started_id t = t.run == r && t.started_event_id == started_id

abbrev pub add_timer : Run → ℕ → String → Time → Db → Db
add_timer r started_id timer_id fire_at db = record db {
  timers =
      db.timers
      ++ record {
        run = r;
        started_event_id = started_id;
        timer_id = timer_id;
        fire_at = fire_at;
        fired = false;
      }
        ∷ [];
}

-- The INSERT into `timers`, with its primary key.
unfoldable pub insert_timer : Run → ℕ → String → Time → Tx Unit
insert_timer r started_id timer_id fire_at = do
  taken ← gets (λ db. exists (same_timer r started_id) db.timers)
  when taken unique_violation
  exec (add_timer r started_id timer_id fire_at)

unfoldable pub apply_start_timer : Run → Time → StartTimerCommand → Tx Unit
apply_start_timer r now cmd = do
  let fire_at = now +ℤ as_duration cmd.start_to_fire_timeout
  started_id ← append_events r now (
      event EventType.timer_started
        (Attributes.timer_started cmd.timer_id cmd.start_to_fire_timeout (some fire_at))
      ∷ [])
  insert_timer r started_id cmd.timer_id fire_at

unfoldable pub close_execution : Run → WorkflowStatus → Time → Db → Db
close_execution r status now =
    update_execution r (λ e. record e { status = status; close_time = some now })

unfoldable pub apply_complete_workflow : Run → Time → Bytes → Tx Unit
apply_complete_workflow r now result = do
  append_events r now (
      event EventType.workflow_execution_completed (Attributes.workflow_execution_completed result)
      ∷ [])
  exec (close_execution r WorkflowStatus.completed now)

unfoldable pub apply_fail_workflow : Run → Time → Option Failure → Tx Unit
apply_fail_workflow r now failure = do
  append_events r now (
      event EventType.workflow_execution_failed (Attributes.workflow_execution_failed failure) ∷ [])
  exec (close_execution r WorkflowStatus.failed now)

-- One round of the switch; the result is `terminal`.
unfoldable pub apply_command : Float64 → Run → Time → Command → Tx Bool
apply_command fl r now (Command.schedule_activity_task a) = do
  apply_schedule_activity fl r now a
  pure false
apply_command fl r now (Command.start_timer a) = do apply_start_timer r now a; pure false
apply_command fl r now (Command.complete_workflow_execution result) = do
  apply_complete_workflow r now result
  pure true
apply_command fl r now (Command.fail_workflow_execution failure) = do
  apply_fail_workflow r now failure
  pure true
apply_command fl r now Command.unset = raise unknown_command

-- `if terminal { break }` heads the loop.
unfoldable pub apply_commands : Float64 → Run → Time → Bool → List Command → Tx Unit
apply_commands fl r now terminal [] = pure tt
apply_commands fl r now true (c ∷ cs) = pure tt
apply_commands fl r now false (c ∷ cs) = do
  terminal ← apply_command fl r now c
  apply_commands fl r now terminal cs

-- `lockedBy == nil || *lockedBy != identity`.
abbrev pub not_owner : Option String → String → Bool
not_owner none identity = true
not_owner (some owner) identity = not (owner == identity)

unfoldable pub find_workflow_task : ℕ → Db → Option TaskRow
find_workflow_task token db = first (λ t. t.task_id == token) db.workflow_tasks

unfoldable pub delete_workflow_task : ℕ → Db → Db
delete_workflow_task token db = record db {
  workflow_tasks = delete_where (λ t. t.task_id == token) db.workflow_tasks;
}

unfoldable pub complete_workflow_task : Float64 → ℕ → String → List Command → Time → Tx Unit
complete_workflow_task fl token identity commands now = do
  t ← row_or task_lost (find_workflow_task token)
  when (not_owner t.locked_by identity) task_lost
  apply_commands fl t.run now false commands
  exec (delete_workflow_task token)
