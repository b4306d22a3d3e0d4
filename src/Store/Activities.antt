-- ===== src/Store/Activities.antt =====
-- internal/storage/postgres/tasks.go: the queue of activity tasks.
use chronos_engine.Prelude.{
  ℕ, ◌+ℤ◌, next_int32, leb_ℤ, ltb_ℤ, String, Option, none, some, [], ◌∷◌, Bool, true, false, ◌&&◌,
  nat_eq, string_eq, ◌==◌, if◌then◌else◌, first, select, exists, update_where, delete_where,
}
use chronos_engine.Messages.{Bytes, Time, Duration, EventType, Attributes, Failure}
use chronos_engine.Core.{Float64, next_retry_delay}
use chronos_engine.Store.Tables.{ActivityRow, ActivityTask, Db}
use chronos_engine.Store.Monad.{
  Tx, ◌>>=◌, ◌>>◌, pure, gets, row_or, exec, when, task_lost, earliest,
}
use chronos_engine.Store.Events.{event, append_events, schedule_workflow_task_for_run}
use chronos_engine.Store.Commands.{lease_over, not_owner, or_default}

abbrev pub dispatchable : String → Time → ActivityRow → Bool
dispatchable task_queue now t =
    t.task_queue == task_queue && leb_ℤ t.visible_at now && lease_over t.locked_until now

unfoldable pub next_activity_task : String → Time → Db → Option ActivityRow
next_activity_task task_queue now db =
    earliest (λ t. t.visible_at) (select (dispatchable task_queue now) db.activity_tasks)

-- `UPDATE activity_tasks SET ... WHERE task_id = $1`.
unfoldable pub update_activity : ℕ → (ActivityRow → ActivityRow) → Db → Db
update_activity id f db = record db {
  activity_tasks = update_where (λ t. t.task_id == id) f db.activity_tasks;
}

abbrev pub activity_task : ActivityRow → ActivityTask
activity_task t = record {
  task_token = t.task_id;
  run = t.run;
  activity_id = t.activity_id;
  activity_type = t.activity_type;
  input = t.input;
  attempt = t.attempt;
  scheduled_event_id = t.scheduled_event_id;
}

unfoldable pub record_attempt : ActivityRow → String → Time → Tx Unit
record_attempt t identity now = do
  append_events t.run now (
      event EventType.activity_task_started
        (Attributes.activity_task_started t.scheduled_event_id identity t.attempt)
      ∷ [])
  exec (update_activity t.task_id (λ row. record row { last_started_attempt = t.attempt }))

-- The ACTIVITY_TASK_STARTED event, once for each attempt.
unfoldable pub record_started : ActivityRow → String → Time → Tx Unit
record_started t identity now =
    if ltb_ℤ t.last_started_attempt t.attempt then record_attempt t identity now else pure tt

unfoldable pub lease_activity_task :
    Option ActivityRow → String → Duration → Time → Tx (Option ActivityTask)
lease_activity_task none identity lease now = pure none
lease_activity_task (some t) identity lease now = do
  exec (
      update_activity t.task_id
        (λ row. record row { locked_until = some (now +ℤ lease); locked_by = some identity }))
  record_started t identity now
  pure (some (activity_task t))

unfoldable pub poll_activity_task : String → String → Duration → Time → Tx (Option ActivityTask)
poll_activity_task task_queue identity lease now = do
  found ← gets (next_activity_task task_queue now)
  lease_activity_task found identity lease now

unfoldable pub find_activity : ℕ → Db → Option ActivityRow
find_activity token db = first (λ t. t.task_id == token) db.activity_tasks

unfoldable pub delete_activity : ℕ → Db → Db
delete_activity token db = record db {
  activity_tasks = delete_where (λ t. t.task_id == token) db.activity_tasks;
}

-- The end of an activity: its last event, the row's deletion and the wake-up of the workflow.
unfoldable pub finish_activity : ℕ → ActivityRow → EventType → Attributes → Time → Tx Unit
finish_activity token t type attributes now = do
  append_events t.run now (event type attributes ∷ [])
  exec (delete_activity token)
  schedule_workflow_task_for_run t.run now

unfoldable pub complete_activity_task : ℕ → String → Bytes → Time → Tx Unit
complete_activity_task token identity result now = do
  t ← row_or task_lost (find_activity token)
  when (not_owner t.locked_by identity) task_lost
  finish_activity token t EventType.activity_task_completed
      (Attributes.activity_task_completed t.scheduled_event_id result) now

unfoldable pub retry_activity : ℕ → ActivityRow → Option Failure → Duration → Time → Tx Unit
retry_activity token t failure delay now = do
  let next = next_int32 t.attempt
  let next_time = now +ℤ delay
  append_events t.run now (
      event EventType.activity_task_retry_scheduled (
        Attributes.activity_task_retry_scheduled t.scheduled_event_id next (some next_time) failure)
      ∷ [])
  exec (
      update_activity token (λ row. record row {
        attempt = next;
        visible_at = next_time;
        locked_until = none;
        locked_by = none;
      }))

-- The delay, when the caller allows a retry and the policy has an attempt left.
abbrev pub retry_delay : Float64 → ActivityRow → Bool → Option Duration
retry_delay fl t retryable =
    if retryable then next_retry_delay fl (some (or_default fl t.retry_policy)) t.attempt else none

unfoldable pub settle_failure :
    ℕ → ActivityRow → Option Failure → Bool → Time → Option Duration → Tx Bool
settle_failure token t failure retryable now (some delay) = do
  retry_activity token t failure delay now
  pure true
settle_failure token t failure retryable now none = do
  finish_activity token t EventType.activity_task_failed
      (Attributes.activity_task_failed t.scheduled_event_id failure retryable) now
  pure false

-- The result tells whether the activity was rescheduled.
unfoldable pub fail_activity_task : Float64 → ℕ → String → Option Failure → Bool → Time → Tx Bool
fail_activity_task fl token identity failure retryable now = do
  t ← row_or task_lost (find_activity token)
  when (not_owner t.locked_by identity) task_lost
  settle_failure token t failure retryable now (retry_delay fl t retryable)

abbrev pub is_leased : Time → Option Time → Bool
is_leased now none = false
is_leased now (some t) = ltb_ℤ now t

abbrev pub is_live : ℕ → Time → ActivityRow → Bool
is_live token now t = t.task_id == token && is_leased now t.locked_until

unfoldable pub push_lease : ℕ → Time → Time → Db → Db
push_lease token until now db = record db {
  activity_tasks =
      update_where (is_live token now) (λ t. record t { locked_until = some until })
        db.activity_tasks;
}

unfoldable pub extend_activity_lease : ℕ → Duration → Time → Tx Bool
extend_activity_lease token lease now = do
  affected ← gets (λ db. exists (is_live token now) db.activity_tasks)
  exec (push_lease token (now +ℤ lease) now)
  pure affected
