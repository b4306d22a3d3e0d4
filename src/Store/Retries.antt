-- ===== src/Store/Retries.antt =====
-- The branches of `FailActivityTask`, in internal/storage/postgres/tasks.go.
use mathlib.Core.Path.{subst}
use chronos_engine.Prelude.{
  ℕ, ◌+ℤ◌, next_int32, ◌≡◌, refl, sym, ap, ◌∙◌, Bool, true, false, String, Option, none, some, [],
  ◌∷◌, nat_eq, ◌==◌, update_where,
}
use chronos_engine.Messages.{Time, Duration, Failure, EventType, Attributes}
use chronos_engine.Core.{Float64}
use chronos_engine.Store.Tables.{ActivityRow, Db}
use chronos_engine.Store.Monad.{ok, pure, exec, when, row_or, task_lost}
use chronos_engine.Store.Keeps.{bind-inv, row_or-inv, when-inv, ok-injective}
use chronos_engine.Store.Events.{event, append_events}
use chronos_engine.Store.Commands.{not_owner}
use chronos_engine.Store.Activities.{
  find_activity, update_activity, finish_activity, retry_activity, retry_delay, settle_failure,
  fail_activity_task,
}
use chronos_engine.Store.History.{append_events-inv, new_rows}
use chronos_engine.Store.Once.{append-Appended}
use chronos_engine.Store.Answers.{finish-IsGone}
use chronos_engine.Store.Wakeups.{append-tables}

-- The row of an activity for its next attempt.
abbrev pub next_attempt : ActivityRow → Time → ActivityRow → ActivityRow
next_attempt t until row = record row {
  attempt = next_int32 t.attempt;
  visible_at = until;
  locked_until = none;
  locked_by = none;
}

-- What a failure comes to, with a delay for the next attempt or without one.
abbrev pub Settled : ℕ → ActivityRow → Time → Db → Option Duration → Bool → Db → Type 0
Settled token t now db (some delay) retried db' =
    (retried ≡ true)
    × (db'.activity_tasks
        ≡ update_where (λ x. x.task_id == token) (next_attempt t (now +ℤ delay)) db.activity_tasks)
    × (db'.workflow_tasks ≡ db.workflow_tasks)
Settled token t now db none retried db' = (retried ≡ false) × (find_activity token db' ≡ none)

update-tables :
    (token : ℕ) (f : ActivityRow → ActivityRow) (db : Db)
    → ((update_activity token f db).activity_tasks
        ≡ update_where (λ x. x.task_id == token) f db.activity_tasks)
      × ((update_activity token f db).workflow_tasks ≡ db.workflow_tasks)
unfolding update_activity
update-tables token f db = (refl, refl)

retry_activity-inv :
    (token : ℕ) (t : ActivityRow) (failure : Option Failure) (delay : Duration) (now : Time)
    (db : Db) (u : Unit {0}) (db' : Db)
    → retry_activity token t failure delay now db ≡ ok (u, db')
    → (db'.activity_tasks
        ≡ update_where (λ x. x.task_id == token) (next_attempt t (now +ℤ delay)) db.activity_tasks)
      × (db'.workflow_tasks ≡ db.workflow_tasks)
unfolding retry_activity
retry_activity-inv token t failure delay now db u db' h =
    let a =
      Attributes.activity_task_retry_scheduled t.scheduled_event_id (next_int32 t.attempt)
        (some (now +ℤ delay)) failure in
    let e = event EventType.activity_task_retry_scheduled a in
    let (n, mid, appended, rest) =
      bind-inv (append_events t.run now (e ∷ []))
        (λ _. exec (update_activity token (next_attempt t (now +ℤ delay)))) db {b = u} {db' = db'}
        h in
    let (x, _, _, grown) = append_events-inv t.run now e [] db appended in
    let same = (append-Appended t.run now e db n mid appended).activities in
    let tasks =
      ap (λ y. y.workflow_tasks) grown
      ∙ (append-tables t.run _ (new_rows t.run now x.next_event_id (e ∷ [])) db).0 in
    let tables = update-tables token (next_attempt t (now +ℤ delay)) mid in
    let done = sym (ok-injective rest).1 in
    (
      ap (λ y. y.activity_tasks) done
          ∙ tables.0
          ∙ ap (update_where (λ x. x.task_id == token) (next_attempt t (now +ℤ delay))) same,
      ap (λ y. y.workflow_tasks) done ∙ tables.1 ∙ tasks,
    )

settle_failure-inv :
    (token : ℕ) (t : ActivityRow) (failure : Option Failure) (retryable : Bool) (now : Time)
    (o : Option Duration) (db : Db) (b : Bool) (db' : Db)
    → settle_failure token t failure retryable now o db ≡ ok (b, db')
    → Settled token t now db o b db'
unfolding settle_failure
settle_failure-inv token t failure retryable now (some delay) db b db' h =
    let (u, mid, retried, rest) =
      bind-inv (retry_activity token t failure delay now) (λ _. pure true) db {b = b} {db' = db'}
        h in
    let (rows, tasks) = retry_activity-inv token t failure delay now db u mid retried in
    let done = sym (ok-injective rest).1 in
    (
      sym (ok-injective rest).0,
      ap (λ y. y.activity_tasks) done ∙ rows,
      ap (λ y. y.workflow_tasks) done ∙ tasks,
    )
settle_failure-inv token t failure retryable now none db b db' h =
    let type = EventType.activity_task_failed in
    let a = Attributes.activity_task_failed t.scheduled_event_id failure retryable in
    let (u, mid, finished, rest) =
      bind-inv (finish_activity token t type a now) (λ _. pure false) db {b = b} {db' = db'} h in
    (
      sym (ok-injective rest).0,
      ap (find_activity token) (sym (ok-injective rest).1)
          ∙ finish-IsGone token t type a now db u mid finished,
    )

pub fail_activity_task-branches :
    (fl : Float64) (token : ℕ) (identity : String) (failure : Option Failure) (retryable : Bool)
    (now : Time) (db : Db) (b : Bool) (db' : Db)
    → fail_activity_task fl token identity failure retryable now db ≡ ok (b, db')
    → (t : ActivityRow) × (find_activity token db ≡ some t)
      × Settled token t now db (retry_delay fl t retryable) b db'
unfolding fail_activity_task
fail_activity_task-branches fl token identity failure retryable now db b db' h =
    let (t, db₁, found, h₁) =
      bind-inv (row_or task_lost (find_activity token)) _ db {b = b} {db' = db'} h in
    let (read, same₁) = row_or-inv task_lost (find_activity token) db found in
    let (v, db₂, passed, h₂) =
      bind-inv (when (not_owner t.locked_by identity) task_lost) _ db₁ {b = b} {db' = db'} h₁ in
    let same₂ = (when-inv (not_owner t.locked_by identity) task_lost db₁ passed).1 in
    (
      t,
      read,
      subst (λ x. Settled token t now x (retry_delay fl t retryable) b db') (sym (same₁ ∙ same₂))
          (settle_failure-inv token t failure retryable now (retry_delay fl t retryable) db₂ b db'
            h₂),
    )
