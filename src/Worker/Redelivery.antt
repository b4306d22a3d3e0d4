-- ===== src/Worker/Redelivery.antt =====
-- A task that two workers have, in sdk/worker/worker.go.
use mathlib.Core.Path.{subst}
use chronos_engine.Prelude.{
  ℕ, ◌+ℤ◌, String, Option, none, some, Bool, true, false, List, [], ◌∷◌, ◌≡◌, refl, sym, ap, ◌∙◌,
  arith, ◌⊎◌, inl, inr, first, update_where, ◌==◌, nat_eq,
}
use chronos_engine.Messages.{Bytes, Time, Duration}
use chronos_engine.Core.{Float64}
use chronos_engine.Store.Tables.{ActivityRow, ActivityTask, Db}
use chronos_engine.Store.Monad.{Error, Result, ok, err}
use chronos_engine.Store.Retries.{fail_activity_task-branches}
use chronos_engine.Store.Activities.{
  find_activity, is_live, push_lease, extend_activity_lease, complete_activity_task,
  fail_activity_task,
}
use chronos_engine.Store.Answers.{IsGone, complete-IsGone, complete_gone, fail_gone}
use chronos_engine.Server.{
  Metrics, replies, settle, is_lost, count_failure, respond_activity_task_completed,
  respond_activity_task_failed, record_activity_heartbeat,
}
use chronos_engine.Worker.{
  Activity, returns, fails, panics, heartbeats, ActivityDefinition, Worker, World, Outcome, result,
  failure, run_activity, info_of, not_registered, went_well, after_call, answer_activity,
  handle_activity, handle_activity_task,
}

update_none :
    (token : ℕ) (now : Time) (f : ActivityRow → ActivityRow) (rows : List ActivityRow)
    → first (λ t. t.task_id == token) rows ≡ none
    → update_where (is_live token now) f rows ≡ rows
unfolding first update_where
update_none token now f [] h = refl
update_none token now f (t ∷ rows) h = ground (arith, h, update_none token now f rows)

push_gone :
    (token : ℕ) (until now : Time) (db : Db) → IsGone token db → push_lease token until now db ≡ db
unfolding push_lease find_activity
push_gone token until now db h =
    ap {A = List ActivityRow} (λ rows. record db { activity_tasks = rows })
      (update_none token now (λ t. record t { locked_until = some until }) db.activity_tasks h)

-- A heartbeat for a task without a row changes nothing.
heartbeat_gone :
    (lease : Duration) (token : ℕ) (now : Time) (m : Metrics) (db : Db)
    → IsGone token db
    → record_activity_heartbeat lease token now m db
      ≡ record { reply = replies tt; metrics = m; db = db }
unfolding record_activity_heartbeat extend_activity_lease settle
heartbeat_gone lease token now m db h =
    ap {A = Db} (λ d. record { reply = replies tt; metrics = m; db = d })
      (push_gone token (now +ℤ lease) now db h)

run_gone :
    (lease : Duration) (token : ℕ) (a : Activity) (world : World)
    → IsGone token world.db
    → (run_activity lease token a world).1 ≡ world
unfolding run_activity
run_gone lease token (returns b) world h = refl
run_gone lease token (fails message) world h = refl
run_gone lease token (panics value) world h = refl
run_gone lease token (heartbeats now k) world h =
    ap (λ served. (run_activity lease token (k (went_well served.reply)) (after_call served)).1)
      (heartbeat_gone lease token now world.metrics world.db h)
    ∙ run_gone lease token (k true) world h

answer_gone :
    (fl : Float64) (identity : String) (token : ℕ) (now : Time) (o : Outcome) (world : World)
    → IsGone token world.db
    → answer_activity fl identity token now (o, world) ≡ world
unfolding answer_activity respond_activity_task_completed respond_activity_task_failed settle
answer_gone fl identity token now (result b) world h =
    rw (complete_gone token identity b now world.db h) refl
answer_gone fl identity token now (failure message) world h =
    rw
      (fail_gone fl token identity (some (record { message = message; type = "ActivityError" }))
        true now world.db h)
      refl

handle_gone :
    (fl : Float64) (lease : Duration) (identity : String) (o : Option ActivityDefinition)
    (task : ActivityTask) (now : Time) (world : World)
    → IsGone task.task_token world.db
    → handle_activity fl lease identity o task now world ≡ world
unfolding handle_activity respond_activity_task_failed settle
handle_gone fl lease identity none task now world h =
    rw (fail_gone fl task.task_token identity (some (not_registered task)) false now world.db h)
      refl
handle_gone fl lease identity (some def) task now world h =
    let run = run_activity lease task.task_token (def (info_of task) task.input) world in
    let same = run_gone lease task.task_token (def (info_of task) task.input) world h in
    ap (λ w. answer_activity fl identity task.task_token now (run.0, w)) same
    ∙ answer_gone fl identity task.task_token now run.0 world h

-- A redelivered activity has no second effect. Once the completion of an activity task has been committed, a worker
-- that still holds the task, and runs it, leaves the counters and the database as they are: whichever code it
-- has for it, none, one that returns, fails or panics, with any heartbeats on the way.
pub redelivery_harmless :
    (fl : Float64) (lease : Duration) (identity : String) (b : Bytes) (now : Time) (db : Db)
    (u : Unit {0}) (db' : Db) (w : Worker) (task : ActivityTask) (later : Time) (m : Metrics)
    → complete_activity_task task.task_token identity b now db ≡ ok (u, db')
    → handle_activity_task fl lease w task later (record { metrics = m; db = db' })
      ≡ record { metrics = m; db = db' }
unfolding handle_activity_task
redelivery_harmless fl lease identity b now db u db' w task later m h =
    handle_gone fl lease w.identity (w.activities task.activity_type) task later
      (record { metrics = m; db = db' }) (complete-IsGone task.task_token identity b now db u db' h)

-- A failure that is not retryable, as the service answers it.
refused :
    (fl : Float64) (task : ActivityTask) (identity : String) (now : Time) (world : World)
    (r : Result (Bool × Db))
    → fail_activity_task fl task.task_token identity (some (not_registered task)) false now world.db
      ≡ r
    → IsGone task.task_token (after_call (settle is_lost r count_failure world.metrics world.db)).db
      ⊎ ((e : Error) × (fail_activity_task fl task.task_token identity
              (some (not_registered task))
              false
              now
              world.db
            ≡ err e)
          × (after_call (settle is_lost r count_failure world.metrics world.db) ≡ world))
unfolding settle
refused fl task identity now world (err e) h = inr (e, h, refl)
refused fl task identity now world (ok (b, db')) h =
    let (t, _, settled) =
      fail_activity_task-branches fl task.task_token identity (some (not_registered task)) false now
        world.db b db' h in
    inl settled.1

-- An activity that no worker knows ends. Where a worker has no code registered for the type of a task, then either
-- no row of the task's token is left, so that it is not delivered again; or the store refuses the worker's report,
-- a failure that is not retryable, and the counters and the database stay as they are.
pub unregistered_ends :
    (fl : Float64) (lease : Duration) (w : Worker) (task : ActivityTask) (now : Time)
    (world : World)
    → w.activities task.activity_type ≡ none
    → IsGone task.task_token (handle_activity_task fl lease w task now world).db
      ⊎ ((e : Error) × (fail_activity_task fl task.task_token w.identity
              (some (not_registered task))
              false
              now
              world.db
            ≡ err e)
          × (handle_activity_task fl lease w task now world ≡ world))
unfolding handle_activity_task handle_activity respond_activity_task_failed
unregistered_ends fl lease w task now world h =
    subst
      (λ o.
        IsGone task.task_token (handle_activity fl lease w.identity o task now world).db
        ⊎ ((e : Error) × (fail_activity_task fl task.task_token w.identity
                (some (not_registered task)) false now world.db
              ≡ err e)
            × (handle_activity fl lease w.identity o task now world ≡ world)))
      (sym h) (refused fl task w.identity now world _ refl)
