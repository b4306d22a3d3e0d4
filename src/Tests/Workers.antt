-- ===== src/Tests/Workers.antt =====
-- A worker that holds a task which another has answered, and one that has no code for its task.
use chronos_engine.Store.Monad.{Error, err}
use chronos_engine.Prelude.{pos, none, some, false, [], ◌∷◌, ◌≡◌, refl, ◌⊎◌}
use chronos_engine.Store.Tables.{ActivityTask}
use chronos_engine.Store.Activities.{activity_task, fail_activity_task}
use chronos_engine.Store.Answers.{IsGone}
use chronos_engine.Worker.{
  fails, heartbeats, Worker, new_worker, not_registered, register_activity, handle_activity_task,
}
use chronos_engine.Worker.Redelivery.{redelivery_harmless, unregistered_ends}
use chronos_engine.Tests.Fixtures.{whole}
use chronos_engine.Tests.Activities.{polled_once, charged, first_answer, no_counts, charge_row}

abbrev idle : Worker
idle = new_worker "worker-7" (record { task_queue = ""; identity = ""; concurrency = pos 0 })

-- It reports once that it is alive, and then fails.
abbrev second : Worker
second =
    register_activity "ChargePayment"
      (λ info input. heartbeats (pos 20) λ alive. fails "card declined") idle

abbrev task : ActivityTask
task = activity_task (charge_row 1 2)

redelivery_harmless_example :
    handle_activity_task whole
      (pos 30)
      second
      task
      (pos 21)
      (record { metrics = no_counts; db = charged })
    ≡ record { metrics = no_counts; db = charged }
redelivery_harmless_example =
    redelivery_harmless whole (pos 30) "worker-1" (9 ∷ []) (pos 8) polled_once tt charged second
      task (pos 21) no_counts first_answer

knows_nothing : idle.activities task.activity_type ≡ none
unfolding new_worker
knows_nothing = refl

unregistered_ends_example :
    IsGone 1
      (handle_activity_task whole
        (pos 30)
        idle
        task
        (pos 8)
        (record { metrics = no_counts; db = polled_once })).db
    ⊎ ((e : Error) × (fail_activity_task whole 1 idle.identity
            (some (not_registered task))
            false
            (pos 8)
            polled_once
          ≡ err e)
        × (handle_activity_task whole
              (pos 30)
              idle
              task
              (pos 8)
              (record { metrics = no_counts; db = polled_once })
            ≡ record { metrics = no_counts; db = polled_once }))
unregistered_ends_example =
    unregistered_ends whole (pos 30) idle task (pos 8)
      (record { metrics = no_counts; db = polled_once }) knows_nothing
