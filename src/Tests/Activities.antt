-- ===== src/Tests/Activities.antt =====
-- The queue of activity tasks of internal/storage/postgres/tasks.go, on a database with two of them.
use chronos_engine.Prelude.{
  ℕ, pos, true, none, some, [], ◌∷◌, ◌≡◌, ◌≢◌, refl, first, select, update_where, delete_where,
  exists, ◌+ℤ◌,
}
use chronos_engine.Messages.{Failure}
use chronos_engine.Store.Tables.{ActivityRow, Db, empty_db, same_run}
use chronos_engine.Store.Monad.{ok, after, earliest, earliest_from}
use chronos_engine.Store.Events.{
  append_events, append_loop, insert_event, find_execution, update_execution,
  schedule_workflow_task, schedule_workflow_task_for_run,
}
use chronos_engine.Store.Activities.{
  next_activity_task, lease_activity_task, record_started, record_attempt, update_activity,
  poll_activity_task, find_activity, delete_activity, finish_activity, complete_activity_task,
  activity_task, fail_activity_task,
}
use chronos_engine.Store.Leases.{poll_activity_task-leases}
use chronos_engine.Server.{
  Metrics, replies, respond_activity_task_completed, respond_activity_task_failed,
}
use chronos_engine.Server.Late.{late_answer-benign}
use chronos_engine.Tests.Fixtures.{whole, order_run, order_row}

abbrev pub charge_row : ℕ → ℕ → ActivityRow
charge_row id scheduled_id = record {
  task_id = id;
  run = order_run;
  scheduled_event_id = scheduled_id;
  task_queue = "default";
  activity_id = "activity-0";
  activity_type = "ChargePayment";
  input = 7 ∷ [];
  retry_policy = none;
  attempt = pos 1;
  last_started_attempt = pos 0;
  visible_at = pos 3;
  locked_until = none;
  locked_by = none;
}

abbrev two_charges : Db
two_charges = record empty_db {
  executions = order_row ∷ [];
  activity_tasks = charge_row 1 2 ∷ charge_row 2 3 ∷ [];
}

abbrev pub polled_once : Db
polled_once =
    after two_charges (poll_activity_task "default" "worker-1" (pos 30) (pos 4) two_charges)

abbrev polled_twice : Db
polled_twice =
    after polled_once (poll_activity_task "default" "worker-2" (pos 30) (pos 20) polled_once)

first_poll :
    poll_activity_task "default" "worker-1" (pos 30) (pos 4) two_charges
    ≡ ok (some (activity_task (charge_row 1 2)), polled_once)
unfolding poll_activity_task next_activity_task earliest earliest_from select lease_activity_task
    update_activity update_where record_started record_attempt append_events append_loop
    insert_event find_execution update_execution first exists ◌+ℤ◌ same_run
first_poll = refl

second_poll :
    poll_activity_task "default" "worker-2" (pos 30) (pos 20) polled_once
    ≡ ok (some (activity_task (charge_row 2 3)), polled_twice)
unfolding poll_activity_task next_activity_task earliest earliest_from select lease_activity_task
    update_activity update_where record_started record_attempt append_events append_loop
    insert_event find_execution update_execution first exists ◌+ℤ◌ same_run
second_poll = refl

poll_activity_task-leases_example :
    (activity_task (charge_row 2 3)).task_token ≢ (activity_task (charge_row 1 2)).task_token
unfolding ◌+ℤ◌
poll_activity_task-leases_example =
    poll_activity_task-leases "default" "worker-1" (pos 30) (pos 4) two_charges
      (activity_task (charge_row 1 2)) polled_once "default" "worker-2" (pos 30) (pos 20)
      (activity_task (charge_row 2 3)) polled_twice refl first_poll second_poll

abbrev pub charged : Db
charged = after polled_once (complete_activity_task 1 "worker-1" (9 ∷ []) (pos 8) polled_once)

pub first_answer :
    complete_activity_task 1 "worker-1" (9 ∷ []) (pos 8) polled_once ≡ ok (tt, charged)
unfolding poll_activity_task next_activity_task earliest earliest_from select lease_activity_task
    update_activity update_where record_started record_attempt append_events append_loop
    insert_event find_execution update_execution first exists ◌+ℤ◌ same_run complete_activity_task
    finish_activity find_activity delete_activity delete_where schedule_workflow_task
    schedule_workflow_task_for_run
first_answer = refl

abbrev card_declined : Failure
card_declined = record { message = "card declined"; type = "PaymentError" }

abbrev pub no_counts : Metrics
no_counts = record {
  workflows_started = 0;
  activities_started = 0;
  timers_fired = 0;
  workflow_tasks_polled = 0;
  activity_tasks_polled = 0;
  workflows_completed = 0;
  workflows_failed = 0;
  activities_complete = 0;
  activities_retried = 0;
  activities_failed = 0;
}

late_answer-benign_example :
    (respond_activity_task_completed 1 "worker-1" (9 ∷ []) (pos 9) no_counts charged
      ≡ record { reply = replies tt; metrics = no_counts; db = charged })
    × (respond_activity_task_failed whole 1 "worker-1"
          (some card_declined)
          true
          (pos 9)
          no_counts
          charged
        ≡ record { reply = replies tt; metrics = no_counts; db = charged })
late_answer-benign_example =
    late_answer-benign whole 1 "worker-1" (9 ∷ []) (pos 8) polled_once tt charged "worker-1"
      (9 ∷ []) (pos 9) (some card_declined) true no_counts first_answer

abbrev declined : Db
declined =
    after polled_once
      (fail_activity_task whole 1 "worker-1" (some card_declined) true (pos 8) polled_once)
