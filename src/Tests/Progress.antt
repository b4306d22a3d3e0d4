-- ===== src/Tests/Progress.antt =====
-- A scheduled activity of internal/storage/postgres, from its decision to the answer of the worker.
use chronos_engine.Store.Answers.Later.{complete_activity_once}
use chronos_engine.Messages.{EventType, Attributes}
use chronos_engine.Store.Events.{event, stamp}
use chronos_engine.Store.History.GapFree.{next_id}
use chronos_engine.Prelude.{
  none, ◌++◌, pos, some, true, List, [], ◌∷◌, ◌≡◌, refl, ap, ◌∙◌, first, exists, select,
  update_where, delete_where, ◌+ℤ◌,
}
use chronos_engine.Messages.{Time, Command}
use chronos_engine.Store.Tables.{ActivityRow, ActivityTask, Db, empty_db, same_run}
use chronos_engine.Store.Monad.{ok, err, task_lost, earliest, earliest_from}
use chronos_engine.Store.Events.{
  append_events, append_loop, insert_event, find_execution, update_execution,
}
use chronos_engine.Store.Commands.{
  complete_workflow_task, find_workflow_task, apply_commands, apply_command,
  apply_schedule_activity, insert_activity, policy_blob, delete_workflow_task,
}
use chronos_engine.Store.Activities.{
  dispatchable, next_activity_task, lease_activity_task, record_started, record_attempt,
  update_activity, poll_activity_task, find_activity, complete_activity_task, fail_activity_task,
}
use chronos_engine.Core.{default_activity_retry_policy}
use chronos_engine.Store.Calls.{
  Call, run_calls, step, completes_workflow, polls_activity, starts, polls_workflow,
}
use chronos_engine.Store.Progress.{poll_delivers, answer_commits}
use chronos_engine.Tests.Fixtures.{whole, charge, first_decision, order_params, order_run}
use chronos_engine.Tests.Resumption.{before_polled, polled_db}

abbrev decided_db : Db
decided_db =
    step whole polled_db (pos 3)
      (completes_workflow 1 "worker-1" (Command.schedule_activity_task charge ∷ []))

after_decision : run_calls whole empty_db first_decision ≡ decided_db
unfolding run_calls
after_decision =
    ap
      (λ db.
        step whole db (pos 3)
          (completes_workflow 1 "worker-1" (Command.schedule_activity_task charge ∷ [])))
      before_polled

due_charge : exists (dispatchable "default" (pos 4)) decided_db.activity_tasks ≡ true
unfolding step complete_workflow_task find_workflow_task first exists apply_commands apply_command
    apply_schedule_activity insert_activity policy_blob delete_workflow_task delete_where
    append_events append_loop insert_event find_execution update_execution update_where same_run
    default_activity_retry_policy
due_charge = refl

poll_delivers_example :
    (task : ActivityTask) × (db' : Db) × (poll_activity_task "default" "worker-1"
        (pos 30)
        (pos 4)
        (run_calls whole empty_db first_decision)
      ≡ ok (some task, db'))
poll_delivers_example = poll_delivers whole first_decision "default" "worker-1" (pos 30) (pos 4) (
    ap (λ (db : Db). exists (dispatchable "default" (pos 4)) db.activity_tasks) after_decision
    ∙ due_charge)

abbrev delivered : List (Time × Call)
delivered =
    (pos 1, starts "run-a" order_params)
    ∷ (pos 2, polls_workflow "default" "worker-1" (pos 30))
    ∷ (pos 3, completes_workflow 1 "worker-1" (Command.schedule_activity_task charge ∷ []))
    ∷ (pos 4, polls_activity "default" "worker-1" (pos 30))
    ∷ []

abbrev delivered_db : Db
delivered_db = step whole decided_db (pos 4) (polls_activity "default" "worker-1" (pos 30))

after_delivery : run_calls whole empty_db delivered ≡ delivered_db
unfolding run_calls
after_delivery =
    ap (λ db. step whole db (pos 4) (polls_activity "default" "worker-1" (pos 30))) after_decision

abbrev leased : ActivityRow
leased = record {
  task_id = 1;
  run = order_run;
  scheduled_event_id = 2;
  task_queue = "default";
  activity_id = "activity-0";
  activity_type = "ChargePayment";
  input = 7 ∷ [];
  retry_policy = policy_blob (default_activity_retry_policy whole);
  attempt = pos 1;
  last_started_attempt = pos 1;
  visible_at = pos 3;
  locked_until = some (pos 34);
  locked_by = some "worker-1";
}

leased_charge : find_activity 1 delivered_db ≡ some leased
unfolding step complete_workflow_task find_workflow_task first exists apply_commands apply_command
    apply_schedule_activity insert_activity policy_blob delete_workflow_task delete_where
    append_events append_loop insert_event find_execution update_execution update_where same_run
    default_activity_retry_policy poll_activity_task next_activity_task earliest earliest_from
    select lease_activity_task record_started record_attempt update_activity find_activity ◌+ℤ◌
leased_charge = refl

answer_commits_example :
    let db = run_calls whole empty_db delivered in
    (db' : Db) × (complete_activity_task 1 "worker-1" (9 ∷ []) (pos 80) db ≡ ok (tt, db'))
    × (db'.history_events
        ≡ db.history_events
          ++ record {
            run = order_run;
            event_id = next_id order_run db;
            data_event =
                stamp
                  (event EventType.activity_task_completed
                    (Attributes.activity_task_completed 2 (9 ∷ [])))
                  (next_id order_run db)
                  (pos 80);
          }
            ∷ [])
    × (find_activity 1 db' ≡ none)
answer_commits_example =
    answer_commits whole delivered 1 leased "worker-1" (9 ∷ []) (pos 80)
      (ap (find_activity 1) after_delivery ∙ leased_charge) refl

-- The charge is completed, and the next decision schedules another.
charge_completed :
    (db' : Db) × (complete_activity_task 1 "worker-1"
        (9 ∷ [])
        (pos 8)
        (run_calls whole empty_db delivered)
      ≡ ok (tt, db'))
charge_completed =
    let (db', done, added, gone) =
      answer_commits whole delivered 1 leased "worker-1" (9 ∷ []) (pos 8)
        (ap (find_activity 1) after_delivery ∙ leased_charge) refl in
    (db', done)

abbrev charged_again : List (Time × Call)
charged_again =
    (pos 9, polls_workflow "default" "worker-1" (pos 30))
    ∷ (pos 10, completes_workflow 2 "worker-1" (Command.schedule_activity_task charge ∷ []))
    ∷ []

complete_activity_once_example :
    (complete_activity_task 1 "worker-1"
        (9 ∷ [])
        (pos 11)
        (run_calls whole charge_completed.0 charged_again)
      ≡ err task_lost)
    × (fail_activity_task whole 1 "worker-1" none true
          (pos 11)
          (run_calls whole charge_completed.0 charged_again)
        ≡ err task_lost)
complete_activity_once_example =
    complete_activity_once whole delivered 1 "worker-1" (9 ∷ []) (pos 8) tt charge_completed.0
      charged_again "worker-1" (9 ∷ []) (pos 11) none true charge_completed.1
