-- ===== src/Store/Answers.antt =====
-- Workers' answers for activities, in internal/storage/postgres/tasks.go: what a task's last answer
-- leaves for those that come after it.
pub mod Tokens
pub mod Later
use chronos_engine.Prelude.{ℕ, String, Bool, Option, none, [], ◌∷◌, ◌≡◌, arith, nat_eq, ◌==◌}
use chronos_engine.Prelude.Counting.{first-delete_where}
use chronos_engine.Messages.{Bytes, Time, Failure, EventType, Attributes}
use chronos_engine.Core.{Float64}
use chronos_engine.Store.Tables.{Run, ActivityRow, Db}
use chronos_engine.Store.Monad.{ok, err, ◌>>◌, row_or, exec, when, task_lost}
use chronos_engine.Store.Keeps.{Keeps, Keeps-exec, keeps_rules, bind-inv, row_or-none}
use chronos_engine.Store.Events.{
  event, append_events, schedule_workflow_task, schedule_workflow_task_for_run,
}
use chronos_engine.Store.Commands.{not_owner}
use chronos_engine.Store.Activities.{
  find_activity, delete_activity, finish_activity, complete_activity_task, fail_activity_task,
}

abbrev pub IsGone : ℕ → Db → Type 0
IsGone token db = find_activity token db ≡ none

schedule-IsGone :
    (token : ℕ) (r : Run) (queue : String) (now : Time)
    → Keeps (IsGone token) (schedule_workflow_task r queue now)
unfolding schedule_workflow_task find_activity
schedule-IsGone token r queue now = Keeps-exec _ λ db v. ground (arith, v)

wake-IsGone :
    (token : ℕ) (r : Run) (now : Time) → Keeps (IsGone token) (schedule_workflow_task_for_run r now)
unfolding schedule_workflow_task_for_run
wake-IsGone token r now = search (keeps_rules, schedule-IsGone)

delete-IsGone : (token : ℕ) (db : Db) → IsGone token (delete_activity token db)
unfolding find_activity delete_activity
delete-IsGone token db = first-delete_where (λ t. t.task_id == token) db.activity_tasks

pub finish-IsGone :
    (token : ℕ) (t : ActivityRow) (type : EventType) (a : Attributes) (now : Time) (db : Db)
    (u : Unit {0}) (db' : Db)
    → finish_activity token t type a now db ≡ ok (u, db')
    → IsGone token db'
unfolding finish_activity
finish-IsGone token t type a now db u db' h =
    let (n, mid, _, rest) =
      bind-inv (append_events t.run now (event type a ∷ []))
        (λ _. do exec (delete_activity token); schedule_workflow_task_for_run t.run now) db {b = u}
        {db' = db'} h in
    (wake-IsGone token t.run now).at (delete_activity token mid) (delete-IsGone token mid) u db'
      rest

pub complete-IsGone :
    (token : ℕ) (identity : String) (result : Bytes) (now : Time) (db : Db) (u : Unit {0})
    (db' : Db)
    → complete_activity_task token identity result now db ≡ ok (u, db')
    → IsGone token db'
unfolding complete_activity_task
complete-IsGone token identity result now db u db' h =
    let (t, mid, found, rest) =
      bind-inv (row_or task_lost (find_activity token)) _ db {b = u} {db' = db'} h in
    let (_, mid', _, rest') =
      bind-inv (when (not_owner t.locked_by identity) task_lost) _ mid {b = u} {db' = db'} rest in
    finish-IsGone token t _ _ now mid' u db' rest'

pub complete_gone :
    (token : ℕ) (identity : String) (result : Bytes) (now : Time) (db : Db)
    → IsGone token db
    → complete_activity_task token identity result now db ≡ err task_lost
unfolding complete_activity_task
complete_gone token identity result now db h = row_or-none task_lost (find_activity token) _ db h

pub fail_gone :
    (fl : Float64) (token : ℕ) (identity : String) (f : Option Failure) (retryable : Bool)
    (now : Time) (db : Db)
    → IsGone token db
    → fail_activity_task fl token identity f retryable now db ≡ err task_lost
unfolding fail_activity_task
fail_gone fl token identity f retryable now db h =
    row_or-none task_lost (find_activity token) _ db h
