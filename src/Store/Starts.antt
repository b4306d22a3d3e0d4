-- ===== src/Store/Starts.antt =====
-- Repeated starts, in internal/storage/postgres/workflow.go.
pub mod Fresh
use chronos_engine.Prelude.{
  ◌≡◌, Bool, true, ◌||◌, String, some, List, [], ◌∷◌, arith, first, exists, ◌==◌,
}
use chronos_engine.Messages.{Time}
use chronos_engine.Store.Tables.{Run, run_eq, Execution, Db, StartWorkflowParams}
use chronos_engine.Store.Monad.{ok, err, unique_violation}
use chronos_engine.Store.Workflows.{
  is_running, insert_execution, new_execution, start_transaction, running_run_id, already_started,
  start_workflow,
}

first-exists :
    {A : Type 0} (p q : A → Bool) (xs : List A) (x : A)
    → first q xs ≡ some x
    → exists (λ y. p y || q y) xs ≡ true
unfolding first exists
first-exists p q [] x h = cc
first-exists p q (y ∷ xs) x h = ground (arith, first-exists p q xs x)

insert_execution-taken :
    (row : Execution) (db : Db)
    → exists (λ e. e.run == row.run || is_running row.run.workflow_id e) db.executions ≡ true
    → insert_execution row db ≡ err unique_violation
unfolding insert_execution
insert_execution-taken row db h = ground (arith, h)

start_transaction-taken :
    (r : Run) (p : StartWorkflowParams) (now : Time) (db : Db)
    → insert_execution (new_execution r p now) db ≡ err unique_violation
    → start_transaction r p now db ≡ err unique_violation
unfolding start_transaction
start_transaction-taken r p now db h = ground (arith, h)

running_run_id-found :
    (w : String) (db : Db) (e : Execution)
    → first (is_running w) db.executions ≡ some e
    → running_run_id w db ≡ some e.run.run_id
unfolding running_run_id
running_run_id-found w db e h = ground (arith, h)

already_started-found :
    (w : String) (db : Db) (run_id : String)
    → running_run_id w db ≡ some run_id
    → already_started w unique_violation db ≡ ok ((run_id, true), db)
unfolding already_started
already_started-found w db run_id h = ground (arith, h)

-- A start of a workflow id that is running, with whatever run id, type, queue and input, changes nothing and
-- returns the run id of the running execution, marked as already started.
pub start_workflow_again :
    (run_id : String) (p : StartWorkflowParams) (now : Time) (db : Db) (e : Execution)
    → first (is_running p.workflow_id) db.executions ≡ some e
    → start_workflow run_id p now db ≡ ok ((e.run.run_id, true), db)
unfolding start_workflow
start_workflow_again run_id p now db e h =
    let r : Run = record { workflow_id = p.workflow_id; run_id = run_id } in
    ground (
      arith,
      start_transaction-taken r p now db (
          insert_execution-taken (new_execution r p now) db
            (first-exists (λ x. x.run == r) (is_running p.workflow_id) db.executions e h)),
      already_started-found p.workflow_id db e.run.run_id
          (running_run_id-found p.workflow_id db e h),
    )
