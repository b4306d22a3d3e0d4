-- ===== src/Store/Starts/Fresh.antt =====
-- First starts, in internal/storage/postgres/workflow.go.
use chronos_engine.Prelude.{
  ◌≡◌, refl, ap, ◌∙◌, Bool, true, false, ◌||◌, String, Option, some, none, List, [], ◌∷◌, ◌++◌,
  arith, first, exists, ◌==◌, ==_refl, if◌then◌else◌, Bool-cases, inl, inr, ◌+◌,
}
use chronos_engine.Prelude.Counting.{first-append_none, exists_last}
use chronos_engine.Messages.{Time}
use chronos_engine.Core.{Float64}
use chronos_engine.Store.Tables.{Run, run_eq, Execution, TaskRow, Db, empty_db, StartWorkflowParams}
use chronos_engine.Store.Monad.{Result, ok, ◌>>=◌, pure, on_error}
use chronos_engine.Store.Events.{
  find_execution, update_execution, append_events, schedule_workflow_task,
}
use chronos_engine.Store.Workflows.{
  is_running, add_execution, insert_execution, new_execution, started_event, start_transaction,
  already_started, start_workflow,
}
use chronos_engine.Store.Calls.{Call, run_calls}
use chronos_engine.Store.CallRules.{run_calls-Keeps}
use chronos_engine.Store.Statements.{call_rules}
use chronos_engine.Store.TableRules.{statements}
use chronos_engine.Store.History.{new_rows, add_rows, find-update}
use chronos_engine.Store.History.GapFree.{IsGapFree}
use chronos_engine.Store.History.Calls.{IsGapFree-rules}
use chronos_engine.Store.History.Numbered.{empty-IsGapFree}
use chronos_engine.Store.Progress.Commits.{bind_commits, append_commits}

none_first :
    {A : Type 0} (p q : A → Bool) (xs : List A)
    → exists (λ y. p y || q y) xs ≡ false
    → first p xs ≡ none
unfolding first exists
none_first p q [] h = refl
none_first p q (x ∷ xs) h = ground (arith, h, none_first p q xs)

module _ (r : Run) (p : StartWorkflowParams) (now : Time) (db : Db) where
  abbrev row : Execution
  row = new_execution r p now

  abbrev inserted : Db
  inserted = add_execution row db

  abbrev recorded : Db
  recorded =
      update_execution r (λ x. record x { next_event_id = 2 })
        (add_rows (new_rows r now 1 (started_event p ∷ [])) inserted)

  insert_execution-free :
      exists (λ e. e.run == r || is_running r.workflow_id e) db.executions ≡ false
      → insert_execution row db ≡ ok (tt, inserted)
  unfolding insert_execution
  insert_execution-free h = ground (arith, h)

  inserted_found :
      exists (λ e. e.run == r || is_running r.workflow_id e) db.executions ≡ false
      → find_execution r inserted ≡ some row
  unfolding find_execution add_execution first
  inserted_found h =
      first-append_none (λ e. e.run == r) db.executions (row ∷ []) (none_first _ _ db.executions h)
      ∙ rw (==_refl r) refl

  recorded_found :
      find_execution r inserted ≡ some row
      → find_execution r recorded ≡ some (record row { next_event_id = 2 })
  unfolding find_execution add_execution
  recorded_found h =
      find-update r r (λ x. record x { next_event_id = 2 })
        (add_rows (new_rows r now 1 (started_event p ∷ [])) inserted) (λ e. refl)
      ∙ rename (find_execution r inserted) h
    where
      rename :
          (o : Option Execution)
          → o ≡ some row
          → ◌≡◌ {A = Option Execution}
              (elim o [
                | none ↦ none
                | some e ↦ some (if r == r then record e { next_event_id = 2 } else e)
              ])
              (some (record row { next_event_id = 2 }))
      rename o e = rw (e, ==_refl r) refl

  abbrev waking : String → Db → Db
  waking queue mid = if exists (λ t. t.run == r) mid.workflow_tasks then mid else record mid {
    workflow_tasks =
        mid.workflow_tasks
        ++ record {
          task_id = mid.workflow_task_seq;
          run = r;
          task_queue = queue;
          visible_at = now;
          locked_until = none;
          locked_by = none;
        }
          ∷ [];
    workflow_task_seq = mid.workflow_task_seq + 1;
  }

  scheduled :
      (queue : String) (mid : Db)
      → schedule_workflow_task r queue now mid ≡ ok (tt, waking queue mid)
  unfolding schedule_workflow_task
  scheduled queue mid = refl

  waking_executions : (queue : String) (mid : Db) → (waking queue mid).executions ≡ mid.executions
  waking_executions queue mid = ground arith

  waking_queued :
      (queue : String) (mid : Db)
      → exists (λ t. t.run == r) (waking queue mid).workflow_tasks ≡ true
  waking_queued queue mid = elim (Bool-cases (exists (λ t. t.run == r) mid.workflow_tasks)) [
    | inl e ↦ ground (arith, e)
    | inr e ↦
        ap
          (λ (b : Bool).
            exists (λ (t : TaskRow). t.run == r)
              (if b then mid else record mid {
                workflow_tasks =
                    mid.workflow_tasks
                    ++ record {
                      task_id = mid.workflow_task_seq;
                      run = r;
                      task_queue = queue;
                      visible_at = now;
                      locked_until = none;
                      locked_by = none;
                    }
                      ∷ [];
                workflow_task_seq = mid.workflow_task_seq + 1;
              }).workflow_tasks)
          e
        ∙ exists_last (λ (t : TaskRow). t.run == r) mid.workflow_tasks _ (==_refl r)
  ]

  transaction_commits :
      IsGapFree db
      → exists (λ e. e.run == r || is_running r.workflow_id e) db.executions ≡ false
      → start_transaction r p now db ≡ ok (tt, waking p.task_queue recorded)
  unfolding start_transaction
  transaction_commits v h =
      let put = insert_execution-free h in
      let grown = (IsGapFree-rules.inserts r p now).at db v tt inserted put in
      bind_commits (insert_execution row) _ db tt inserted put
      ∙ bind_commits (append_events r now (started_event p ∷ [])) _ inserted 1 recorded
          (append_commits r now (started_event p) inserted row grown (inserted_found h))
      ∙ scheduled p.task_queue recorded

-- First starts take effect. On any database that calls of the store lead to, where no execution of the workflow id
-- is running and none has the run id, `StartWorkflow` commits and returns the run id as not yet started. The run
-- then is an execution that runs, with the type, queue, input and policy of the call and one event, and a task for
-- it is queued.
pub start_workflow_commits :
    (fl : Float64) (cs : List (Time × Call)) (run_id : String) (p : StartWorkflowParams)
    (now : Time)
    → let db = run_calls fl empty_db cs in
      let r : Run = record { workflow_id = p.workflow_id; run_id = run_id } in
      exists (λ e. e.run == r || is_running p.workflow_id e) db.executions ≡ false
      → (db' : Db) × (start_workflow run_id p now db ≡ ok ((run_id, false), db'))
        × (find_execution r db' ≡ some (record (new_execution r p now) { next_event_id = 2 }))
        × (exists (λ t. t.run == r) db'.workflow_tasks ≡ true)
unfolding start_workflow find_execution
start_workflow_commits fl cs run_id p now h =
    let db = run_calls fl empty_db cs in
    let r : Run = record { workflow_id = p.workflow_id; run_id = run_id } in
    let v =
      run_calls-Keeps (call_rules (statements IsGapFree-rules) fl) empty_db cs empty-IsGapFree in
    (
      waking r p now db p.task_queue (recorded r p now db),
      ap {A = Result (Unit {0} × Db)}
          (λ result.
            on_error {A = String × Bool}
              (◌>>=◌ {A = Unit {0}} (λ _. result) (λ _. pure (run_id, false)))
              (already_started p.workflow_id) db)
          (transaction_commits r p now db v h),
      ap (first (λ e. e.run == r)) (waking_executions r p now db p.task_queue (recorded r p now db))
          ∙ recorded_found r p now db (inserted_found r p now db h),
      waking_queued r p now db p.task_queue (recorded r p now db),
    )
