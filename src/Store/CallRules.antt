-- ===== src/Store/CallRules.antt =====
-- From the parts of the calls to the calls, and from the calls to the histories of the store.
use chronos_engine.Prelude.{ℕ, ℤ, Bool, true, false, String, Option, List, [], ◌∷◌}
use chronos_engine.Messages.{Bytes, Time, Duration, Failure, Command}
use chronos_engine.Core.{Float64}
use chronos_engine.Store.Tables.{Run, Db, StartWorkflowParams}
use chronos_engine.Store.Monad.{Error, unique_violation, exec}
use chronos_engine.Store.Keeps.{
  Keeps, Keeps-bind, Keeps-raise, Keeps-on_error, Keeps-pure, Keeps-after, keeps_rules,
}
use chronos_engine.Store.Workflows.{
  start_transaction, already_started, start_workflow, Cast, signal_workflow,
}
use chronos_engine.Store.Commands.{
  poll_workflow_task, apply_command, apply_commands, delete_workflow_task, complete_workflow_task,
}
use chronos_engine.Store.Activities.{
  poll_activity_task, complete_activity_task, fail_activity_task, extend_activity_lease,
}
use chronos_engine.Store.Timers.{fire_due_timers}
use chronos_engine.Store.Calls.{
  Call, starts, signals, polls_workflow, completes_workflow, polls_activity, completes_activity,
  fails_activity, extends_lease, fires_timers, step, run_calls,
}

-- What an invariant of the store has to show of each part.
pub record CallRules (fl : Float64) (P : Db → Type 0) : Type 0 where
  pub starts :
      (r : Run) (p : StartWorkflowParams) (now : Time) → Keeps P (start_transaction r p now)
  pub signals :
      (cast : Cast) (r : Run) (name : String) (input : Bytes) (now : Time)
      → Keeps P (signal_workflow cast r name input now)
  pub polls_workflow :
      (queue identity : String) (lease : Duration) (now : Time)
      → Keeps P (poll_workflow_task queue identity lease now)
  pub command : (r : Run) (now : Time) (c : Command) → Keeps P (apply_command fl r now c)
  pub deletes_task : (token : ℕ) → Keeps P (exec (delete_workflow_task token))
  pub polls_activity :
      (queue identity : String) (lease : Duration) (now : Time)
      → Keeps P (poll_activity_task queue identity lease now)
  pub completes_activity :
      (token : ℕ) (identity : String) (result : Bytes) (now : Time)
      → Keeps P (complete_activity_task token identity result now)
  pub fails_activity :
      (token : ℕ) (identity : String) (f : Option Failure) (retryable : Bool) (now : Time)
      → Keeps P (fail_activity_task fl token identity f retryable now)
  pub extends_lease :
      (token : ℕ) (lease : Duration) (now : Time) → Keeps P (extend_activity_lease token lease now)
  pub fires_timers : (now : Time) (batch : ℤ) → Keeps P (fire_due_timers now batch)

module _ {fl : Float64} {P : Db → Type 0} (rules : CallRules fl P) where
  commands-Keeps :
      (r : Run) (now : Time) (terminal : Bool) (cs : List Command)
      → Keeps P (apply_commands fl r now terminal cs)
  unfolding apply_commands
  commands-Keeps r now terminal [] = Keeps-pure tt
  commands-Keeps r now true (c ∷ cs) = Keeps-pure tt
  commands-Keeps r now false (c ∷ cs) =
      Keeps-bind (apply_command fl r now c) _ (rules.command r now c)
        λ terminal. commands-Keeps r now terminal cs

  complete-Keeps :
      (token : ℕ) (identity : String) (cs : List Command) (now : Time)
      → Keeps P (complete_workflow_task fl token identity cs now)
  unfolding complete_workflow_task
  complete-Keeps token identity cs now =
      search (keeps_rules, commands-Keeps, rules.deletes_task) depth 8

  already-Keeps : (w : String) (e : Error) → Keeps P (already_started w e)
  unfolding already_started
  already-Keeps w unique_violation = search keeps_rules
  already-Keeps w _ = Keeps-raise _

  start-Keeps :
      (run_id : String) (p : StartWorkflowParams) (now : Time)
      → Keeps P (start_workflow run_id p now)
  unfolding start_workflow
  start-Keeps run_id p now =
      Keeps-on_error _ _ (Keeps-bind _ _ (rules.starts _ p now) (λ _. Keeps-pure (run_id, false)))
        (already-Keeps p.workflow_id)

  pub step-Keeps : (db : Db) (now : Time) (c : Call) → P db → P (step fl db now c)
  unfolding step
  step-Keeps db now (starts run_id p) h = Keeps-after _ (start-Keeps run_id p now) db h
  step-Keeps db now (signals cast r name input) h =
      Keeps-after _ (rules.signals cast r name input now) db h
  step-Keeps db now (polls_workflow queue identity lease) h =
      Keeps-after _ (rules.polls_workflow queue identity lease now) db h
  step-Keeps db now (completes_workflow token identity cs) h =
      Keeps-after _ (complete-Keeps token identity cs now) db h
  step-Keeps db now (polls_activity queue identity lease) h =
      Keeps-after _ (rules.polls_activity queue identity lease now) db h
  step-Keeps db now (completes_activity token identity result) h =
      Keeps-after _ (rules.completes_activity token identity result now) db h
  step-Keeps db now (fails_activity token identity f retryable) h =
      Keeps-after _ (rules.fails_activity token identity f retryable now) db h
  step-Keeps db now (extends_lease token lease) h =
      Keeps-after _ (rules.extends_lease token lease now) db h
  step-Keeps db now (fires_timers batch) h = Keeps-after _ (rules.fires_timers now batch) db h

  pub run_calls-Keeps : (db : Db) (cs : List (Time × Call)) → P db → P (run_calls fl db cs)
  unfolding run_calls
  run_calls-Keeps db [] h = h
  run_calls-Keeps db ((now, c) ∷ cs) h =
      run_calls-Keeps (step fl db now c) cs (step-Keeps db now c h)
