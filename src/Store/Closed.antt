-- ===== src/Store/Closed.antt =====
-- The end of an execution, in internal/storage/postgres.
use chronos_engine.Prelude.{
  ◌≡◌, refl, ap, ◌∙◌, false, none, some, List, [], ◌∷◌, arith, first, ◌==◌, if◌then◌else◌,
}
use chronos_engine.Prelude.Counting.{first-append_some}
use chronos_engine.Messages.{Time, WorkflowStatus, HistoryEvent}
use chronos_engine.Core.{Float64}
use chronos_engine.Store.Tables.{Run, run_eq, Execution, Db}
use chronos_engine.Store.Monad.{exec}
use chronos_engine.Store.Keeps.{Keeps, Keeps-pure, Keeps-exec}
use chronos_engine.Store.Events.{append_events, find_execution, update_execution}
use chronos_engine.Store.Workflows.{is_status, insert_execution, add_execution, new_execution}
use chronos_engine.Store.Commands.{close_execution}
use chronos_engine.Store.Calls.{Call, run_calls}
use chronos_engine.Store.CallRules.{run_calls-Keeps}
use chronos_engine.Store.TableRules.{TableRules, statements}
use chronos_engine.Store.Statements.{call_rules}
use chronos_engine.Store.History.{find-update, append_events-inv, new_rows, add_rows}
use chronos_engine.Store.Running.{insert_execution-inv}

-- The run has a row, which is not running.
pub record IsClosed (r : Run) (db : Db) : Type 0 where
  pub row : Execution
  pub found : find_execution r db ≡ some row
  pub closed : is_status row.status WorkflowStatus.running ≡ false

frame-IsClosed :
    (r : Run) (db db' : Db) → db'.executions ≡ db.executions → IsClosed r db → IsClosed r db'
unfolding find_execution
frame-IsClosed r db db' h v = record {
  row = v.row;
  found = ap (first (λ e. e.run == r)) h ∙ v.found;
  closed = v.closed;
}

-- An update that keeps the key and starts nothing.
update-IsClosed :
    (r s : Run) (f : Execution → Execution) (db : Db)
    → ((e : Execution) → (f e).run ≡ e.run)
    → ((e : Execution)
        → is_status e.status WorkflowStatus.running ≡ false
        → is_status (f e).status WorkflowStatus.running ≡ false)
    → IsClosed r db
    → IsClosed r (update_execution s f db)
update-IsClosed r s f db run closes v = record {
  row = if r == s then f v.row else v.row;
  found =
      find-update s r f db run
      ∙ ap (λ o. elim o [ none ↦ none | some e ↦ some (if r == s then f e else e) ]) v.found;
  closed = ground (arith, closes v.row v.closed, v.closed);
}

append-IsClosed :
    (r s : Run) (now : Time) (es : List HistoryEvent) → Keeps (IsClosed r) (append_events s now es)
append-IsClosed r s now [] = unfold append_events in Keeps-pure 0
append-IsClosed r s now (e ∷ es) = record {
  at = λ db v n db' h.
      let (row, _, _, grown) = append_events-inv s now e es db h in
      let rows = add_rows (new_rows s now row.next_event_id (e ∷ es)) db in
      frame-IsClosed r _ db' (ap (λ x. x.executions) grown)
        (update-IsClosed r s _ rows (λ x. refl) (λ x k. k) (frame-IsClosed r db rows refl v));
}

insert-IsClosed : (r : Run) (row : Execution) → Keeps (IsClosed r) (insert_execution row)
insert-IsClosed r row = record {
  at = λ db v u db' h.
      let (_, added) = insert_execution-inv row db u db' h in
      frame-IsClosed r (add_execution row db) db' (ap (λ x. x.executions) added) (grown db v);
}
  where
    grown : (db : Db) → IsClosed r db → IsClosed r (add_execution row db)
    grown db v =
        unfold find_execution add_execution in
        record {
          row = v.row;
          found = first-append_some (λ e. e.run == r) db.executions (row ∷ []) v.row v.found;
          closed = v.closed;
        }

close-IsClosed :
    (r s : Run) (status : WorkflowStatus) (now : Time)
    → is_status status WorkflowStatus.running ≡ false
    → Keeps (IsClosed r) (exec (close_execution s status now))
unfolding close_execution
close-IsClosed r s status now closed =
    Keeps-exec _ λ db v. update-IsClosed r s _ db (λ x. refl) (λ x k. closed) v

IsClosed-rules : (r : Run) → TableRules (IsClosed r)
IsClosed-rules r = record {
  frame = λ db db' e _. frame-IsClosed r db db' e;
  appends = append-IsClosed r;
  inserts = λ s p now. insert-IsClosed r (new_execution s p now);
  closes = close-IsClosed r;
}

-- An execution that is not running stays so: whatever calls the database serves, the run keeps a row, and the
-- row is not running.
pub run_stays_closed :
    (fl : Float64) (db : Db) (cs : List (Time × Call)) (r : Run) (row : Execution)
    → find_execution r db ≡ some row
    → is_status row.status WorkflowStatus.running ≡ false
    → (row' : Execution) × (find_execution r (run_calls fl db cs) ≡ some row')
      × (is_status row'.status WorkflowStatus.running ≡ false)
run_stays_closed fl db cs r row found closed =
    let v =
      run_calls-Keeps (call_rules (statements (IsClosed-rules r)) fl) db cs
        (record { row = row; found = found; closed = closed }) in
    (v.row, v.found, v.closed)
