-- ===== src/Store/Running.antt =====
-- The running executions of a workflow id, in internal/storage/postgres/workflow.go.
use mathlib.Core.Path.{subst}
use chronos_engine.Prelude.{
  ℕ, ◌≤◌, ◌≡◌, sym, ap, true, false, ◌||◌, String, List, [], ◌∷◌, arith, count, exists, string_eq,
  ◌==◌, ==_iff,
}
use chronos_engine.Prelude.Counting.{count-append, count-update_where_le, exists-count_le}
use chronos_engine.Messages.{Time, WorkflowStatus, HistoryEvent}
use chronos_engine.Core.{Float64}
use chronos_engine.Store.Tables.{Run, run_eq, Execution, Db, empty_db}
use chronos_engine.Store.Monad.{ok, exec}
use chronos_engine.Store.Keeps.{Keeps, Keeps-pure, Keeps-exec}
use chronos_engine.Store.Events.{append_events, update_execution}
use chronos_engine.Store.Workflows.{
  is_status, is_running, insert_execution, add_execution, new_execution,
}
use chronos_engine.Store.Commands.{close_execution}
use chronos_engine.Store.Calls.{Call, run_calls}
use chronos_engine.Store.CallRules.{run_calls-Keeps}
use chronos_engine.Store.TableRules.{TableRules, statements}
use chronos_engine.Store.Statements.{call_rules}
use chronos_engine.Store.History.{append_events-inv, new_rows, add_rows}

abbrev pub running_count : String → Db → ℕ
running_count w db = count (is_running w) db.executions

record IsSingle (db : Db) : Type 0 where
  single : (w : String) → running_count w db ≤ 1

-- A change that makes no execution run.
fewer :
    (db db' : Db)
    → ((w : String) → running_count w db' ≤ running_count w db)
    → IsSingle db
    → IsSingle db'
fewer db db' h v = record { single = λ w. omega (arith, h w, v.single w) }

update-count :
    (r : Run) (f : Execution → Execution) (db : Db)
    → ((w : String) (e : Execution) → is_running w (f e) ≡ true → is_running w e ≡ true)
    → (w : String) → running_count w (update_execution r f db) ≤ running_count w db
unfolding update_execution
update-count r f db h w =
    count-update_where_le (λ e. e.run == r) (is_running w) f db.executions (h w)

append-IsSingle :
    (r : Run) (now : Time) (es : List HistoryEvent) → Keeps IsSingle (append_events r now es)
append-IsSingle r now [] = unfold append_events in Keeps-pure 0
append-IsSingle r now (e ∷ es) = record {
  at = λ db v n db' h.
      let (row, found, _, grown) = append_events-inv r now e es db h in
      subst IsSingle (sym grown) (
        fewer db _
          (λ w.
            update-count r _ (add_rows (new_rows r now row.next_event_id (e ∷ es)) db) (λ w x k. k)
              w)
          v);
}

close-IsSingle :
    (r : Run) (s : WorkflowStatus) (now : Time)
    → is_status s WorkflowStatus.running ≡ false
    → Keeps IsSingle (exec (close_execution r s now))
unfolding close_execution
close-IsSingle r s now closed =
    Keeps-exec _
      λ db v. fewer db _ (λ w. update-count r _ db (λ w e k. ground (arith, closed, k)) w) v

pub insert_execution-inv :
    (row : Execution) (db : Db) (u : Unit {0}) (db' : Db)
    → insert_execution row db ≡ ok (u, db')
    → (exists (λ e. e.run == row.run || is_running row.run.workflow_id e) db.executions ≡ false)
      × (db' ≡ add_execution row db)
unfolding insert_execution
insert_execution-inv row db u db' h = (ground arith, ground arith)

insert-IsSingle : (row : Execution) → Keeps IsSingle (insert_execution row)
insert-IsSingle row = record {
  at = λ db v u db' h.
      let (free, added) = insert_execution-inv row db u db' h in
      subst IsSingle (sym added) (record { single = λ w. alone db v free w });
}
  where
    alone :
        (db : Db)
        → IsSingle db
        → exists (λ e. e.run == row.run || is_running row.run.workflow_id e) db.executions ≡ false
        → (w : String) → running_count w (add_execution row db) ≤ 1
    alone db v free w =
        unfold add_execution count in
        ground (
          arith,
          count-append (is_running w) db.executions (row ∷ []),
          v.single w,
          ==_iff row.run.workflow_id w,
          exists-count_le (λ e. e.run == row.run || is_running row.run.workflow_id e)
              (is_running row.run.workflow_id) db.executions (λ e k. ground (arith, k)) free,
        )

IsSingle-rules : TableRules IsSingle
IsSingle-rules = record {
  frame = λ db db' e _. fewer db db' (λ w. omega (arith, ap (count (is_running w)) e));
  appends = append-IsSingle;
  inserts = λ r p now. insert-IsSingle (new_execution r p now);
  closes = close-IsSingle;
}

empty-IsSingle : IsSingle empty_db
unfolding count
empty-IsSingle = record { single = λ w. omega arith }

-- Whatever calls the store has served, with whatever run ids and however many starts of the same workflow id,
-- at most one execution of a workflow id is running.
pub one_running :
    (fl : Float64) (cs : List (Time × Call)) (w : String)
    → running_count w (run_calls fl empty_db cs) ≤ 1
one_running fl cs w =
    (run_calls-Keeps (call_rules (statements IsSingle-rules) fl) empty_db cs empty-IsSingle).single
      w
