-- ===== src/Store/Durable.antt =====
-- What no call of the store takes back, in internal/storage/postgres: the events of the histories, and
-- the end of an execution.
use chronos_engine.Prelude.{◌≡◌, refl, sym, ap, ◌∙◌, List, [], ◌∷◌, ◌++◌, append-nil, append_assoc}
use chronos_engine.Messages.{Time, WorkflowStatus, HistoryEvent}
use chronos_engine.Core.{Float64}
use chronos_engine.Store.Tables.{Run, run_eq, Execution, HistoryRow, Db}
use chronos_engine.Store.Monad.{exec}
use chronos_engine.Store.Keeps.{Keeps, Keeps-pure, Keeps-exec}
use chronos_engine.Store.Events.{append_events}
use chronos_engine.Store.Workflows.{insert_execution, add_execution, new_execution}
use chronos_engine.Store.Commands.{close_execution}
use chronos_engine.Store.Calls.{Call, run_calls}
use chronos_engine.Store.CallRules.{run_calls-Keeps}
use chronos_engine.Store.TableRules.{TableRules, statements}
use chronos_engine.Store.Statements.{call_rules}
use chronos_engine.Store.History.{append_events-inv, new_rows, add_rows, history-update}
use chronos_engine.Store.Running.{insert_execution-inv}

-- The rows of an earlier database are the first rows of a later one.
pub record Extends (rows : List HistoryRow) (db : Db) : Type 0 where
  pub added : List HistoryRow
  pub grown : db.history_events ≡ rows ++ added

Extends-frame :
    (rows : List HistoryRow) (db db' : Db)
    → db'.history_events ≡ db.history_events
    → Extends rows db
    → Extends rows db'
Extends-frame rows db db' h v = record { added = v.added; grown = h ∙ v.grown }

Extends-add :
    (rows more : List HistoryRow) (db db' : Db)
    → db'.history_events ≡ db.history_events ++ more
    → Extends rows db
    → Extends rows db'
Extends-add rows more db db' h v = record {
  added = v.added ++ more;
  grown = h ∙ ap (λ l. l ++ more) v.grown ∙ append_assoc rows v.added more;
}

append-Extends :
    (rows : List HistoryRow) (r : Run) (now : Time) (es : List HistoryEvent)
    → Keeps (Extends rows) (append_events r now es)
append-Extends rows r now [] = unfold append_events in Keeps-pure 0
append-Extends rows r now (e ∷ es) = record {
  at = λ db v n db' h.
      let (row, _, _, grown) = append_events-inv r now e es db h in
      let more = new_rows r now row.next_event_id (e ∷ es) in
      Extends-add rows more db db'
        (ap (λ x. x.history_events) grown ∙ history-update r _ (add_rows more db)) v;
}

insert-Extends :
    (rows : List HistoryRow) (row : Execution) → Keeps (Extends rows) (insert_execution row)
insert-Extends rows row = record {
  at = λ db v u db' h.
      let (_, added) = insert_execution-inv row db u db' h in
      Extends-frame rows db db' (ap (λ x. x.history_events) added ∙ same db) v;
}
  where
    same : (db : Db) → (add_execution row db).history_events ≡ db.history_events
    same db = unfold add_execution in refl

close-Extends :
    (rows : List HistoryRow) (r : Run) (s : WorkflowStatus) (now : Time)
    → Keeps (Extends rows) (exec (close_execution r s now))
unfolding close_execution
close-Extends rows r s now = Keeps-exec _ λ db v. Extends-frame rows db _ (history-update r _ db) v

Extends-rules : (rows : List HistoryRow) → TableRules (Extends rows)
Extends-rules rows = record {
  frame = λ db db' _ h v. Extends-frame rows db db' h v;
  appends = append-Extends rows;
  inserts = λ r p now. insert-Extends rows (new_execution r p now);
  closes = λ r s now _. close-Extends rows r s now;
}

-- Whatever calls a database serves, its events stay: the history table afterwards is the table before, in its
-- order, with rows added at its end.
pub history_append_only :
    (fl : Float64) (db : Db) (cs : List (Time × Call))
    → (added : List HistoryRow) × ((run_calls fl db cs).history_events ≡ db.history_events ++ added)
history_append_only fl db cs =
    let v =
      run_calls-Keeps (call_rules (statements (Extends-rules db.history_events)) fl) db cs
        (record { added = []; grown = sym (append-nil db.history_events) }) in
    (v.added, v.grown)
