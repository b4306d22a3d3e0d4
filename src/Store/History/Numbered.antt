-- ===== src/Store/History/Numbered.antt =====
-- The history that a worker is given, `loadHistory`, after any calls of the store.
use mathlib.Core.Path.{subst}
use chronos_engine.Prelude.{
  ℕ, zero, suc, ◌+◌, ◌-◌, ◌≡◌, refl, sym, ap, ◌∙◌, Bool, List, [], ◌∷◌, map, arith, ◌==◌, All,
  All-append, select, first, ltb,
}
use chronos_engine.Messages.{Time, HistoryEvent}
use chronos_engine.Core.{Float64}
use chronos_engine.Store.Tables.{
  Run, run_eq, Execution, HistoryRow, Db, StartWorkflowParams, empty_db,
}
use chronos_engine.Store.Monad.{exec, order_by, insert_by}
use chronos_engine.Store.Keeps.{Keeps, Keeps-pure, Keeps-exec, keeps_rules}
use chronos_engine.Store.Events.{find_execution, append_events, load_history, update_execution}
use chronos_engine.Store.Workflows.{insert_execution, add_execution, new_execution}
use chronos_engine.Store.Commands.{close_execution}
use chronos_engine.Store.Calls.{Call, run_calls}
use chronos_engine.Store.CallRules.{run_calls-Keeps}
use chronos_engine.Store.TableRules.{TableRules, statements}
use chronos_engine.Store.Statements.{call_rules}
use chronos_engine.Store.History.{iota, new_rows, append_events-inv, history-update}
use chronos_engine.Store.History.GapFree.{IsGapFree, next_id}
use chronos_engine.Store.History.Calls.{IsGapFree-rules}

-- The event in a row carries the id of the row.
abbrev HasOwnId : HistoryRow → Type 0
HasOwnId row = row.data_event.event_id ≡ row.event_id

pub record IsStamped (db : Db) : Type 0 where
  pub stamped : All HasOwnId db.history_events

new_rows-IsStamped :
    (r : Run) (now : Time) (n : ℕ) (es : List HistoryEvent) → All HasOwnId (new_rows r now n es)
new_rows-IsStamped r now n [] = tt
new_rows-IsStamped r now n (e ∷ es) = (refl, new_rows-IsStamped r now (n + 1) es)

append_events-IsStamped :
    (r : Run) (now : Time) (es : List HistoryEvent) → Keeps IsStamped (append_events r now es)
append_events-IsStamped r now [] = unfold append_events in Keeps-pure 0
append_events-IsStamped r now (e ∷ es) = record {
  at = λ db v n db' h.
      let (row, found, _, grown) = append_events-inv r now e es db h in
      subst IsStamped (sym grown) (record {
        stamped = rw history-update (
            All-append HasOwnId db.history_events _ v.stamped
              (new_rows-IsStamped r now row.next_event_id (e ∷ es)));
      });
}

add-IsStamped : (row : Execution) → Keeps IsStamped (exec (add_execution row))
unfolding add_execution
add-IsStamped row = Keeps-exec _ λ db v. record { stamped = v.stamped }

insert-IsStamped :
    (r : Run) (p : StartWorkflowParams) (now : Time)
    → Keeps IsStamped (insert_execution (new_execution r p now))
unfolding insert_execution
insert-IsStamped r p now = search (keeps_rules, add-IsStamped)

IsStamped-rules : TableRules IsStamped
IsStamped-rules = record {
  frame = λ db db' _ h v. record { stamped = subst (All HasOwnId) (sym h) v.stamped };
  appends = append_events-IsStamped;
  inserts = insert-IsStamped;
  closes = λ r s now _.
      unfold close_execution update_execution in
      Keeps-exec _ λ db v. record { stamped = v.stamped };
}

select-All :
    {A : Type 0} (P : A → Type 0) (p : A → Bool) (xs : List A) → All P xs → All P (select p xs)
unfolding select
select-All P p [] h = tt
select-All P p (x ∷ xs) h = ground (arith, select-All P p xs h.1)

event_ids :
    (rows : List HistoryRow)
    → All HasOwnId rows
    → map (λ (e : HistoryEvent). e.event_id) (map (λ (row : HistoryRow). row.data_event) rows)
      ≡ map (λ (row : HistoryRow). row.event_id) rows
event_ids [] h = refl
event_ids (row ∷ rows) h = ground (arith, event_ids rows h.1)

-- Rows that stand in order are not moved by `ORDER BY`.
abbrev by_id : HistoryRow → HistoryRow → Bool
by_id a b = ltb a.event_id b.event_id

insert-iota :
    (row : HistoryRow) (rows : List HistoryRow) (a k : ℕ)
    → row.event_id ≡ a
    → map (λ (row : HistoryRow). row.event_id) rows ≡ iota (a + 1) k
    → insert_by by_id row rows ≡ row ∷ rows
unfolding insert_by
insert-iota row [] a k e h = refl
insert-iota row (x ∷ rows) a zero e h = cc
insert-iota row (x ∷ rows) a (suc k) e h = ground arith

order_by-iota :
    (rows : List HistoryRow) (a k : ℕ)
    → map (λ (row : HistoryRow). row.event_id) rows ≡ iota a k
    → order_by by_id rows ≡ rows
unfolding order_by
order_by-iota [] a k h = refl
order_by-iota (row ∷ rows) a zero h = cc
order_by-iota (row ∷ rows) a (suc k) h =
    ap (insert_by by_id row) (order_by-iota rows (a + 1) k (ground arith))
    ∙ insert-iota row rows a k (ground arith) (ground arith)

-- The order of the table is the order of the ids.
pub load_history-rows :
    (r : Run) (db : Db)
    → IsGapFree db
    → load_history r db
      ≡ map
          (λ (row : HistoryRow). row.data_event)
          (select (λ (row : HistoryRow). row.run == r) db.history_events)
unfolding load_history
load_history-rows r db v = ap (map (λ (row : HistoryRow). row.data_event)) (
    order_by-iota (select (λ (row : HistoryRow). row.run == r) db.history_events) 1
      (next_id r db - 1) (v.numbered r))

load_history-ids :
    (r : Run) (db : Db)
    → IsGapFree db
    → IsStamped db
    → map (λ (e : HistoryEvent). e.event_id) (load_history r db) ≡ iota 1 (next_id r db - 1)
load_history-ids r db v w =
    let rows = select (λ (row : HistoryRow). row.run == r) db.history_events in
    ap (map (λ (e : HistoryEvent). e.event_id)) (load_history-rows r db v)
    ∙ event_ids rows (select-All HasOwnId _ db.history_events w.stamped)
    ∙ v.numbered r

pub empty-IsGapFree : IsGapFree empty_db
unfolding find_execution select first
empty-IsGapFree = record { numbered = λ r. refl; started = λ r. omega arith }

-- Whatever calls the store has served, the history that `loadHistory` returns for a run has the
-- event ids 1, 2, 3 and so on, in order and without a gap, up to the one before the run's
-- `next_event_id`; for a run that was never started it is empty.
pub load_history_numbered :
    (fl : Float64) (cs : List (Time × Call)) (r : Run)
    → let db = run_calls fl empty_db cs in
      map (λ (e : HistoryEvent). e.event_id) (load_history r db) ≡ iota 1 (next_id r db - 1)
load_history_numbered fl cs r =
    load_history-ids r _
      (run_calls-Keeps (call_rules (statements IsGapFree-rules) fl) empty_db cs empty-IsGapFree)
      (run_calls-Keeps (call_rules (statements IsStamped-rules) fl) empty_db cs
        (record { stamped = tt }))
