-- ===== src/Resumption.antt =====
-- The store and the replay engine together: a worker is given a history, decides, and its commands are
-- recorded (internal/storage/postgres/tasks.go, sdk/workflow/environment.go, sdk/worker/worker.go).
use mathlib.Core.Path.{subst}
use chronos_engine.Prelude.{
  ℕ, ◌≡◌, refl, sym, ap, ◌∙◌, Bool, true, false, String, some, List, [], ◌∷◌, ◌++◌, map, map-append,
  All, select, count, ◌==◌, ==_iff, arith,
}
use chronos_engine.Prelude.Counting.{select-append}
use chronos_engine.Messages.{Bytes, Time, Command}
use chronos_engine.Core.{Float64}
use chronos_engine.Store.Tables.{Run, run_eq, HistoryRow, TaskRow, Db, empty_db}
use chronos_engine.Store.Monad.{ok, after}
use chronos_engine.Store.Events.{load_history}
use chronos_engine.Store.Commands.{find_workflow_task, complete_workflow_task}
use chronos_engine.Store.Calls.{Call, completes_workflow, step, run_calls}
use chronos_engine.Store.CallRules.{run_calls-Keeps, step-Keeps}
use chronos_engine.Store.TableRules.{statements}
use chronos_engine.Store.Statements.{call_rules}
use chronos_engine.Store.History.GapFree.{IsGapFree}
use chronos_engine.Store.History.Calls.{IsGapFree-rules}
use chronos_engine.Store.History.Numbered.{load_history-rows, empty-IsGapFree}
use chronos_engine.Store.Decided.{Writes, complete-Writes}
use chronos_engine.Replay.Types.{Definition, Fmt}
use chronos_engine.Replay.Engine.{execute}
use chronos_engine.Replay.Fresh.{is_closed}
use chronos_engine.Replay.Commands.{closes, IsWellFormed}
use chronos_engine.Replay.Decisions.{execute-IsWellFormed}
use chronos_engine.Replay.Clock.{IsClockFree}
use chronos_engine.Replay.Opened.{execute_extended}

select-own :
    (r : Run) (rows : List HistoryRow)
    → All (λ (row : HistoryRow). row.run ≡ r) rows
    → select (λ (row : HistoryRow). row.run == r) rows ≡ rows
unfolding select
select-own r [] h = refl
select-own r (row ∷ rows) (h, hs) = ground (arith, ==_iff row.run r, h, select-own r rows hs)

-- What a worker is given after rows of its run are written.
load_history-Writes :
    (r : Run) (cs : List Command) (db db' : Db)
    → IsGapFree db
    → IsGapFree db'
    → (w : Writes r cs db db')
    → load_history r db' ≡ load_history r db ++ map (λ (row : HistoryRow). row.data_event) w.rows
load_history-Writes r cs db db' v v' w =
    let own = λ (row : HistoryRow). row.run == r in
    let stored = λ (row : HistoryRow). row.data_event in
    load_history-rows r db' v'
    ∙ ap (λ rows. map stored (select own rows)) w.added
    ∙ ap (map stored) (
        select-append own db.history_events w.rows
        ∙ ap (λ l. select own db.history_events ++ l) (select-own r w.rows w.own))
    ∙ map-append stored (select own db.history_events) w.rows
    ∙ ap (λ l. l ++ map stored w.rows) (sym (load_history-rows r db v))

none_close :
    (cs : List Command) (b : Bool)
    → b ≡ false
    → IsWellFormed (record { commands = cs; completed = b })
    → count closes cs ≡ 0
unfolding IsWellFormed
none_close cs true h w = cc
none_close cs false h w = w

complete-IsGapFree :
    (fl : Float64) (calls : List (Time × Call)) (token : ℕ) (identity : String) (cs : List Command)
    (now : Time) (u : Unit {0}) (db' : Db)
    → complete_workflow_task fl token identity cs now (run_calls fl empty_db calls) ≡ ok (u, db')
    → IsGapFree db'
unfolding step
complete-IsGapFree fl calls token identity cs now u db' h =
    let rules = call_rules (statements IsGapFree-rules) fl in
    let db = run_calls fl empty_db calls in
    subst IsGapFree (ap (after db) h) (
      step-Keeps rules db now (completes_workflow token identity cs)
        (run_calls-Keeps rules empty_db calls empty-IsGapFree))

-- A decision is made once. On any database that calls of the store lead to, take a task of the workflow queue
-- and the history of its run, and let code that does not read its clock decide on it. Where the decision leaves
-- the workflow waiting and the store commits its commands, the history that the store then returns for the run
-- makes the same code emit nothing and wait, on whichever worker and at whichever time: what was recorded
-- is not scheduled a second time.
pub decision_recorded_once :
    (fl : Float64) (fmt : Fmt) (def : Definition) (queue : String) (calls : List (Time × Call))
    (token : ℕ) (t : TaskRow) (identity : String) (clock now clock' : Time) (u : Unit {0})
    (db' : Db)
    → ((input : Bytes) → IsClockFree (def input))
    → find_workflow_task token (run_calls fl empty_db calls) ≡ some t
    → is_closed (load_history t.run (run_calls fl empty_db calls)) ≡ false
    → (execute fmt def queue (load_history t.run (run_calls fl empty_db calls)) clock).completed
      ≡ false
    → complete_workflow_task fl token identity
        (execute fmt def queue (load_history t.run (run_calls fl empty_db calls)) clock).commands
        now
        (run_calls fl empty_db calls)
      ≡ ok (u, db')
    → execute fmt def queue (load_history t.run db') clock'
      ≡ record { commands = []; completed = false }
decision_recorded_once fl fmt def queue calls token t identity clock now clock' u db' free known
      open_ waits h =
    let db = run_calls fl empty_db calls in
    let r = execute fmt def queue (load_history t.run db) clock in
    let none =
      none_close r.commands r.completed waits
        (execute-IsWellFormed fmt def queue (load_history t.run db) clock open_) in
    let w = complete-Writes fl token identity r.commands now db t u db' known none h in
    let v =
      run_calls-Keeps (call_rules (statements IsGapFree-rules) fl) empty_db calls empty-IsGapFree in
    let v' = complete-IsGapFree fl calls token identity r.commands now u db' h in
    ap (λ history. execute fmt def queue history clock')
      (load_history-Writes t.run r.commands db db' v v' w)
    ∙ execute_extended fmt def queue (load_history t.run db) clock clock' _ free open_ waits
        w.opened
