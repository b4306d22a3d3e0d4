-- ===== src/Client/Started.antt =====
-- A workflow that a client starts and then looks at, through sdk/client, internal/server and internal/storage/postgres.
use chronos_engine.Prelude.{
  ◌+◌, ◌≡◌, ap, ◌∙◌, false, ◌||◌, String, Option, some, none, List, arith, exists, string_eq, ◌==◌,
  if◌then◌else◌,
}
use chronos_engine.Messages.{Bytes, Time, running}
use chronos_engine.Core.{Float64}
use chronos_engine.Store.Tables.{Run, run_eq, Execution, Db, empty_db}
use chronos_engine.Store.Monad.{Result, ok, ◌>>=◌, pure, not_found, invalid_text}
use chronos_engine.Store.Events.{find_execution}
use chronos_engine.Store.Workflows.{
  ExecutionView, Cast, with_run_id, cast_run, is_running, start_workflow, describe_workflow,
  scan_execution,
}
use chronos_engine.Store.Calls.{Call, run_calls}
use chronos_engine.Store.Progress.Commits.{row_or_commits}
use chronos_engine.Store.Starts.Fresh.{start_workflow_commits}
use chronos_engine.Server.Accepts.{has_queue}
use chronos_engine.Server.{
  Metrics, serve, serve_start_workflow, serve_describe_workflow, to_proto_execution, unchanged,
}
use chronos_engine.Client.{
  encode, StartWorkflowOptions, answers, of_served, start_request, client_start, client_describe,
}

module _ {A : Type 0} (marshal : A → Option Bytes) (opts : StartWorkflowOptions A) (input : Bytes)
    (run_id : String) (now : Time) (m : Metrics) where
  sent :
      (db db' : Db)
      → encode marshal opts.input ≡ some input
      → (opts.id == "" || opts.workflow_type == "") ≡ false
      → start_workflow run_id (start_request opts input) now db ≡ ok ((run_id, false), db')
      → client_start marshal opts run_id now m db ≡ record {
        answer =
            answers (record { workflow_id = opts.id; run_id = run_id; is_already_started = false });
        metrics = record m { workflows_started = m.workflows_started + 1 };
        db = db';
      }
  unfolding client_start serve_start_workflow serve
  sent db db' encoded filled started =
      ground (arith, encoded, filled, has_queue opts.task_queue, started)

described :
    (cast : Cast) (r : Run) (row : Execution) (m : Metrics) (db : Db)
    → cast r.run_id ≡ some r.run_id
    → find_execution r db ≡ some row
    → client_describe cast r m db
      ≡ record { answer = answers (to_proto_execution (scan_execution row)); metrics = m; db = db }
unfolding client_describe serve_describe_workflow serve describe_workflow cast_run
described cast r row m db c found =
    ap {A = Result (ExecutionView × Db)}
      (λ result.
        of_served (λ e. e)
          (serve ((◌>>=◌ (λ _. result) (λ e. pure (to_proto_execution e))) db) unchanged m db))
      (row_or_commits invalid_text (λ db. cast_run cast r) _ db r (ap (with_run_id r.workflow_id) c)
        ∙ row_or_commits not_found (find_execution r) _ db row found)

-- A client sees what it starts. On any database that calls of the store lead to, where no execution of the id is
-- running and none has the run id, a start with an input that can be encoded, an id and a type, under a run id
-- that the database reads as it is, returns the run id as
-- not yet started and raises the counter of started workflows; and a description of the run that follows, whatever
-- the counters are, shows it running since then, with its type, its queue ("default" where none was given) and one
-- event.
pub start_described :
    {A : Type 0} (marshal : A → Option Bytes) (opts : StartWorkflowOptions A) (input : Bytes)
    (fl : Float64) (cast : Cast) (cs : List (Time × Call)) (run_id : String) (now : Time)
    (m : Metrics)
    → let db = run_calls fl empty_db cs in
      let r : Run = record { workflow_id = opts.id; run_id = run_id } in
      encode marshal opts.input ≡ some input
      → (opts.id == "" || opts.workflow_type == "") ≡ false
      → cast run_id ≡ some run_id
      → exists (λ e. e.run == r || is_running opts.id e) db.executions ≡ false
      → (db' : Db) × (client_start marshal opts run_id now m db ≡ record {
        answer =
            answers (record { workflow_id = opts.id; run_id = run_id; is_already_started = false });
        metrics = record m { workflows_started = m.workflows_started + 1 };
        db = db';
      })
        × ((m' : Metrics)
            → client_describe cast r m' db' ≡ record {
              answer = answers (record {
                workflow_id = opts.id;
                run_id = run_id;
                workflow_type = opts.workflow_type;
                task_queue = if opts.task_queue == "" then "default" else opts.task_queue;
                status = running;
                start_time = some now;
                close_time = none;
                history_length = 1;
              });
              metrics = m';
              db = db';
            })
unfolding scan_execution to_proto_execution
start_described marshal opts input fl cast cs run_id now m encoded filled reads free =
    let db = run_calls fl empty_db cs in
    let (db', started, found, queued) =
      start_workflow_commits fl cs run_id (start_request opts input) now free in
    (
      db',
      sent marshal opts input run_id now m db db' encoded filled started,
      λ m'. described cast (record { workflow_id = opts.id; run_id = run_id }) _ m' db' reads found,
    )
