-- ===== src/HttpApi/Missing.antt =====
-- What internal/httpapi/httpapi.go answers about a workflow that does not exist, and one that runs already.
use chronos_engine.Prelude.{String, List, map, none, some, ◌≡◌, ap, ◌∙◌, string_eq}
use chronos_engine.Messages.{Bytes, Time, HistoryEvent}
use chronos_engine.Store.Tables.{Run, Db}
use chronos_engine.Store.Monad.{Result, ok, err, not_found, invalid_text}
use chronos_engine.Store.Events.{find_execution}
use chronos_engine.Store.Workflows.{
  Cast, with_run_id, cast_run, describe_workflow, signal_run, signal_workflow, get_history,
}
use chronos_engine.Store.Keeps.{row_or-none}
use chronos_engine.Store.Progress.Commits.{row_or_commits}
use chronos_engine.HttpApi.Events.{to_event_dto}
use chronos_engine.Server.{
  Metrics, code_not_found, internal, serve, to_status, unchanged, serve_signal_workflow,
}
use chronos_engine.HttpApi.Handlers.{
  error, of_store, of_service, SignalRequest, describe_handler, history_handler, write_json, events,
  signal_handler, described, signal_response, write_store_error,
}

signals_missing :
    (cast : Cast) (r run : Run) (name : String) (input : Bytes) (now : Time) (db : Db)
    → cast_run cast r ≡ some run
    → find_execution run db ≡ none
    → signal_workflow cast r name input now db ≡ err not_found
unfolding signal_workflow signal_run
signals_missing cast r run name input now db c h =
    row_or_commits invalid_text (λ db. cast_run cast r) (λ q. signal_run q name input now) db run c
    ∙ row_or-none not_found (find_execution run) _ db h

describes_missing :
    (cast : Cast) (r run : Run) (db : Db)
    → cast_run cast r ≡ some run
    → find_execution run db ≡ none
    → describe_workflow cast r db ≡ err not_found
unfolding describe_workflow
describes_missing cast r run db c h =
    row_or_commits invalid_text (λ db. cast_run cast r) _ db run c
    ∙ row_or-none not_found (find_execution run) _ db h

-- The response to a signal, of what the store says.
signal_handler-of :
    (cast : Cast) (r : Run) (req : SignalRequest) (now : Time) (m : Metrics) (db : Db)
    (result : Result (Unit × Db))
    → signal_workflow cast r req.signal_name req.input now db ≡ result
    → signal_handler cast r (some req) now m db ≡ (
        let served = serve result unchanged m db in
        record {
          response = signal_response served.reply;
          metrics = served.metrics;
          db = served.db;
        })
unfolding signal_handler serve_signal_workflow
signal_handler-of cast r req now m db result h =
    ap {A = Result (Unit × Db)}
      (λ result.
        let served = serve result unchanged m db in
        record {
          response = signal_response served.reply;
          metrics = served.metrics;
          db = served.db;
        })
      h

-- A workflow run that does not exist: where the run id is a UUID, a request for its description gets 404, and a
-- signal to it gets 500 with the service's NotFound status, and changes nothing.
pub missing_workflow :
    (cast : Cast) (r run : Run) (req : SignalRequest) (now : Time) (m : Metrics) (db : Db)
    → cast_run cast r ≡ some run
    → find_execution run db ≡ none
    → (describe_handler cast r db ≡ record { code = 404; body = error (of_store not_found) })
      × (signal_handler cast r (some req) now m db ≡ record {
        response = record { code = 500; body = error (of_service code_not_found) };
        metrics = m;
        db = db;
      })
unfolding describe_handler serve to_status write_store_error
missing_workflow cast r run req now m db c h = (
  ap described (describes_missing cast r run db c h),
  signal_handler-of cast r req now m db (err not_found)
      (signals_missing cast r run req.signal_name req.input now db c h),
)

-- A run id that is not a UUID is an error of the database: its description and its history are answered with 500, and
-- so is a signal to it, with the service's Internal status, which changes nothing.
pub malformed_run :
    (cast : Cast) (enc : Bytes → Bytes) (r : Run) (req : SignalRequest) (now : Time) (m : Metrics)
    (db : Db)
    → cast r.run_id ≡ none
    → (describe_handler cast r db ≡ record { code = 500; body = error (of_store invalid_text) })
      × (history_handler enc cast r db
          ≡ record { code = 500; body = error (of_store invalid_text) })
      × (signal_handler cast r (some req) now m db ≡ record {
        response = record { code = 500; body = error (of_service internal) };
        metrics = m;
        db = db;
      })
unfolding describe_handler history_handler describe_workflow get_history signal_workflow cast_run
    serve to_status write_store_error
malformed_run cast enc r req now m db h =
    let c = ap (with_run_id r.workflow_id) h in
    (
      ap described (row_or-none invalid_text (λ db. cast_run cast r) _ db c),
      ap
          (λ (result : Result (List HistoryEvent × Db)). elim result [
            | ok (history, db') ↦ write_json 200 (events (map (to_event_dto enc) history))
            | err e ↦ write_store_error (of_store e)
          ])
          (row_or-none invalid_text (λ db. cast_run cast r) _ db c),
      signal_handler-of cast r req now m db (err invalid_text)
          (row_or-none invalid_text (λ db. cast_run cast r) _ db c),
    )
