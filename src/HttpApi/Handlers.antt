-- ===== src/HttpApi/Handlers.antt =====
-- The handlers of internal/httpapi/httpapi.go. A request is what the router and the decoders of JSON and of
-- numbers make of it; a response is its status code and its body.
use chronos_engine.Prelude.{
  ℕ, ◌+◌, ℤ, String, Option, none, some, List, [], ◌∷◌, map, Bool, true, false, string_eq, ◌==◌,
  if◌then◌else◌,
}
use chronos_engine.Messages.{Bytes, Time, WorkflowStatus}
use chronos_engine.Store.Tables.{Run, Db, StartWorkflowParams}
use chronos_engine.Store.Monad.{Error, Result, ok, err, not_found}
use chronos_engine.Store.Workflows.{
  ExecutionView, Cast, Scan, describe_workflow, get_history, list_workflows, count_by_status,
  entries,
}
use chronos_engine.Server.{
  Code, Metrics, Reply, replies, rejects, serve_start_workflow, serve_signal_workflow,
}
use chronos_engine.HttpApi.{parse_status}
use chronos_engine.HttpApi.Events.{ExecutionDto, EventDto, to_execution_dto, to_event_dto}

-- The counts that the inspector shows.
pub record Stats : Type 0 where
  pub running : ℕ
  pub completed : ℕ
  pub failed : ℕ
  pub timed_out : ℕ
  pub terminated : ℕ
  pub unspecified : ℕ
  pub total : ℕ

-- What a handler finds wrong: the body does not decode, the database does not answer, the store or the
-- service returns an error.
pub data Fault : Type 0 where
  undecodable unreachable query_failed : Fault
  of_store : Error → Fault
  of_service : Code → Fault

pub data Body : Type 0 where
  error : Fault → Body
  status : String → Body
  stats_of : Stats → Body
  workflows : List ExecutionDto → Body
  workflow : ExecutionDto → Body
  events : List EventDto → Body
  started : String → String → Bool → Body

pub record Response : Type 0 where
  pub code : ℕ
  pub body : Body

abbrev write_error : ℕ → Fault → Response
write_error code f = record { code = code; body = error f }

abbrev pub write_json : ℕ → Body → Response
write_json code b = record { code = code; body = b }

-- `errors.Is(err, storage.ErrNotFound)`: the errors of the service are gRPC statuses, which are never that.
unfoldable pub write_store_error : Fault → Response
write_store_error (of_store not_found) = write_error 404 (of_store not_found)
write_store_error f = write_error 500 f

unfoldable pub health : Bool → Response
health false = write_error 503 unreachable
health true = write_json 200 (status "ok")

abbrev pub no_stats : Stats
no_stats = record {
  running = 0;
  completed = 0;
  failed = 0;
  timed_out = 0;
  terminated = 0;
  unspecified = 0;
  total = 0;
}

-- `out[statusName(status)] += n`.
abbrev pub add_status : WorkflowStatus → ℕ → Stats → Stats
add_status WorkflowStatus.running n s = record s { running = s.running + n }
add_status WorkflowStatus.completed n s = record s { completed = s.completed + n }
add_status WorkflowStatus.failed n s = record s { failed = s.failed + n }
add_status WorkflowStatus.timed_out n s = record s { timed_out = s.timed_out + n }
add_status WorkflowStatus.terminated n s = record s { terminated = s.terminated + n }
add_status WorkflowStatus.unspecified n s = record s { unspecified = s.unspecified + n }

abbrev pub add_counts : WorkflowStatus → ℕ → Stats → Stats
add_counts w n s = let named = add_status w n s in record named { total = named.total + n }

-- The loop over the entries of the map.
unfoldable pub sum_counts : List (WorkflowStatus × ℕ) → Stats → Stats
sum_counts [] s = s
sum_counts ((w, n) ∷ counts) s = sum_counts counts (add_counts w n s)

-- The keys of the map come in the order `keys`.
unfoldable pub stats : List WorkflowStatus → Db → Response
stats keys db = write_json 200 (stats_of (sum_counts (entries (count_by_status db) keys) no_stats))

abbrev pub listed : Option (List ExecutionView) → Response
listed none = write_error 500 query_failed
listed (some execs) = write_json 200 (workflows (map to_execution_dto execs))

-- `limit` and `offset` are what `strconv.Atoi` returns, 0 where it fails.
unfoldable pub list_handler : Scan → String → ℤ → ℤ → Db → Response
list_handler scan status_filter limit offset db =
    listed (list_workflows scan (parse_status status_filter) limit offset db)

abbrev pub described : Result (ExecutionView × Db) → Response
described (ok (e, db)) = write_json 200 (workflow (to_execution_dto e))
described (err e) = write_store_error (of_store e)

unfoldable pub describe_handler : Cast → Run → Db → Response
describe_handler cast r db = described (describe_workflow cast r db)

unfoldable pub history_handler : (Bytes → Bytes) → Cast → Run → Db → Response
history_handler enc cast r db = elim (get_history cast r db) [
  | ok (history, db') ↦ write_json 200 (events (map (to_event_dto enc) history))
  | err e ↦ write_store_error (of_store e)
]

pub record StartRequest : Type 0 where
  pub workflow_id : String
  pub workflow_type : String
  pub task_queue : String
  pub input : Bytes

pub record SignalRequest : Type 0 where
  pub signal_name : String
  pub input : Bytes

-- A response, the counters and the database.
pub record Handled : Type 0 where
  pub response : Response
  pub metrics : Metrics
  pub db : Db

abbrev pub start_params : StartRequest → StartWorkflowParams
start_params req = record {
  workflow_id = req.workflow_id;
  workflow_type = req.workflow_type;
  task_queue = if req.task_queue == "" then "default" else req.task_queue;
  input = req.input;
  retry_policy = none;
}

abbrev pub start_response : String → Reply (String × Bool) → Response
start_response workflow_id (replies (run_id, already)) =
    write_json 201 (started workflow_id run_id already)
start_response workflow_id (rejects c) = write_error 400 (of_service c)

-- `run_id` and `now` are those of the store's call.
unfoldable pub start_handler : Option StartRequest → String → Time → Metrics → Db → Handled
start_handler none run_id now m db = record {
  response = write_error 400 undecodable;
  metrics = m;
  db = db;
}
start_handler (some req) run_id now m db =
    let served = serve_start_workflow run_id (start_params req) now m db in
    record {
      response = start_response req.workflow_id served.reply;
      metrics = served.metrics;
      db = served.db;
    }

abbrev pub signal_response : Reply Unit → Response
signal_response (replies u) = write_json 200 (status "signaled")
signal_response (rejects c) = write_store_error (of_service c)

unfoldable pub signal_handler : Cast → Run → Option SignalRequest → Time → Metrics → Db → Handled
signal_handler cast r none now m db = record {
  response = write_error 400 undecodable;
  metrics = m;
  db = db;
}
signal_handler cast r (some req) now m db =
    let served = serve_signal_workflow cast r req.signal_name req.input now m db in
    record { response = signal_response served.reply; metrics = served.metrics; db = served.db }
