-- ===== src/Client.antt =====
-- sdk/client/client.go and sdk/converter/converter.go: what a client sends to the service and makes of the reply. The
-- JSON of a value is a parameter.
pub mod Started
use chronos_engine.Prelude.{
  ℤ, String, Option, some, none, List, [], Bool, string_eq, ◌==◌, if◌then◌else◌,
}
use chronos_engine.Messages.{Bytes, Time, WorkflowStatus, HistoryEvent, WorkflowExecution}
use chronos_engine.Server.Paging.{TokenText, ListResponse, serve_list_workflows}
use chronos_engine.Store.Tables.{Run, Db, StartWorkflowParams}
use chronos_engine.Store.Workflows.{Cast, Scan}
use chronos_engine.Replay.Types.{WorkflowRetryPolicy, to_proto}
use chronos_engine.Server.{
  Code, Metrics, Reply, replies, rejects, Served, serve_start_workflow, serve_signal_workflow,
  serve_describe_workflow, serve_history,
}

-- `none` is nil, which has no bytes.
unfoldable pub encode : {A : Type 0} → (A → Option Bytes) → Option A → Option Bytes
encode marshal none = some []
encode marshal (some v) = marshal v

pub record StartWorkflowOptions (A : Type 0) : Type 0 where
  pub id : String
  pub workflow_type : String
  pub task_queue : String
  pub input : Option A
  pub retry_policy : Option WorkflowRetryPolicy

pub record StartWorkflowResult : Type 0 where
  pub workflow_id : String
  pub run_id : String
  pub is_already_started : Bool

-- What a call of the client returns.
pub data Answer (R : Type 0) : Type 0 where
  answers : R → Answer R
  refused : Code → Answer R
  not_encoded : Answer R

-- With the counters and the database that the service leaves.
pub record Called (R : Type 0) : Type 0 where
  pub answer : Answer R
  pub metrics : Metrics
  pub db : Db

abbrev pub of_reply : {R S : Type 0} → (R → S) → Reply R → Answer S
of_reply f (replies x) = answers (f x)
of_reply f (rejects c) = refused c

abbrev pub of_served : {R S : Type 0} → (R → S) → Served R → Called S
of_served f s = record { answer = of_reply f s.reply; metrics = s.metrics; db = s.db }

abbrev pub start_request : {A : Type 0} → StartWorkflowOptions A → Bytes → StartWorkflowParams
start_request opts input = record {
  workflow_id = opts.id;
  workflow_type = opts.workflow_type;
  task_queue = if opts.task_queue == "" then "default" else opts.task_queue;
  input = input;
  retry_policy = to_proto opts.retry_policy;
}

abbrev pub start_result : String → String × Bool → StartWorkflowResult
start_result id (run_id, already) = record {
  workflow_id = id;
  run_id = run_id;
  is_already_started = already;
}

-- `run_id` and `now` are those of the store's call.
unfoldable pub client_start :
    {A : Type 0}
    → (A → Option Bytes)
    → StartWorkflowOptions A
    → String
    → Time
    → Metrics
    → Db
    → Called StartWorkflowResult
client_start marshal opts run_id now m db = elim (encode marshal opts.input) [
  | none ↦ record { answer = not_encoded; metrics = m; db = db }
  | some input ↦
      of_served (start_result opts.id)
        (serve_start_workflow run_id (start_request opts input) now m db)
]

unfoldable pub client_signal :
    {A : Type 0}
    → (A → Option Bytes)
    → Cast
    → Run
    → String
    → Option A
    → Time
    → Metrics
    → Db
    → Called Unit
client_signal marshal cast r name input now m db = elim (encode marshal input) [
  | none ↦ record { answer = not_encoded; metrics = m; db = db }
  | some payload ↦ of_served (λ u. u) (serve_signal_workflow cast r name payload now m db)
]

unfoldable pub client_describe : Cast → Run → Metrics → Db → Called WorkflowExecution
client_describe cast r m db = of_served (λ e. e) (serve_describe_workflow cast r m db)

unfoldable pub client_history : Cast → Run → Metrics → Db → Called (List HistoryEvent)
client_history cast r m db = of_served (λ events. events) (serve_history cast r m db)

-- A listing asks for the first page, and drops the token of the next.
unfoldable pub client_list :
    TokenText → Scan → WorkflowStatus → ℤ → Db → Answer (List WorkflowExecution)
client_list text scan status page_size db =
    of_reply (λ (l : ListResponse). l.executions)
      (serve_list_workflows text scan status page_size "" db)
