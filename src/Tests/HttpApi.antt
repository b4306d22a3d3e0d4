-- ===== src/Tests/HttpApi.antt =====
-- The HTTP API, on two orders.
use chronos_engine.Prelude.{
  ◌≡◌, ◌≤◌, ◌+◌, pos, none, some, List, [], ◌∷◌, refl, arith, first, count, select, length, All,
}
use chronos_engine.Messages.{WorkflowStatus}
use chronos_engine.Store.Tables.{Run, Db, empty_db, same_run}
use chronos_engine.Store.Monad.{not_found, invalid_text, order_by, insert_by}
use chronos_engine.Store.Events.{find_execution}
use chronos_engine.Store.Workflows.{list_workflows, scan_execution}
use chronos_engine.Server.{code_not_found, internal}
use chronos_engine.HttpApi.Events.{preview, preview_short, ExecutionDto, to_execution_dto}
use chronos_engine.HttpApi.Handlers.{
  Stats, stats, stats_of, error, of_store, of_service, workflows, StartRequest, describe_handler,
  history_handler, signal_handler, list_handler,
}
use chronos_engine.HttpApi.Answers.{stats_add_up}
use chronos_engine.Store.Queries.{IsCounted}
use chronos_engine.HttpApi.Missing.{missing_workflow, malformed_run}
use chronos_engine.Store.Workflows.{cast_run}
use Prim.Native.String.{len}
use chronos_engine.Prelude.{String, Option, nat_eq, ◌==◌, if◌then◌else◌}
use chronos_engine.HttpApi.Lists.{list_filtered}
use chronos_engine.Tests.Fixtures.{order_row}
use chronos_engine.Tests.Activities.{no_counts}
use chronos_engine.HttpApi.{status_name, parse_status}
use chronos_engine.HttpApi.Names.{parse_status-status_name}

parse_status-status_name_example :
    parse_status (status_name WorkflowStatus.timed_out) ≡ WorkflowStatus.timed_out
parse_status-status_name_example = parse_status-status_name WorkflowStatus.timed_out

abbrev missing_run : Run
missing_run = record { workflow_id = "order-9"; run_id = "7d444840-9dc0-11d1-b245-5ffdce74fad2" }

-- Texts of 36 characters are read.
abbrev as_uuid : String → Option String
as_uuid text = if len text == 36 then some text else none

reads_run : cast_run as_uuid missing_run ≡ some missing_run
unfolding cast_run
reads_run = refl

abbrev malformed : Run
malformed = record { workflow_id = "order-1"; run_id = "run-z" }

abbrev orders : Db
orders = record empty_db {
  executions =
      order_row
      ∷ record order_row {
        run = record { workflow_id = "order-2"; run_id = "run-c" };
        status = WorkflowStatus.failed;
      }
      ∷ [];
}

no_order : find_execution missing_run orders ≡ none
unfolding find_execution first same_run
no_order = refl

missing_workflow_example :
    (describe_handler as_uuid missing_run orders
      ≡ record { code = 404; body = error (of_store not_found) })
    × (signal_handler as_uuid missing_run
          (some (record { signal_name = "cancel"; input = [] }))
          (pos 9)
          no_counts
          orders
        ≡ record {
          response = record { code = 500; body = error (of_service code_not_found) };
          metrics = no_counts;
          db = orders;
        })
missing_workflow_example =
    missing_workflow as_uuid missing_run missing_run (record { signal_name = "cancel"; input = [] })
      (pos 9) no_counts orders reads_run no_order

malformed_run_example :
    (describe_handler as_uuid malformed orders
      ≡ record { code = 500; body = error (of_store invalid_text) })
    × (history_handler (λ b. b) as_uuid malformed orders
        ≡ record { code = 500; body = error (of_store invalid_text) })
    × (signal_handler as_uuid malformed
          (some (record { signal_name = "cancel"; input = [] }))
          (pos 9)
          no_counts
          orders
        ≡ record {
          response = record { code = 500; body = error (of_service internal) };
          metrics = no_counts;
          db = orders;
        })
malformed_run_example =
    malformed_run as_uuid (λ b. b) malformed (record { signal_name = "cancel"; input = [] }) (pos 9)
      no_counts orders refl

abbrev order_request : StartRequest
order_request = record {
  workflow_id = "order-1";
  workflow_type = "OrderFulfillment";
  task_queue = "";
  input = 7 ∷ [];
}

orders-IsCounted : IsCounted (WorkflowStatus.failed ∷ WorkflowStatus.running ∷ []) orders.executions
unfolding count
orders-IsCounted WorkflowStatus.unspecified h = ground arith
orders-IsCounted WorkflowStatus.running h = refl
orders-IsCounted WorkflowStatus.completed h = ground arith
orders-IsCounted WorkflowStatus.failed h = refl
orders-IsCounted WorkflowStatus.timed_out h = ground arith
orders-IsCounted WorkflowStatus.terminated h = ground arith

stats_add_up_example :
    (s : Stats) × (stats (WorkflowStatus.failed ∷ WorkflowStatus.running ∷ []) orders
      ≡ record { code = 200; body = stats_of s })
    × (s.total ≡ 2)
    × (s.running + s.completed + s.failed + s.timed_out + s.terminated + s.unspecified ≡ s.total)
stats_add_up_example =
    stats_add_up (WorkflowStatus.failed ∷ WorkflowStatus.running ∷ []) orders orders-IsCounted

abbrev failed_orders : List ExecutionDto
failed_orders =
    record {
      workflow_id = "order-2";
      run_id = "run-c";
      workflow_type = "OrderFulfillment";
      task_queue = "default";
      status = "failed";
      start_time = pos 1;
      close_time = none;
      history_length = 3;
    }
    ∷ []

lists_failed :
    list_handler (λ rows. rows) "failed" (pos 0) (pos 0) orders
    ≡ record { code = 200; body = workflows failed_orders }
unfolding list_handler parse_status list_workflows scan_execution to_execution_dto order_by
    insert_by select status_name
lists_failed = refl

list_filtered_example : All (λ (d : ExecutionDto). d.status ≡ "failed") failed_orders
unfolding status_name
list_filtered_example =
    list_filtered (λ rows. rows) WorkflowStatus.failed (pos 0) (pos 0) orders failed_orders refl
      lists_failed

preview_short_example : length (preview (λ b. b) (200 ∷ 0 ∷ [])) ≤ 512
preview_short_example = preview_short (λ b. b) (200 ∷ 0 ∷ [])
