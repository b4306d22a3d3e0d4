-- ===== src/Tests/Clients.antt =====
-- A client of sdk/client/client.go, with payloads that are bytes already.
use chronos_engine.Prelude.{pos, Option, some, none, [], ◌∷◌, false, exists, ◌≡◌, refl, string_eq}
use chronos_engine.Messages.{Bytes, running}
use chronos_engine.Store.Tables.{Db, empty_db}
use chronos_engine.Store.Calls.{run_calls}
use chronos_engine.Server.{Metrics}
use chronos_engine.Client.{encode, StartWorkflowOptions, answers, client_start, client_describe}
use chronos_engine.Client.Started.{start_described}
use chronos_engine.Tests.Fixtures.{whole, order_run}
use chronos_engine.Tests.Activities.{no_counts}

abbrev as_bytes : Bytes → Option Bytes
as_bytes b = some b

abbrev order_options : StartWorkflowOptions Bytes
order_options = record {
  id = "order-1";
  workflow_type = "OrderFulfillment";
  task_queue = "";
  input = some (7 ∷ []);
  retry_policy = none;
}

start_described_example :
    (db' : Db) × (client_start as_bytes order_options "run-a"
        (pos 1)
        no_counts
        (run_calls whole empty_db [])
      ≡ record {
        answer =
            answers
              (record { workflow_id = "order-1"; run_id = "run-a"; is_already_started = false });
        metrics = record no_counts { workflows_started = 1 };
        db = db';
      })
    × ((m' : Metrics)
        → client_describe some order_run m' db' ≡ record {
          answer = answers (record {
            workflow_id = "order-1";
            run_id = "run-a";
            workflow_type = "OrderFulfillment";
            task_queue = "default";
            status = running;
            start_time = some (pos 1);
            close_time = none;
            history_length = 1;
          });
          metrics = m';
          db = db';
        })
unfolding encode run_calls exists
start_described_example =
    start_described as_bytes order_options (7 ∷ []) whole some [] "run-a" (pos 1) no_counts refl
      refl refl refl
