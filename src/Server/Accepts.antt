-- ===== src/Server/Accepts.antt =====
-- Requests that StartWorkflow of internal/server/server.go hands to the store.
use chronos_engine.Prelude.{
  ◌≡◌, refl, false, ◌||◌, String, arith, string_eq, ◌==◌, if◌then◌else◌, Bool-cases, inl, inr,
}
use chronos_engine.Messages.{Time}
use chronos_engine.Store.Tables.{Db, StartWorkflowParams}
use chronos_engine.Store.Workflows.{start_workflow}
use chronos_engine.Server.{Metrics, serve, serve_start_workflow, count_start}

pub has_queue : (queue : String) → ((if queue == "" then "default" else queue) == "") ≡ false
has_queue queue = elim (Bool-cases (queue == "")) [ inl e ↦ rw e refl | inr e ↦ rw e e ]

pub accepts :
    (p : StartWorkflowParams) (run_id : String) (now : Time) (m : Metrics) (db : Db)
    → (p.workflow_id == "" || p.workflow_type == "") ≡ false
    → (p.task_queue == "") ≡ false
    → serve_start_workflow run_id p now m db
      ≡ serve (start_workflow run_id p now db) count_start m db
unfolding serve_start_workflow
accepts p run_id now m db filled queue = ground (arith, filled, queue)
