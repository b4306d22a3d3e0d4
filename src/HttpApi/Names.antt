-- ===== src/HttpApi/Names.antt =====
-- The names of statuses and of the events that the store writes, in internal/httpapi/dto.go.
use chronos_engine.Prelude.{◌≡◌, refl}
use chronos_engine.Messages.{WorkflowStatus}
use chronos_engine.HttpApi.{status_name, parse_status}

-- The status filter of the HTTP API reads every name that the API writes for a status as that status.
pub parse_status-status_name : (s : WorkflowStatus) → parse_status (status_name s) ≡ s
unfolding parse_status status_name
parse_status-status_name WorkflowStatus.unspecified = refl
parse_status-status_name WorkflowStatus.running = refl
parse_status-status_name WorkflowStatus.completed = refl
parse_status-status_name WorkflowStatus.failed = refl
parse_status-status_name WorkflowStatus.timed_out = refl
parse_status-status_name WorkflowStatus.terminated = refl
