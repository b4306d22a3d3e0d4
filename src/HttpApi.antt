-- ===== src/HttpApi.antt =====
-- internal/httpapi/dto.go: the names that the HTTP API gives to statuses and events, and which
-- payloads it shows as text.
pub mod Names
pub mod Events
pub mod Handlers
pub mod Answers
pub mod Missing
pub mod Lists
use chronos_engine.Prelude.{
  ℕ, ltb, leb, String, List, [], ◌∷◌, length, Bool, true, false, ◌&&◌, ◌||◌, string_eq, ◌==◌,
  if◌then◌else◌,
}
use Prim.Native.String.{◌++◌ as str_append}
use chronos_engine.Messages.{Bytes, WorkflowStatus, EventType}

unfoldable pub status_name : WorkflowStatus → String
status_name WorkflowStatus.running = "running"
status_name WorkflowStatus.completed = "completed"
status_name WorkflowStatus.failed = "failed"
status_name WorkflowStatus.timed_out = "timedOut"
status_name WorkflowStatus.terminated = "terminated"
status_name WorkflowStatus.unspecified = "unspecified"

unfoldable pub parse_status : String → WorkflowStatus
parse_status s =
    if s == "running"
    then WorkflowStatus.running
    else if s == "completed"
    then WorkflowStatus.completed
    else if s == "failed"
    then WorkflowStatus.failed
    else if s == "timedOut"
    then WorkflowStatus.timed_out
    else if s == "terminated"
    then WorkflowStatus.terminated
    else WorkflowStatus.unspecified

unfoldable pub event_type_name : EventType → String
event_type_name EventType.workflow_execution_started = "WorkflowExecutionStarted"
event_type_name EventType.activity_task_scheduled = "ActivityTaskScheduled"
event_type_name EventType.activity_task_started = "ActivityTaskStarted"
event_type_name EventType.activity_task_completed = "ActivityTaskCompleted"
event_type_name EventType.activity_task_failed = "ActivityTaskFailed"
event_type_name EventType.activity_task_retry_scheduled = "ActivityTaskRetryScheduled"
event_type_name EventType.timer_started = "TimerStarted"
event_type_name EventType.timer_fired = "TimerFired"
event_type_name EventType.workflow_execution_signaled = "WorkflowExecutionSignaled"
event_type_name EventType.workflow_execution_completed = "WorkflowExecutionCompleted"
event_type_name EventType.workflow_execution_failed = "WorkflowExecutionFailed"
event_type_name _ = "Unspecified"

unfoldable pub is_printable : Bytes → Bool
is_printable [] = true
is_printable (c ∷ b) = if ltb c 9 || ltb 13 c && ltb c 32 then false else is_printable b
