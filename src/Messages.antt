-- ===== src/Messages.antt =====
-- The messages of api/proto/chronos/v1/chronos.proto, as the generated Go types of
-- api/gen/chronos/v1/chronos.pb.go hold them: events of a history, commands of a decision, retry
-- policies. A pointer that may be nil is an `Option`; a oneof is a data type; bytes are a list of
-- numbers. Instants and durations are nanoseconds, a float64 is its bit pattern.
use chronos_engine.Prelude.{ℕ, ℤ, pos, String, Option, none, some, List, Bool}

abbrev pub Bytes : Type 0
Bytes = List ℕ

abbrev pub Time : Type 0
Time = ℤ

abbrev pub Duration : Type 0
Duration = ℤ

pub data WorkflowStatus : Type 0 where
  unspecified running completed failed timed_out terminated : WorkflowStatus

pub data EventType : Type 0 where
  unspecified : EventType
  workflow_execution_started : EventType
  workflow_task_scheduled workflow_task_started workflow_task_completed : EventType
  activity_task_scheduled activity_task_started activity_task_completed : EventType
  activity_task_failed activity_task_retry_scheduled : EventType
  timer_started timer_fired : EventType
  workflow_execution_signaled : EventType
  workflow_execution_completed workflow_execution_failed : EventType

pub record RetryPolicy : Type 0 where
  pub initial_interval : Option Duration
  pub backoff_coefficient : ℕ  -- the bits of the float64
  pub max_interval : Option Duration
  pub max_attempts : ℤ  -- int32

pub record Failure : Type 0 where
  pub message : String
  pub type : String

-- The oneof `attributes` of `HistoryEvent`, the fields of each message in its order.
pub data Attributes : Type 0 where
  workflow_execution_started : String → String → Bytes → Option RetryPolicy → Attributes
  activity_task_scheduled :
      String → String → String → Bytes → Option RetryPolicy → Option Duration → ℤ → Attributes
  activity_task_started : ℕ → String → ℤ → Attributes
  activity_task_completed : ℕ → Bytes → Attributes
  activity_task_failed : ℕ → Option Failure → Bool → Attributes
  activity_task_retry_scheduled : ℕ → ℤ → Option Time → Option Failure → Attributes
  timer_started : String → Option Duration → Option Time → Attributes
  timer_fired : String → ℕ → Attributes
  workflow_execution_signaled : String → Bytes → Attributes
  workflow_execution_completed : Bytes → Attributes
  workflow_execution_failed : Option Failure → Attributes

pub record HistoryEvent : Type 0 where
  pub event_id : ℕ
  pub event_type : EventType
  pub event_time : Option Time
  pub attributes : Option Attributes

pub record ScheduleActivityTaskCommand : Type 0 where
  pub activity_id : String
  pub activity_type : String
  pub task_queue : String
  pub input : Bytes
  pub retry_policy : Option RetryPolicy
  pub start_to_close_timeout : Option Duration

pub record StartTimerCommand : Type 0 where
  pub timer_id : String
  pub start_to_fire_timeout : Option Duration

-- The oneof of `Command`; `unset` is a command with no attributes.
pub data Command : Type 0 where
  schedule_activity_task : ScheduleActivityTaskCommand → Command
  start_timer : StartTimerCommand → Command
  complete_workflow_execution : Bytes → Command
  fail_workflow_execution : Option Failure → Command
  unset : Command

-- The description of an execution.
pub record WorkflowExecution : Type 0 where
  pub workflow_id : String
  pub run_id : String
  pub workflow_type : String
  pub task_queue : String
  pub status : WorkflowStatus
  pub start_time : Option Time
  pub close_time : Option Time
  pub history_length : ℕ

-- `AsDuration` of a nil duration is 0.
abbrev pub as_duration : Option Duration → Duration
as_duration none = pos 0
as_duration (some d) = d
