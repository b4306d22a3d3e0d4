-- ===== src/Replay/Types.antt =====
-- The types of sdk/workflow/workflow.go and sdk/workflow/environment.go, and workflow code as what
-- it asks of its `Context`, one call after the other.
use chronos_engine.Prelude.{ℕ, ℤ, String, Option, none, some, List, Bool, pos, leb_ℤ, if◌then◌else◌}
use chronos_engine.Messages.{Bytes, Time, Duration, Failure, Command, RetryPolicy}

-- `workflow.RetryPolicy`.
pub record WorkflowRetryPolicy : Type 0 where
  pub initial_interval : Duration
  pub backoff_coefficient : ℕ
  pub max_interval : Duration
  pub max_attempts : ℤ

pub record ActivityOptions : Type 0 where
  pub task_queue : String
  pub start_to_close_timeout : Duration
  pub retry_policy : Option WorkflowRetryPolicy
  pub activity_id : String

unfoldable pub duration_proto : Duration → Option Duration
duration_proto d = if leb_ℤ d (pos 0) then none else some d

unfoldable pub to_proto : Option WorkflowRetryPolicy → Option RetryPolicy
to_proto none = none
to_proto (some p) = some (record {
  initial_interval = duration_proto p.initial_interval;
  backoff_coefficient = p.backoff_coefficient;
  max_interval = duration_proto p.max_interval;
  max_attempts = p.max_attempts;
})

pub record ActivityError : Type 0 where
  pub activity_type : String
  pub message : String

pub record ActivityState : Type 0 where
  pub activity_type : String
  pub completed : Bool
  pub failed : Bool
  pub result : Bytes
  pub failure : Option Failure

pub record TimerState : Type 0 where
  pub fired : Bool

pub record SignalRecord : Type 0 where
  pub name : String
  pub input : Bytes
  pub consumed : Bool

-- The logger is left out: no decision depends on it.
pub record Environment : Type 0 where
  pub input : Bytes
  pub now : Time
  pub task_queue : String
  pub terminated : Bool
  pub activities : List ActivityState
  pub timers : List TimerState
  pub signals : List SignalRecord
  pub activity_seq : ℕ
  pub timer_seq : ℕ
  pub new_commands : List Command
  pub replaying : Bool

pub record Future : Type 0 where
  pub ready : Bool
  pub value : Bytes
  pub error : Option ActivityError

-- What `Get` hands to the workflow: the error of the activity, or the bytes that it decodes.
pub data GetResult : Type 0 where
  got : Bytes → GetResult
  got_error : ActivityError → GetResult

-- Workflow code. An activity's input is what `converter.Encode` makes of it, `none` where that
-- fails; an error is its text.
pub data Workflow : Type 0 where
  returns : Bytes → Workflow
  fails : String → Workflow
  panics : String → Workflow
  executes_activity : String → Option Bytes → ActivityOptions → (Future → Workflow) → Workflow
  starts_timer : Duration → (Future → Workflow) → Workflow
  gets : Future → (GetResult → Workflow) → Workflow
  asks_ready : Future → (Bool → Workflow) → Workflow
  reads_now : (Time → Workflow) → Workflow
  receives_signal : String → (Option Bytes → Workflow) → Workflow
  awaits_signal : String → (Bytes → Workflow) → Workflow

-- `workflow.Definition`.
abbrev pub Definition : Type 0
Definition = Bytes → Workflow

-- What a panic carries: the sentinel that yields, the check of determinism, an input that cannot be
-- encoded, or the workflow's own value.
pub data Panic : Type 0 where
  blocked : Panic
  nondeterministic : ℕ → String → String → Panic
  encode_failed : Panic
  application : String → Panic

-- Go's fmt: the decimal of a number, and a panic's value as text.
pub record Fmt : Type 0 where
  pub decimal : ℕ → String
  pub panic_text : Panic → String

pub record DecisionResult : Type 0 where
  pub commands : List Command
  pub completed : Bool
