-- ===== src/HttpApi/Events.antt =====
-- internal/httpapi/dto.go: executions and events as the HTTP API shows them.
use chronos_engine.Prelude.{
  ℕ, zero, suc, ◌≤◌, ltb, leb, String, Option, none, some, List, [], ◌∷◌, ◌++◌, length,
  length-append, take, Bool, ◌&&◌, if◌then◌else◌, arith, ℤ, Bool-cases, inl, inr,
}
use chronos_engine.Messages.{Bytes, Time, Attributes, HistoryEvent, Failure}
use chronos_engine.Store.Workflows.{ExecutionView}
use chronos_engine.HttpApi.{status_name, event_type_name, is_printable}

-- A Go string is its bytes; `enc` is `base64.StdEncoding.EncodeToString`.
abbrev short_preview : Bytes → Bytes
short_preview enc = if ltb 128 (length enc) then take 128 enc ++ 226 ∷ 128 ∷ 166 ∷ [] else enc

unfoldable pub preview : (Bytes → Bytes) → Bytes → Bytes
preview enc [] = []
preview enc (c ∷ b) =
    if is_printable (c ∷ b) && leb (length (c ∷ b)) 512 then c ∷ b else short_preview (enc (c ∷ b))

-- What `Details` holds under a key.
pub data Detail : Type 0 where
  text : String → Detail
  bytes : Bytes → Detail
  number : ℤ → Detail
  id : ℕ → Detail
  flag : Bool → Detail
  time : Time → Detail

pub record ExecutionDto : Type 0 where
  pub workflow_id : String
  pub run_id : String
  pub workflow_type : String
  pub task_queue : String
  pub status : String
  pub start_time : Time
  pub close_time : Option Time
  pub history_length : ℕ

pub record EventDto : Type 0 where
  pub event_id : ℕ
  pub type : String
  pub time : Option Time  -- `none` is Go's zero time
  pub details : List (String × Detail)

unfoldable pub to_execution_dto : ExecutionView → ExecutionDto
to_execution_dto e = record {
  workflow_id = e.run.workflow_id;
  run_id = e.run.run_id;
  workflow_type = e.workflow_type;
  task_queue = e.task_queue;
  status = status_name e.status;
  start_time = e.start_time;
  close_time = e.close_time;
  history_length = e.history_length;
}

-- A key that is set only where there is a value.
abbrev error_detail : Option Failure → List (String × Detail)
error_detail none = []
error_detail (some f) = ("error", text f.message) ∷ []

abbrev time_detail : String → Option Time → List (String × Detail)
time_detail key none = []
time_detail key (some t) = (key, time t) ∷ []

unfoldable pub event_details : (Bytes → Bytes) → Option Attributes → List (String × Detail)
event_details enc none = []
event_details enc (some (Attributes.workflow_execution_started type queue input _)) =
    ("workflowType", text type)
    ∷ ("taskQueue", text queue)
    ∷ ("input", bytes (preview enc input))
    ∷ []
event_details enc (some (Attributes.activity_task_scheduled activity_id type _ input _ _ _)) =
    ("activityId", text activity_id)
    ∷ ("activityType", text type)
    ∷ ("input", bytes (preview enc input))
    ∷ []
event_details enc (some (Attributes.activity_task_started scheduled_id worker attempt)) =
    ("scheduledEventId", id scheduled_id)
    ∷ ("worker", text worker)
    ∷ ("attempt", number attempt)
    ∷ []
event_details enc (some (Attributes.activity_task_completed scheduled_id result)) =
    ("scheduledEventId", id scheduled_id) ∷ ("result", bytes (preview enc result)) ∷ []
event_details enc (some (Attributes.activity_task_failed scheduled_id failure retryable)) =
    ("scheduledEventId", id scheduled_id) ∷ ("retryable", flag retryable) ∷ error_detail failure
event_details enc
      (some (Attributes.activity_task_retry_scheduled scheduled_id attempt next failure)) =
    ("scheduledEventId", id scheduled_id)
    ∷ ("attempt", number attempt)
    ∷ (time_detail "nextAttempt" next ++ error_detail failure)
event_details enc (some (Attributes.timer_started timer_id _ fire_time)) =
    ("timerId", text timer_id) ∷ time_detail "fireTime" fire_time
event_details enc (some (Attributes.timer_fired timer_id started_id)) =
    ("timerId", text timer_id) ∷ ("startedEventId", id started_id) ∷ []
event_details enc (some (Attributes.workflow_execution_signaled name input)) =
    ("signalName", text name) ∷ ("input", bytes (preview enc input)) ∷ []
event_details enc (some (Attributes.workflow_execution_completed result)) =
    ("result", bytes (preview enc result)) ∷ []
event_details enc (some (Attributes.workflow_execution_failed failure)) = error_detail failure

unfoldable pub to_event_dto : (Bytes → Bytes) → HistoryEvent → EventDto
to_event_dto enc e = record {
  event_id = e.event_id;
  type = event_type_name e.event_type;
  time = e.event_time;
  details = event_details enc e.attributes;
}

length-take : (n : ℕ) (b : Bytes) → length (take n b) ≤ n
length-take zero b = omega arith
length-take (suc n) [] = omega arith
length-take (suc n) (c ∷ b) = omega (arith, length-take n b)

length-cut : (enc : Bytes) → length (take 128 enc ++ 226 ∷ 128 ∷ 166 ∷ []) ≤ 131
length-cut enc =
    omega (arith, length-take 128 enc, length-append (take 128 enc) (226 ∷ 128 ∷ 166 ∷ []))

length-short_preview : (enc : Bytes) → length (short_preview enc) ≤ 131
length-short_preview enc = elim (Bool-cases (ltb 128 (length enc))) [
  | inl e ↦ rw e (length-cut enc)
  | inr e ↦ rw e (let small : length enc ≤ 128 = ground (arith, e) in omega (arith, small))
]

-- A preview is short: whatever the payload, and whatever its encoding in base 64, the text that the inspector
-- shows for it has at most 512 bytes.
pub preview_short : (enc : Bytes → Bytes) (b : Bytes) → length (preview enc b) ≤ 512
unfolding preview
preview_short enc [] = omega arith
preview_short enc (c ∷ b) = ground (arith, length-short_preview (enc (c ∷ b)))
