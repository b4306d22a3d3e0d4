-- ===== src/Replay/Engine.antt =====
-- The context that a workflow runs in, and `Execute`, of sdk/workflow/environment.go.
use chronos_engine.Prelude.{
  ℕ, suc, String, Option, none, some, List, [], ◌∷◌, ◌++◌, true, false, not, ◌&&◌, string_eq, ◌==◌,
  if◌then◌else◌, get_elem?,
}
use Prim.Native.String.{◌++◌ as str_append}
use chronos_engine.Messages.{Bytes, Time, Duration, Failure, HistoryEvent, Command}
use chronos_engine.Replay.Types.{
  ActivityOptions, duration_proto, to_proto, ActivityError, ActivityState, TimerState, SignalRecord,
  Environment, Future, GetResult, got, got_error, Workflow, Definition, Panic, blocked,
  nondeterministic, encode_failed, application, Fmt, DecisionResult,
}
use chronos_engine.Replay.Index.{new_state, new_environment}

-- What a call of the context comes to: a value, or a panic that unwinds the workflow.
pub data Outcome {ℓ} (A : Type ℓ) : Type ℓ where
  ok : A → Outcome A
  raises : Panic → Outcome A

abbrev pub pending : Future
pending = record { ready = false; value = []; error = none }

abbrev pub resolved : Bytes → Future
resolved value = record { ready = true; value = value; error = none }

abbrev message_of : Option Failure → String
message_of none = "activity failed"
message_of (some f) = f.message

unfoldable pub activity_error_from : String → Option Failure → ActivityError
activity_error_from activity_type f = record {
  activity_type = activity_type;
  message = message_of f;
}

abbrev pub or_else : String → String → String
or_else s default = if s == "" then default else s

-- The branch of `ExecuteActivity` for an activity that the history has.
unfoldable pub recall_activity : ℕ → String → ActivityState → Outcome Future
recall_activity idx activity_type st =
    if not (st.activity_type == "") && not (st.activity_type == activity_type)
    then raises (nondeterministic idx st.activity_type activity_type)
    else if st.completed
    then ok (resolved st.result)
    else if st.failed
    then ok (record {
      ready = true;
      value = [];
      error = some (activity_error_from activity_type st.failure);
    })
    else ok pending

abbrev pub schedule_command : Fmt → ℕ → String → String → Bytes → ActivityOptions → Command
schedule_command fmt idx task_queue activity_type payload opts =
    Command.schedule_activity_task (record {
      activity_id = or_else opts.activity_id (str_append "activity-" (fmt.decimal idx));
      activity_type = activity_type;
      task_queue = or_else opts.task_queue task_queue;
      input = payload;
      retry_policy = to_proto opts.retry_policy;
      start_to_close_timeout = duration_proto opts.start_to_close_timeout;
    })

-- The branch for a new activity.
unfoldable pub dispatch_activity :
    Fmt → ℕ → Environment → String → Option Bytes → ActivityOptions → Environment × Outcome Future
dispatch_activity fmt idx e activity_type none opts =
    (record e { replaying = false }, raises encode_failed)
dispatch_activity fmt idx e activity_type (some payload) opts = (
  record e {
    replaying = false;
    new_commands =
        e.new_commands ++ schedule_command fmt idx e.task_queue activity_type payload opts ∷ [];
    activities = e.activities ++ new_state activity_type ∷ [];
  },
  ok pending,
)

unfoldable pub activity_call :
    Fmt
    → Environment
    → String
    → Option Bytes
    → ActivityOptions
    → Option ActivityState
    → Environment × Outcome Future
activity_call fmt e activity_type input opts (some st) = (
  record e { activity_seq = suc e.activity_seq },
  recall_activity e.activity_seq activity_type st,
)
activity_call fmt e activity_type input opts none =
    dispatch_activity fmt e.activity_seq (record e { activity_seq = suc e.activity_seq })
      activity_type input opts

unfoldable pub execute_activity :
    Fmt → Environment → String → Option Bytes → ActivityOptions → Environment × Outcome Future
execute_activity fmt e activity_type input opts =
    activity_call fmt e activity_type input opts (get_elem? e.activities e.activity_seq)

abbrev pub timer_command : Fmt → ℕ → Duration → Command
timer_command fmt idx d = Command.start_timer (record {
  timer_id = str_append "timer-" (fmt.decimal idx);
  start_to_fire_timeout = duration_proto d;
})

unfoldable pub timer_call : Fmt → Environment → Duration → Option TimerState → Environment × Future
timer_call fmt e d (some st) =
    (record e { timer_seq = suc e.timer_seq }, if st.fired then resolved [] else pending)
timer_call fmt e d none = (
  record e {
    timer_seq = suc e.timer_seq;
    replaying = false;
    new_commands = e.new_commands ++ timer_command fmt e.timer_seq d ∷ [];
    timers = e.timers ++ record { fired = false } ∷ [];
  },
  pending,
)

unfoldable pub new_timer : Fmt → Environment → Duration → Environment × Future
new_timer fmt e d = timer_call fmt e d (get_elem? e.timers e.timer_seq)

unfoldable pub receive_from : String → List SignalRecord → List SignalRecord × Option Bytes
receive_from name [] = ([], none)
receive_from name (s ∷ ss) =
    let rest = receive_from name ss in
    if s.name == name && not s.consumed
    then (record s { consumed = true } ∷ ss, some s.input)
    else (s ∷ rest.0, rest.1)

unfoldable pub receive_signal : Environment → String → Environment × Option Bytes
receive_signal e name =
    let received = receive_from name e.signals in (record e { signals = received.0 }, received.1)

abbrev awaited : Option Bytes → Outcome Bytes
awaited (some input) = ok input
awaited none = raises blocked

unfoldable pub await_signal : Environment → String → Environment × Outcome Bytes
await_signal e name = let received = receive_signal e name in (received.0, awaited received.1)

abbrev result_of : Future → GetResult
result_of f = elim f.error [ some err ↦ got_error err | none ↦ got f.value ]

unfoldable pub get : Future → Outcome GetResult
get f = if f.ready then ok (result_of f) else raises blocked

-- How a workflow's function ends.
pub data Ending : Type 0 where
  returned : Bytes → Ending
  errored : String → Ending
  panicked : Panic → Ending

-- What follows a call: the rest of the function, or the unwinding.
unfoldable pub and_then {ℓ} :
    {A : Type ℓ} → Environment → Outcome A → (A → Environment × Ending) → Environment × Ending
and_then e (ok a) k = k a
and_then e (raises p) k = (e, panicked p)

-- The workflow's function on its context.
unfoldable pub run : Fmt → Environment → Workflow → Environment × Ending
run fmt e (Workflow.returns out) = (e, returned out)
run fmt e (Workflow.fails message) = (e, errored message)
run fmt e (Workflow.panics value) = (e, panicked (application value))
run fmt e (Workflow.executes_activity activity_type input opts k) =
    let called = execute_activity fmt e activity_type input opts in
    and_then called.0 called.1 λ f. run fmt called.0 (k f)
run fmt e (Workflow.starts_timer d k) =
    let called = new_timer fmt e d in run fmt called.0 (k called.1)
run fmt e (Workflow.gets f k) = and_then e (get f) λ r. run fmt e (k r)
run fmt e (Workflow.asks_ready f k) = run fmt e (k f.ready)
run fmt e (Workflow.reads_now k) = run fmt e (k e.now)
run fmt e (Workflow.receives_signal name k) =
    let called = receive_signal e name in run fmt called.0 (k called.1)
run fmt e (Workflow.awaits_signal name k) =
    let called = await_signal e name in
    and_then called.0 called.1 λ input. run fmt called.0 (k input)

-- `Sleep`: a timer, and the wait for it.
abbrev pub sleep : Duration → (GetResult → Workflow) → Workflow
sleep d k = Workflow.starts_timer d λ f. Workflow.gets f k

abbrev pub complete_workflow_command : Bytes → Command
complete_workflow_command result = Command.complete_workflow_execution result

abbrev pub fail_workflow_command : Failure → Command
fail_workflow_command f = Command.fail_workflow_execution (some f)

-- The deferred recovery of `Execute`, and its two returns.
unfoldable pub conclude : Fmt → List Command → Ending → DecisionResult
conclude fmt cs (panicked blocked) = record { commands = cs; completed = false }
conclude fmt cs (panicked p) = record {
  commands =
      cs
      ++ fail_workflow_command (record {
        message = str_append "workflow panic: " (fmt.panic_text p);
        type = "PanicError";
      })
        ∷ [];
  completed = true;
}
conclude fmt cs (errored message) = record {
  commands =
      cs ++ fail_workflow_command (record { message = message; type = "ApplicationError" }) ∷ [];
  completed = true;
}
conclude fmt cs (returned out) = record {
  commands = cs ++ complete_workflow_command out ∷ [];
  completed = true;
}

unfoldable pub decide : Fmt → Definition → Environment → DecisionResult
decide fmt def env =
    let ran = run fmt env (def env.input) in
    if env.terminated
    then record { commands = []; completed = true }
    else conclude fmt ran.0.new_commands ran.1

unfoldable pub execute : Fmt → Definition → String → List HistoryEvent → Time → DecisionResult
execute fmt def task_queue history clock = decide fmt def (new_environment task_queue history clock)
