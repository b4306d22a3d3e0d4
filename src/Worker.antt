-- ===== src/Worker.antt =====
-- sdk/worker/worker.go, with sdk/activity/activity.go: what a worker does with a task, on the service of
-- internal/server/server.go and its store. Activity code is the tree of the calls that it makes.
pub mod Redelivery
use Prim.Native.String.{◌++◌ as str_append}
use chronos_engine.Prelude.{
  ℕ, ℤ, pos, pos_part, leb_ℤ, String, Option, none, some, Bool, true, false, string_eq, nat_eq,
  ◌==◌, if◌then◌else◌,
}
use chronos_engine.Messages.{Bytes, Time, Duration, Failure, Command}
use chronos_engine.Core.{Float64}
use chronos_engine.Store.Tables.{Run, WorkflowTask, ActivityTask, Db}
use chronos_engine.Replay.Types.{Definition, Fmt}
use chronos_engine.Replay.Engine.{execute}
use chronos_engine.Server.{
  Metrics, Reply, replies, rejects, Served, respond_workflow_task_completed,
  respond_activity_task_completed, respond_activity_task_failed, record_activity_heartbeat,
}
use chronos_engine.Server.Polls.{Service}

-- `activity.Info`.
pub record Info : Type 0 where
  pub workflow_id : String
  pub run_id : String
  pub activity_id : String
  pub activity_type : String
  pub attempt : ℤ

-- Activity code: it returns, fails with the text of its error, panics, or reports at some time that it is
-- alive, and goes on with whether that went without an error.
pub data Activity : Type 0 where
  returns : Bytes → Activity
  fails : String → Activity
  panics : String → Activity
  heartbeats : Time → (Bool → Activity) → Activity

-- `activity.Definition`.
abbrev pub ActivityDefinition : Type 0
ActivityDefinition = Info → Bytes → Activity

pub record WorkerOptions : Type 0 where
  pub task_queue : String
  pub identity : String
  pub concurrency : ℤ

-- The maps of the registered code are functions.
pub record Worker : Type 0 where
  pub task_queue : String
  pub identity : String
  pub concurrency : ℕ
  pub workflows : String → Option Definition
  pub activities : String → Option ActivityDefinition

-- `own_name` is `fmt.Sprintf("worker-%d", time.Now().UnixNano())`.
unfoldable pub new_worker : String → WorkerOptions → Worker
new_worker own_name opts = record {
  task_queue = if opts.task_queue == "" then "default" else opts.task_queue;
  identity = if opts.identity == "" then own_name else opts.identity;
  concurrency = if leb_ℤ opts.concurrency (pos 0) then 8 else pos_part opts.concurrency;
  workflows = λ name. none;
  activities = λ name. none;
}

unfoldable pub register_workflow : String → Definition → Worker → Worker
register_workflow name def w = record w {
  workflows = λ n. if n == name then some def else w.workflows n;
}

unfoldable pub register_activity : String → ActivityDefinition → Worker → Worker
register_activity name def w = record w {
  activities = λ n. if n == name then some def else w.activities n;
}

-- The counters and the database after what a worker has done; it drops the replies.
pub record World : Type 0 where
  pub metrics : Metrics
  pub db : Db

abbrev pub after_call : {A : Type 0} → Served A → World
after_call served = record { metrics = served.metrics; db = served.db }

-- The `err` of a reply is nil.
abbrev pub went_well : {A : Type 0} → Reply A → Bool
went_well (replies a) = true
went_well (rejects c) = false

-- What the code comes to: its result, or the text of its error.
pub data Outcome : Type 0 where
  result : Bytes → Outcome
  failure : String → Outcome

-- `runActivity`, with the context's heartbeat: a panic becomes an error.
unfoldable pub run_activity : Duration → ℕ → Activity → World → Outcome × World
run_activity lease token (returns b) world = (result b, world)
run_activity lease token (fails message) world = (failure message, world)
run_activity lease token (panics value) world =
    (failure (str_append "activity panic: " value), world)
run_activity lease token (heartbeats now k) world =
    let served = record_activity_heartbeat lease token now world.metrics world.db in
    run_activity lease token (k (went_well served.reply)) (after_call served)

abbrev pub info_of : ActivityTask → Info
info_of task = record {
  workflow_id = task.run.workflow_id;
  run_id = task.run.run_id;
  activity_id = task.activity_id;
  activity_type = task.activity_type;
  attempt = task.attempt;
}

abbrev pub not_registered : ActivityTask → Failure
not_registered task = record {
  message = str_append "no activity registered: " task.activity_type;
  type = "NotRegistered";
}

-- The answer to what the code has come to.
unfoldable pub answer_activity : Float64 → String → ℕ → Time → Outcome × World → World
answer_activity fl identity token now (result b, world) =
    after_call (respond_activity_task_completed token identity b now world.metrics world.db)
answer_activity fl identity token now (failure message, world) = after_call (
    respond_activity_task_failed fl token identity
      (some (record { message = message; type = "ActivityError" })) true now world.metrics world.db)

-- `now` is when the answer arrives, `lease` the service's.
unfoldable pub handle_activity :
    Float64 → Duration → String → Option ActivityDefinition → ActivityTask → Time → World → World
handle_activity fl lease identity none task now world = after_call (
    respond_activity_task_failed fl task.task_token identity (some (not_registered task)) false now
      world.metrics world.db)
handle_activity fl lease identity (some def) task now world =
    answer_activity fl identity task.task_token now
      (run_activity lease task.task_token (def (info_of task) task.input) world)

unfoldable pub handle_activity_task :
    Float64 → Duration → Worker → ActivityTask → Time → World → World
handle_activity_task fl lease w task now world =
    handle_activity fl lease w.identity (w.activities task.activity_type) task now world

-- `clock` is the reading of the clock that `Execute` makes, `now` when the answer arrives.
unfoldable pub handle_workflow :
    Float64 → Fmt → Worker → Option Definition → WorkflowTask → Time → Time → World → World
handle_workflow fl fmt w none task clock now world = world
handle_workflow fl fmt w (some def) task clock now world = after_call (
    respond_workflow_task_completed fl task.task_token w.identity
      (execute fmt def w.task_queue task.history clock).commands now world.metrics world.db)

unfoldable pub handle_workflow_task :
    Float64 → Fmt → Worker → WorkflowTask → Time → Time → World → World
handle_workflow_task fl fmt w task clock now world =
    handle_workflow fl fmt w (w.workflows task.workflow_type) task clock now world

-- One round of a poller: an error backs off, an empty poll is dropped, a task is handled.
unfoldable pub workflow_round :
    Float64 → Fmt → Worker → Reply WorkflowTask → Time → Time → World → World
workflow_round fl fmt w (rejects c) clock now world = world
workflow_round fl fmt w (replies task) clock now world =
    if task.task_token == 0 then world else handle_workflow_task fl fmt w task clock now world

unfoldable pub activity_round :
    Float64 → Duration → Worker → Reply ActivityTask → Time → World → World
activity_round fl lease w (rejects c) now world = world
activity_round fl lease w (replies task) now world =
    if task.task_token == 0 then world else handle_activity_task fl lease w task now world
