-- ===== src/Lib.antt =====
-- Chronos, a durable workflow engine: an executable model of its store, retry policy, replay engine,
-- service, HTTP API, worker, client and order workflow, and the theorems that hold of them.
--
-- The program's parts. Clients start and signal workflows; workers poll two durable queues, decide what a
-- workflow does next by replaying its history (sdk/workflow), run activities, and answer. The store
-- (internal/storage/postgres) keeps executions, histories, both queues and timers in Postgres, and every call
-- of it is one transaction. The retry policy (internal/core) decides when a failed activity runs again.
--
-- Which file models which part:
--   Prelude          names of the libraries, Boolean tests, the conditional, signed numbers (Int), lists and
--                    the queries and statements on rows (Lists), what they do to counts (Counting)
--   Messages         api/gen/chronos/v1/chronos.pb.go: events, commands, retry policies
--   Core             internal/core/core.go: DefaultActivityRetryPolicy, NextRetryDelay
--   Store.Tables     the tables of internal/storage/migrations/0001_init.sql as lists of rows; core.go's tasks
--   Store.Monad      a transaction: a function from the database to an error, or a value and a database
--   Store.Events     internal/storage/postgres/helpers.go: appendEvents, scheduleWorkflowTask, loadHistory
--   Store.Workflows  internal/storage/postgres/workflow.go: StartWorkflow, SignalWorkflow, the reads
--   Store.Commands   internal/storage/postgres/tasks.go: PollWorkflowTask, CompleteWorkflowTask
--   Store.Activities internal/storage/postgres/tasks.go: PollActivityTask, CompleteActivityTask,
--                    FailActivityTask, ExtendActivityLease
--   Store.Timers     internal/storage/postgres/timers.go: FireDueTimers
--   Store.Calls      internal/storage/store.go: the calls of the interface, one after the other
--   Store.Keeps, Store.CallRules, Store.Statements, Store.TableRules
--                    invariants of calls from invariants of statements, and of tables
--   Store.History, Store.Once, Store.Leases, Store.Answers, Store.Running, Store.Wakeups,
--   Store.Retries, Store.Starts, Store.Progress, Store.Fired, Store.Durable, Store.Closed, Store.Decided
--                    event ids, outcomes of activities, leases, late answers, running executions, signals
--                    during a decision, failures, first and repeated starts, calls that commit, timers, histories, ended executions,
--                    the events that a decision's commands leave
--   Store.Queries    what selecting, sorting and cutting keep of rows; Store.Reorder: the order of the rows
--   Store.Migrations internal/storage/postgres/postgres.go: Migrate; Store.Migrations.Reruns: a second one
--   Replay.Types     sdk/workflow/workflow.go, and the types of sdk/workflow/environment.go
--   Replay.Index     newEnvironment of sdk/workflow/environment.go
--   Replay.Engine    the context's calls and Execute of sdk/workflow/environment.go
--   Replay.Commands, Replay.Fresh, Replay.Rerun, Replay.Decisions, Replay.Resume, Replay.Recorded,
--   Replay.Clock, Replay.Opened
--                    what a run adds to its context, what indexing leaves, a second run, decisions,
--                    decisions on a history that has the events of the last one, code that does not read
--                    its clock
--   Resumption       the replay engine on top of the store: a decision, its commit, and the next replay
--   Server           internal/server/server.go: the handlers that start, signal, read and answer, with their
--                    counters; Server.Late: answers that come too late; Server.Accepts: starts
--                    that reach the store
--   Server.Polls     its options and long polls; Server.Waits: how long these wait
--   Server.Paging    internal/server/paging.go and ListWorkflows; Server.Paging.Pages: a listing page by page
--   Server.Background
--                    cmd/chronos-server/main.go: a tick of the timer service, the gauges of executions by
--                    status; Server.Gauges: what these show
--   Worker           sdk/worker/worker.go and sdk/activity/activity.go: registration, and what a worker does
--                    with a task; Worker.Redelivery: a task that two workers have
--   Client           sdk/client/client.go and Encode of sdk/converter/converter.go; Client.Started: a start
--                    and a description
--   Orders           workflows/order.go: the order workflow; Orders.Shipping: when it ships
--   Orders.Activities, Orders.Ledger
--                    its activities and workflows/ledger.go; what the ledger keeps
--   HttpApi          internal/httpapi/dto.go: names of statuses and events; HttpApi.Names: their round trip
--   HttpApi.Events   internal/httpapi/dto.go: executions, events and payloads as the API shows them
--   HttpApi.Handlers internal/httpapi/httpapi.go: the handlers; HttpApi.Answers, HttpApi.Missing,
--                    HttpApi.Lists: what they answer
--   Tests            concrete inputs
--
-- How the model reads the code:
--   * A call of the store is one transaction: it commits, or leaves the database as it was. Calls come one
--     after the other, in any order and number; row locks and SKIP LOCKED are not modelled.
--   * SQL's now() and Go's time.Now() in a call are one instant, an argument of the call; the id that
--     uuid.NewString makes is an argument too. Instants and durations are nanoseconds in the integers.
--   * Event ids and the sequences of the tables are natural numbers without an upper bound (BIGINT in the
--     database). An activity's attempt is an int32 and wraps.
--   * A BYTEA column that holds a message is that message. A retry policy whose fields are all zero has an
--     empty encoding, and the model keeps what follows from it.
--   * ORDER BY visible_at and fire_at leave ties open; the model takes the row that the table has first. For
--     ORDER BY start_time, the order in which each query meets the rows is the parameter Scan.
--   * Run ids in the database are in the form in which Postgres writes a UUID. What `::uuid` makes of the text
--     that a request has is the parameter Cast; a text that is no UUID is the error invalid_text. Where the store
--     casts an id that it has written itself, the cast is left out.
--   * Errors of the connection roll back and are not modelled. float64 is the parameter Float64 of the
--     definitions that use it, on bit patterns. Go's fmt is the parameter Fmt.
--   * Workflow code is a tree of the context calls that it makes, each with a continuation; it is
--     deterministic by construction, and ends by returning, failing, panicking or blocking. A Future is its
--     three fields; what Get decodes from the bytes is the code's own step.
--   * All definitions are total by structural recursion. The loop of NextRetryDelay runs on the number of its
--     rounds, attempt - 1. A long poll runs on fuel, one round of the loop each; what the clock says, when the
--     context ends and which calls of others the store serves between two rounds are its parameter Round.
--   * Page tokens are made by the parameter TokenText (base64 and strconv). A Go string that is made of bytes
--     is those bytes. The previews' base 64 is a parameter too.
--   * An HTTP request is what the router and the decoders make of it; a response is its code and its body.
--     A map of counts is a function into Option; it is walked in any order, the parameter keys.
--   * The conversion of the order workflow's values is the parameters Converter and Json. The ledger is the
--     list of its rows; a nil ledger is none.
--   * Activity code is a tree: it returns, fails, panics, or reports a heartbeat and goes on.
--   * Migrations: the embedded files and what their SQL does to the schema are the parameters read_file and
--     exec_body; schema_migrations is the list of its versions.
--
-- Not modelled: HTTP routing, middleware and JSON, the client's connection, the goroutines, pauses and logs of
-- a worker, the commands under cmd/ but for the timer service and the gauges of chronos-server, the
-- registration of metrics, configuration, the connection pool, the generated marshalling code, the web front
-- end and deployment files.
pub mod Prelude
pub mod Messages
pub mod Core
pub mod Store
pub mod Replay
pub mod Resumption
pub mod Server
pub mod Worker
pub mod Client
pub mod Orders
pub mod HttpApi
pub mod Tests
