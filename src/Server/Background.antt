-- ===== src/Server/Background.antt =====
-- What cmd/chronos-server/main.go does besides the requests: the service that fires timers, and the gauges of
-- executions by status. A tick of the clock is one step.
use chronos_engine.Prelude.{ℕ, ◌+◌, ltb, pos, String, List, [], ◌∷◌, string_eq, ◌==◌, if◌then◌else◌}
use chronos_engine.Messages.{Time, WorkflowStatus}
use chronos_engine.Store.Tables.{Db}
use chronos_engine.Store.Monad.{Result, ok, err}
use chronos_engine.Store.Workflows.{count_by_status, entries}
use chronos_engine.Store.Timers.{fire_due_timers}
use chronos_engine.Server.{Metrics}

abbrev pub count_fired : ℕ → Metrics → Metrics
count_fired fired m = if ltb 0 fired then record m { timers_fired = m.timers_fired + fired } else m

abbrev pub after_tick : Result (ℕ × Db) → Metrics → Db → Metrics × Db
after_tick (ok (fired, db')) m db = (count_fired fired m, db')
after_tick (err e) m db = (m, db)

-- `now` is `time.Now()` at the tick.
unfoldable pub timer_tick : Time → Metrics → Db → Metrics × Db
timer_tick now m db = after_tick (fire_due_timers now (pos 500) db) m db

unfoldable pub status_label : WorkflowStatus → String
status_label WorkflowStatus.running = "running"
status_label WorkflowStatus.completed = "completed"
status_label WorkflowStatus.failed = "failed"
status_label WorkflowStatus.timed_out = "timed_out"
status_label WorkflowStatus.terminated = "terminated"
status_label WorkflowStatus.unspecified = "unspecified"

-- The values of `ExecutionsByStatus`, by label.
abbrev pub Gauges : Type 0
Gauges = String → ℕ

abbrev set_gauge : String → ℕ → Gauges → Gauges
set_gauge label n g l = if l == label then n else g l

-- The loop over the entries of the map.
unfoldable pub set_gauges : List (WorkflowStatus × ℕ) → Gauges → Gauges
set_gauges [] g = g
set_gauges ((w, n) ∷ counts) g = set_gauges counts (set_gauge (status_label w) n g)

-- The keys of the map come in the order `keys`.
unfoldable pub update_stats : List WorkflowStatus → Db → Gauges → Gauges
update_stats keys db g = set_gauges (entries (count_by_status db) keys) g
