-- ===== src/Store/Timers.antt =====
-- internal/storage/postgres/timers.go.
use chronos_engine.Prelude.{
  ℕ, ◌+◌, ℤ, pos, pos_part, ltb_ℤ, leb_ℤ, List, [], ◌∷◌, Bool, true, not, ◌&&◌, if◌then◌else◌,
  select, take, update_where,
}
use chronos_engine.Messages.{Time, EventType, Attributes}
use chronos_engine.Store.Tables.{TimerRow, Db}
use chronos_engine.Store.Monad.{Tx, ◌>>=◌, ◌>>◌, pure, gets, exec, order_by}
use chronos_engine.Store.Events.{event, append_events, schedule_workflow_task_for_run}
use chronos_engine.Store.Commands.{same_timer}

abbrev pub is_due : Time → TimerRow → Bool
is_due now t = not t.fired && leb_ℤ t.fire_at now

abbrev pub batch_size : ℤ → ℕ
batch_size batch = if leb_ℤ batch (pos 0) then 100 else pos_part batch

unfoldable pub due_timers : Time → ℤ → Db → List TimerRow
due_timers now batch db =
    take (batch_size batch)
      (order_by (λ a b. ltb_ℤ a.fire_at b.fire_at) (select (is_due now) db.timers))

unfoldable pub mark_fired : TimerRow → Db → Db
mark_fired d db = record db {
  timers =
      update_where (same_timer d.run d.started_event_id) (λ t. record t { fired = true }) db.timers;
}

unfoldable pub fire_timer : Time → TimerRow → Tx Unit
fire_timer now d = do
  append_events d.run now
      (event EventType.timer_fired (Attributes.timer_fired d.timer_id d.started_event_id) ∷ [])
  exec (mark_fired d)
  schedule_workflow_task_for_run d.run now

unfoldable pub fire_all : Time → ℕ → List TimerRow → Tx ℕ
fire_all now fired [] = pure fired
fire_all now fired (d ∷ dues) = do fire_timer now d; fire_all now (fired + 1) dues

unfoldable pub fire_due_timers : Time → ℤ → Tx ℕ
fire_due_timers now batch = do dues ← gets (due_timers now batch); fire_all now 0 dues
