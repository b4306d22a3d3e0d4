-- ===== src/Server/Gauges.antt =====
-- What a tick of cmd/chronos-server/main.go leaves.
use chronos_engine.Prelude.{
  ℕ, ◌+◌, ltb, pos, List, [], ◌∷◌, length, exists, true, false, string_eq, ◌==◌, if◌then◌else◌, ◌≡◌,
  refl, sym, ap, ◌∙◌, arith, Bool-cases, Option-cases, Option, none, some, inl, inr, count, select,
  not, ◌&&◌, leb_ℤ, ltb_ℤ,
}
use chronos_engine.Messages.{Time, WorkflowStatus}
use chronos_engine.Core.{Float64}
use chronos_engine.Store.Tables.{TimerRow, Execution, Db, empty_db}
use chronos_engine.Store.Monad.{order_by}
use chronos_engine.Store.Workflows.{is_status, count_by_status, entries}
use Prim.Native.Nat.{min}
use chronos_engine.Store.Queries.{
  IsCounted, exists-count, is_status_path, length-take, length-order_by, length-select,
}
use chronos_engine.Store.Timers.{due_timers}
use chronos_engine.Store.Calls.{Call, run_calls}
use chronos_engine.Store.Fired.Due.{due_timers_fire}
use chronos_engine.Server.{Metrics}
use chronos_engine.Server.Background.{
  count_fired, after_tick, timer_tick, status_label, Gauges, set_gauges, update_stats,
}

counted : (n : ℕ) (m : Metrics) → (count_fired n m).timers_fired ≡ m.timers_fired + n
counted n m = elim (Bool-cases (ltb 0 n)) [
  | inl e ↦ rw e refl
  | inr e ↦ rw e (omega (arith, none e))
]
  where
    none : ltb 0 n ≡ false → n ≡ 0
    none e = ground (arith, e)

number_due :
    (now : Time) (db : Db)
    → length (due_timers now (pos 500) db)
      ≡ min 500 (count (λ t. not t.fired && leb_ℤ t.fire_at now) db.timers)
unfolding due_timers
number_due now db =
    let dues = select (λ (t : TimerRow). not t.fired && leb_ℤ t.fire_at now) db.timers in
    length-take 500 (order_by (λ a b. ltb_ℤ a.fire_at b.fire_at) dues)
    ∙ ap (min 500) (
        length-order_by (λ (a b : TimerRow). ltb_ℤ a.fire_at b.fire_at) dues
        ∙ length-select (λ (t : TimerRow). not t.fired && leb_ℤ t.fire_at now) db.timers)

-- The counter of fired timers is right. On any database that calls of the store lead to, a tick of the timer
-- service raises the counter by the number of the timers that have not fired and whose time is not after the tick's,
-- or by 500 where there are more.
pub tick_counts :
    (fl : Float64) (cs : List (Time × Call)) (now : Time) (m : Metrics)
    → let db = run_calls fl empty_db cs in
      (timer_tick now m db).0.timers_fired
      ≡ m.timers_fired + min 500 (count (λ t. not t.fired && leb_ℤ t.fire_at now) db.timers)
unfolding timer_tick
tick_counts fl cs now m =
    let db = run_calls fl empty_db cs in
    let (db', done) = due_timers_fire fl cs now (pos 500) in
    ap (λ r. (after_tick r m db).0.timers_fired) done
    ∙ counted (length (due_timers now (pos 500) db)) m
    ∙ ap (λ (n : ℕ). m.timers_fired + n) (number_due now db)

-- Labels tell the statuses apart.
same_label : (s w : WorkflowStatus) → (status_label s == status_label w) ≡ is_status s w
unfolding status_label
same_label WorkflowStatus.unspecified WorkflowStatus.unspecified = refl
same_label WorkflowStatus.unspecified w = refl
same_label WorkflowStatus.running WorkflowStatus.running = refl
same_label WorkflowStatus.running w = refl
same_label WorkflowStatus.completed WorkflowStatus.completed = refl
same_label WorkflowStatus.completed w = refl
same_label WorkflowStatus.failed WorkflowStatus.failed = refl
same_label WorkflowStatus.failed w = refl
same_label WorkflowStatus.timed_out WorkflowStatus.timed_out = refl
same_label WorkflowStatus.timed_out w = refl
same_label WorkflowStatus.terminated WorkflowStatus.terminated = refl
same_label WorkflowStatus.terminated w = refl

abbrev value_or : ℕ → Option ℕ → ℕ
value_or d none = d
value_or d (some n) = n

module _ (counts : WorkflowStatus → Option ℕ) (s : WorkflowStatus) where
  same_count : (w : WorkflowStatus) → is_status s w ≡ true → counts w ≡ counts s
  same_count w h = ap counts (sym (is_status_path s w h))

  set_gauges-entries :
      (keys : List WorkflowStatus) (g : Gauges)
      → set_gauges (entries counts keys) g (status_label s) ≡ (
          if exists (is_status s) keys
          then value_or (g (status_label s)) (counts s)
          else g (status_label s))
  unfolding set_gauges entries exists
  set_gauges-entries [] g = refl
  set_gauges-entries (w ∷ keys) g = elim (Option-cases (counts w)) [
    | inl e ↦ rw e (set_gauges-entries keys g ∙ ground (arith, e, same_count w))
    | inr (n, e) ↦ rw e (
        set_gauges-entries keys (λ l. if l == status_label w then n else g l)
        ∙ ground (arith, e, same_label s w, same_count w))
  ]

-- Gauges of executions by status. After an update that walks the map of counts in any order, meeting each of its
-- keys once, the gauge of a status that some execution has shows how many have it, and the gauge of any other status
-- shows what it showed before.
pub gauges_updated :
    (keys : List WorkflowStatus) (db : Db) (g : Gauges) (s : WorkflowStatus)
    → IsCounted keys db.executions
    → update_stats keys db g (status_label s) ≡ (
        if exists (λ e. is_status e.status s) db.executions
        then count (λ e. is_status e.status s) db.executions
        else g (status_label s))
unfolding update_stats count_by_status
gauges_updated keys db g s h =
    set_gauges-entries (count_by_status db) s keys g
    ∙ elim (Bool-cases (exists (λ e. is_status e.status s) db.executions)) [
      | inl e ↦ ground (arith, e, counted_key e)
      | inr e ↦ ground (arith, e)
    ]
  where
    counted_key :
        exists (λ e. is_status e.status s) db.executions ≡ true → exists (is_status s) keys ≡ true
    counted_key e = ground (
      arith,
      e,
      h s (ground (arith, e, exists-count (λ (x : Execution). is_status x.status s) db.executions)),
      exists-count (is_status s) keys,
    )
