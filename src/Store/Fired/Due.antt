-- ===== src/Store/Fired/Due.antt =====
-- The timers that are due fire, in internal/storage/postgres/timers.go.
use chronos_engine.Prelude.{
  ℕ, zero, suc, ℤ, ◌+◌, ◌≤◌, none, some, List, [], ◌∷◌, nat_eq, ◌==◌, ==_refl, if◌then◌else◌, All,
  length, select, first, count, ◌≡◌, refl, ap, ◌∙◌, arith, Bool-cases, Option-cases, inl, inr,
}
use chronos_engine.Messages.{Time, EventType, Attributes, HistoryEvent}
use chronos_engine.Core.{Float64}
use chronos_engine.Store.Tables.{Run, run_eq, Execution, TimerRow, Db, empty_db}
use chronos_engine.Store.Monad.{ok, ◌>>◌, exec}
use chronos_engine.Store.Keeps.{Keeps, Keeps-exec, Keeps-bind, keeps_rules}
use chronos_engine.Store.Events.{
  event, find_execution, update_execution, append_events, schedule_workflow_task,
  schedule_workflow_task_for_run,
}
use chronos_engine.Store.Timers.{
  is_due, batch_size, due_timers, mark_fired, fire_timer, fire_all, fire_due_timers,
}
use chronos_engine.Store.Calls.{Call, run_calls}
use chronos_engine.Store.CallRules.{run_calls-Keeps}
use chronos_engine.Store.Statements.{call_rules}
use chronos_engine.Store.TableRules.{statements, fire_timer-Keeps}
use chronos_engine.Store.History.{find-update, append_events-inv, new_rows, add_rows}
use chronos_engine.Store.History.GapFree.{IsGapFree, next_of}
use chronos_engine.Store.History.Calls.{IsGapFree-rules}
use chronos_engine.Store.History.Numbered.{empty-IsGapFree}
use chronos_engine.Store.Queries.{All-take, All-order_by}
use chronos_engine.Store.Progress.Commits.{bind_commits, append_commits, wake_commits}
use chronos_engine.Store.Fired.{unfired, pending, IsTimed}
use chronos_engine.Store.Fired.Timers.{IsTimed-rules, empty-IsTimed}

-- The run has a row.
HasRow : Run → Db → Type 0
HasRow r db = (row : Execution) × (find_execution r db ≡ some row)

frame-HasRow : (r : Run) (db db' : Db) → db'.executions ≡ db.executions → HasRow r db → HasRow r db'
unfolding HasRow find_execution
frame-HasRow r db db' h v = (v.0, ap (first (λ e. e.run == r)) h ∙ v.1)

update-HasRow :
    (r s : Run) (f : Execution → Execution) (db : Db)
    → ((e : Execution) → (f e).run ≡ e.run)
    → HasRow r db
    → HasRow r (update_execution s f db)
unfolding HasRow
update-HasRow r s f db run v = (
  if r == s then f v.0 else v.0,
  find-update s r f db run
      ∙ ap (λ o. elim o [ none ↦ none | some e ↦ some (if r == s then f e else e) ]) v.1,
)

append-HasRow :
    (r s : Run) (now : Time) (e : HistoryEvent) → Keeps (HasRow r) (append_events s now (e ∷ []))
append-HasRow r s now e = record {
  at = λ db v n db' h.
      let (row, _, _, grown) = append_events-inv s now e [] db h in
      let rows = add_rows (new_rows s now row.next_event_id (e ∷ [])) db in
      frame-HasRow r _ db' (ap (λ x. x.executions) grown)
        (update-HasRow r s _ rows (λ x. refl) (frame-HasRow r db rows refl v));
}

mark-HasRow : (r : Run) (d : TimerRow) → Keeps (HasRow r) (exec (mark_fired d))
unfolding mark_fired
mark-HasRow r d = Keeps-exec _ λ db v. frame-HasRow r db _ refl v

schedule-HasRow :
    (r s : Run) (queue : _) (now : Time) → Keeps (HasRow r) (schedule_workflow_task s queue now)
unfolding schedule_workflow_task
schedule-HasRow r s queue now = Keeps-exec _ λ db v. frame-HasRow r db _ (ground arith) v

wake-HasRow : (r s : Run) (now : Time) → Keeps (HasRow r) (schedule_workflow_task_for_run s now)
unfolding schedule_workflow_task_for_run
wake-HasRow r s now = search (keeps_rules, schedule-HasRow)

fire_timer-HasRow : (r : Run) (now : Time) (d : TimerRow) → Keeps (HasRow r) (fire_timer now d)
unfolding fire_timer
fire_timer-HasRow r now d =
    Keeps-bind _ _ (append-HasRow r d.run now _)
      λ _. Keeps-bind _ _ (mark-HasRow r d) λ _. wake-HasRow r d.run now

fire_timer_commits :
    (now : Time) (d : TimerRow) (db : Db)
    → IsGapFree db
    → HasRow d.run db
    → (db' : Db) × (fire_timer now d db ≡ ok (tt, db'))
unfolding fire_timer HasRow
fire_timer_commits now d db v has =
    let e = event EventType.timer_fired (Attributes.timer_fired d.timer_id d.started_event_id) in
    let k : ℕ = has.0.next_event_id in
    let mid =
      update_execution d.run (λ x. record x { next_event_id = k + 1 })
        (add_rows (new_rows d.run now k (e ∷ [])) db) in
    let appended = append_commits d.run now e db has.0 v has.1 in
    let there = (append-HasRow d.run d.run now e).at db has k mid appended in
    let marked = (mark-HasRow d.run d).at mid there tt (mark_fired d mid) refl in
    let (db', woken) = wake_commits d.run now (mark_fired d mid) marked.0 marked.1 in
    (
      db',
      bind_commits (append_events d.run now (e ∷ []))
            (λ _. do exec (mark_fired d); schedule_workflow_task_for_run d.run now) db k mid
            appended
          ∙ woken,
    )

rows_after :
    (now : Time) (d : TimerRow) (db db' : Db)
    → fire_timer now d db ≡ ok (tt, db')
    → (dues : List TimerRow) → All (λ x. HasRow x.run db) dues
    → All (λ x. HasRow x.run db') dues
rows_after now d db db' h [] has = tt
rows_after now d db db' h (x ∷ dues) (here, has) =
    ((fire_timer-HasRow x.run now d).at db here tt db' h, rows_after now d db db' h dues has)

fire_all_commits :
    (now : Time) (n : ℕ) (dues : List TimerRow) (db : Db)
    → IsGapFree db
    → All (λ d. HasRow d.run db) dues
    → (db' : Db) × (fire_all now n dues db ≡ ok (n + length dues, db'))
unfolding fire_all
fire_all_commits now n [] db v has = (db, ap (λ k. ok (k, db)) none_more)
  where
    none_more : n ≡ n + 0
    none_more = omega arith
fire_all_commits now n (d ∷ dues) db v (here, has) =
    let (mid, done) = fire_timer_commits now d db v here in
    let (db', rest) =
      fire_all_commits now (n + 1) dues mid
        ((fire_timer-Keeps IsGapFree-rules now d).at db v tt mid done)
        (rows_after now d db mid done dues has) in
    (
      db',
      bind_commits (fire_timer now d) (λ _. fire_all now (n + 1) dues) db tt mid done
          ∙ rest
          ∙ ap (λ k. ok (k, db')) one_more,
    )
  where
    one_more : n + 1 + length dues ≡ n + suc (length dues)
    one_more = omega arith

-- A timer that is not fired has a run.
has_row : (db : Db) (r : Run) (s : ℕ) → IsTimed db → 1 ≤ pending r s db → HasRow r db
unfolding HasRow
has_row db r s v h = elim (Option-cases (find_execution r db)) [
  | inr found ↦ found
  | inl missing ↦ absurd (no_row s refl missing)
]
  where
    no_row : (k : ℕ) → k ≡ s → find_execution r db ≡ none → ⊥
    no_row zero e missing = omega (arith, h, ap (λ i. pending r i db) e, v.no_zero r)
    no_row (suc k) e missing = omega (
      arith,
      h,
      ap (λ i. pending r i db) e,
      v.fresh r (suc k) (omega (arith, ap next_of missing)),
    )

due_rows :
    (now : Time) (db : Db) (ts : List TimerRow)
    → IsTimed db
    → ((r : Run) (s : ℕ) → count (unfired r s) ts ≤ pending r s db)
    → All (λ d. HasRow d.run db) (select (is_due now) ts)
unfolding select count
due_rows now db [] v h = tt
due_rows now db (t ∷ ts) v h =
    let rest = due_rows now db ts v (λ r s. omega (arith, h r s)) in
    elim (Bool-cases (is_due now t)) [
      | inl e ↦ rw e (
        has_row db t.run t.started_event_id v (
            ground
              (arith, e, h t.run t.started_event_id, ==_refl t.run, ==_refl t.started_event_id)),
        rest,
      )
      | inr e ↦ rw e rest
    ]

-- Due timers fire. On any database that calls of the store lead to, `FireDueTimers` commits, at any time and with
-- any batch size, and returns the number of the timers that its query selects, all of which it has gone through.
pub due_timers_fire :
    (fl : Float64) (cs : List (Time × Call)) (now : Time) (batch : ℤ)
    → let db = run_calls fl empty_db cs in
      (db' : Db) × (fire_due_timers now batch db ≡ ok (length (due_timers now batch db), db'))
unfolding fire_due_timers due_timers
due_timers_fire fl cs now batch =
    let db = run_calls fl empty_db cs in
    let gap_free =
      run_calls-Keeps (call_rules (statements IsGapFree-rules) fl) empty_db cs empty-IsGapFree in
    let timed = run_calls-Keeps (call_rules IsTimed-rules fl) empty_db cs empty-IsTimed in
    let (db', done) = fire_all_commits now 0 (due_timers now batch db) db gap_free (
      All-take (λ d. HasRow d.run db) (batch_size batch) _
        (All-order_by (λ d. HasRow d.run db) _ (select (is_due now) db.timers)
          (due_rows now db db.timers timed (λ r s. omega arith)))) in
    (db', done ∙ ap (λ k. ok (k, db')) (omega arith))
