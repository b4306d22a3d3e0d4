-- ===== src/Store/Fired/Loop.antt =====
-- The loop of `FireDueTimers`, in internal/storage/postgres/timers.go.
use mathlib.Core.Path.{subst}
use chronos_engine.Prelude.{
  String, ℕ, zero, suc, ◌+◌, ◌≤◌, ℤ, ◌≡◌, refl, ap, ◌∙◌, Bool, true, false, ◌&&◌, List, [], ◌∷◌,
  arith, nat_eq, ◌==◌, ==_iff, count, update_where, select, take, inl, inr, Bool-cases, ltb_ℤ,
}
use chronos_engine.Prelude.Counting.{one_if}
use chronos_engine.Messages.{Time, EventType, Attributes}
use chronos_engine.Store.Tables.{Run, run_eq, same_run, TimerRow, Db}
use chronos_engine.Store.Monad.{ok, ◌>>◌, exec, insert_by, order_by}
use chronos_engine.Store.Keeps.{Keeps, Keeps-exec, keeps_rules, bind-inv, ok-injective}
use chronos_engine.Store.Events.{
  event, append_events, schedule_workflow_task, schedule_workflow_task_for_run,
}
use chronos_engine.Store.Commands.{same_timer}
use chronos_engine.Store.Timers.{
  is_due, batch_size, due_timers, mark_fired, fire_timer, fire_all, fire_due_timers,
}
use chronos_engine.Store.Statements.{fires_timer}
use chronos_engine.Store.History.GapFree.{next_id}
use chronos_engine.Store.History.Calls.{next_id-frame}
use chronos_engine.Store.Once.{Appended, append-Appended, closings-append, next_id-grows}
use chronos_engine.Store.Fired.{unfired, pending, fires, IsTimed, no_later, frame-IsTimed}

-- The timers that the loop has yet to fire are rows that may fire.
record IsDue (dues : List TimerRow) (db : Db) : Type 0 where
  timed : IsTimed db
  covered : (q : Run) (s : ℕ) → count (same_timer q s) dues ≤ pending q s db

-- The key of a row is one.
one_key :
    (r q : Run) (n s : ℕ) (t : TimerRow)
    → same_timer r n t ≡ true
    → same_timer q s t ≡ (r == q && n == s)
one_key r q n s t h =
    let own : (t.run ≡ r) × (t.started_event_id ≡ n) =
      ((==_iff t.run r).0 (ground arith), (==_iff t.started_event_id n).0 (ground arith)) in
    ap (λ k. k == q && t.started_event_id == s) own.0 ∙ ap (λ k. r == q && k == s) own.1

mark_fired-own :
    (r : Run) (n : ℕ) (ts : List TimerRow)
    → count (unfired r n) (update_where (same_timer r n) (λ t. record t { fired = true }) ts) ≡ 0
unfolding count update_where
mark_fired-own r n [] = refl
mark_fired-own r n (t ∷ ts) = ground (arith, mark_fired-own r n ts)

mark_fired-other :
    (r q : Run) (n s : ℕ) (ts : List TimerRow)
    → (r == q && n == s) ≡ false
    → count (unfired q s) (update_where (same_timer r n) (λ t. record t { fired = true }) ts)
      ≡ count (unfired q s) ts
unfolding count update_where
mark_fired-other r q n s [] h = refl
mark_fired-other r q n s (t ∷ ts) h = elim (Bool-cases (same_timer r n t)) [
  | inl e ↦ ground (arith, one_key r q n s t e, h, e, mark_fired-other r q n s ts h)
  | inr e ↦ ground (arith, e, mark_fired-other r q n s ts h)
]

schedule-IsDue :
    (dues : List TimerRow) (r : Run) (queue : String) (now : Time)
    → Keeps (IsDue dues) (schedule_workflow_task r queue now)
unfolding schedule_workflow_task
schedule-IsDue dues r queue now = Keeps-exec _ λ db v. record {
  timed = frame-IsTimed db _ (ground arith) (ground arith) (ground arith) v.timed;
  covered = λ q s. ground (arith, v.covered q s);
}

wake-IsDue :
    (dues : List TimerRow) (r : Run) (now : Time)
    → Keeps (IsDue dues) (schedule_workflow_task_for_run r now)
unfolding schedule_workflow_task_for_run
wake-IsDue dues r now = search (keeps_rules, schedule-IsDue)

-- One round, up to the wake-up of the run: the event and the mark.
module _ (now : Time) (d : TimerRow) (dues : List TimerRow) (a : Attributes) (db mid : Db) (n : ℕ)
    (fires_it : (s : ℕ) → fires_timer s a ≡ (d.started_event_id == s)) (v : IsDue (d ∷ dues) db)
    (done : Appended d.run now (event EventType.timer_fired a) db n mid) where
  pending-marked :
      (q : Run) (s : ℕ)
      → (d.run == q && d.started_event_id == s) ≡ false
      → pending q s (mark_fired d mid) ≡ pending q s db
  unfolding mark_fired
  pending-marked q s h =
      mark_fired-other d.run q d.started_event_id s mid.timers h
      ∙ ap (count (unfired q s)) done.timers

  pending-own :
      (q : Run) (s : ℕ)
      → (d.run == q && d.started_event_id == s) ≡ true
      → pending q s (mark_fired d mid) ≡ 0
  unfolding mark_fired
  pending-own q s h = rw (← (==_iff d.run q).0 (ground arith)) (
      rw (← (==_iff d.started_event_id s).0 (ground arith))
        (mark_fired-own d.run d.started_event_id mid.timers))

  fires-marked :
      (q : Run) (s : ℕ)
      → fires q s (mark_fired d mid) ≡ fires q s db + one_if (d.run == q && d.started_event_id == s)
  unfolding mark_fired
  fires-marked q s = ground (
    arith,
    closings-append fires_timer d.run q s now EventType.timer_fired a db n mid done,
    fires_it s,
  )

  covered_first :
      (q : Run) (s : ℕ)
      → one_if (d.run == q && d.started_event_id == s) + count (same_timer q s) dues
        ≤ pending q s db
  unfolding same_run count
  covered_first q s = v.covered q s

  next_marked : (q : Run) → next_id q (mark_fired d mid) ≡ next_id q mid
  unfolding mark_fired
  next_marked q = next_id-frame mid _ refl q

  marked-IsDue : IsDue dues (mark_fired d mid)
  marked-IsDue = record {
    timed =
        no_later db (mark_fired d mid)
          (λ q s. elim (Bool-cases (d.run == q && d.started_event_id == s)) [
            | inl e ↦ ground (arith, fires-marked q s, covered_first q s, pending-own q s, e)
            | inr e ↦ ground (arith, fires-marked q s, pending-marked q s, e)
          ])
          (λ q. omega (
            arith,
            next_id-grows d.run q now (event EventType.timer_fired a) db n mid done,
            next_marked q,
          ))
          v.timed;
    covered = λ q s. elim (Bool-cases (d.run == q && d.started_event_id == s)) [
      | inl e ↦ ground (arith, covered_first q s, v.timed.once q s, pending-own q s, e)
      | inr e ↦ ground (arith, covered_first q s, pending-marked q s, e)
    ];
  }

fire_timer-IsDue :
    (now : Time) (d : TimerRow) (dues : List TimerRow) (db : Db)
    → IsDue (d ∷ dues) db
    → (u : Unit {0}) (db' : Db) → fire_timer now d db ≡ ok (u, db')
    → IsDue dues db'
unfolding fire_timer
fire_timer-IsDue now d dues db v u db' h =
    let fired : Attributes = Attributes.timer_fired d.timer_id d.started_event_id in
    let (n, mid, appended, rest) =
      bind-inv (append_events d.run now (event EventType.timer_fired fired ∷ []))
        (λ _. do exec (mark_fired d); schedule_workflow_task_for_run d.run now) db {b = u}
        {db' = db'} h in
    let done = append-Appended d.run now (event EventType.timer_fired fired) db n mid appended in
    (wake-IsDue dues d.run now).at (mark_fired d mid)
      (marked-IsDue now d dues fired db mid n (λ s. refl) v done) u db' rest

fire_all-IsTimed :
    (now : Time) (fired : ℕ) (dues : List TimerRow) (db : Db)
    → IsDue dues db
    → (n : ℕ) (db' : Db) → fire_all now fired dues db ≡ ok (n, db')
    → IsTimed db'
unfolding fire_all
fire_all-IsTimed now fired [] db v n db' h = subst IsTimed (ok-injective h).1 v.timed
fire_all-IsTimed now fired (d ∷ dues) db v n db' h =
    let (u, mid, first, rest) =
      bind-inv (fire_timer now d) (λ _. fire_all now (fired + 1) dues) db {b = n} {db' = db'} h in
    fire_all-IsTimed now (fired + 1) dues mid (fire_timer-IsDue now d dues db v u mid first) n db'
      rest

-- What the query of the loop can select of a table's rows.
count-insert_by :
    (before : TimerRow → TimerRow → Bool) (p : TimerRow → Bool) (x : TimerRow) (xs : List TimerRow)
    → count p (insert_by before x xs) ≡ one_if (p x) + count p xs
unfolding count insert_by
count-insert_by before p x [] = refl
count-insert_by before p x (y ∷ ys) = ground (arith, count-insert_by before p x ys)

count-order_by :
    (before : TimerRow → TimerRow → Bool) (p : TimerRow → Bool) (xs : List TimerRow)
    → count p (order_by before xs) ≡ count p xs
unfolding count order_by
count-order_by before p [] = refl
count-order_by before p (x ∷ xs) =
    omega (arith, count-insert_by before p x (order_by before xs), count-order_by before p xs)

count-take : (n : ℕ) (p : TimerRow → Bool) (xs : List TimerRow) → count p (take n xs) ≤ count p xs
unfolding count
count-take zero p xs = omega arith
count-take (suc n) p [] = omega arith
count-take (suc n) p (x ∷ xs) = omega (arith, count-take n p xs)

count-select_due :
    (now : Time) (q : Run) (s : ℕ) (ts : List TimerRow)
    → count (same_timer q s) (select (is_due now) ts) ≤ count (unfired q s) ts
unfolding count select
count-select_due now q s [] = omega arith
count-select_due now q s (t ∷ ts) = ground (arith, count-select_due now q s ts)

due_timers-IsDue :
    (now : Time) (batch : ℤ) (db : Db) → IsTimed db → IsDue (due_timers now batch db) db
unfolding due_timers
due_timers-IsDue now batch db v = record {
  timed = v;
  covered = λ q s. omega (
    arith,
    count-take (batch_size batch) (same_timer q s)
        (order_by (λ a b. ltb_ℤ a.fire_at b.fire_at) (select (is_due now) db.timers)),
    count-order_by (λ a b. ltb_ℤ a.fire_at b.fire_at) (same_timer q s)
        (select (is_due now) db.timers),
    count-select_due now q s db.timers,
  );
}

pub fire_due-IsTimed : (now : Time) (batch : ℤ) → Keeps IsTimed (fire_due_timers now batch)
unfolding fire_due_timers
fire_due-IsTimed now batch = record {
  at = λ db v n db' h.
      fire_all-IsTimed now 0 (due_timers now batch db) db (due_timers-IsDue now batch db v) n db' h;
}
