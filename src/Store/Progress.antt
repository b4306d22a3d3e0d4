-- ===== src/Store/Progress.antt =====
-- Calls of internal/storage/postgres that cannot fail: the database that calls have left always has a free event id,
-- and every task a run.
pub mod Commits
pub mod Added
use mathlib.Core.Path.{subst}
use chronos_engine.Prelude.{
  ℕ, zero, suc, ◌+◌, ◌-◌, ◌≤◌, ◌+ℤ◌, String, Option, none, some, List, [], ◌∷◌, ◌++◌, Bool, true,
  false, not, ◌&&◌, nat_eq, ◌==◌, ==_iff, ==_refl, if◌then◌else◌, ℤ, map, All, length, first,
  select, exists, count, update_where, ◌≡◌, refl, sym, ap, ◌∙◌, arith, Bool-cases, inl, inr,
  Option-cases, ltb_ℤ, string_eq,
}
use chronos_engine.Prelude.Counting.{one_if}
use chronos_engine.Messages.{Bytes, Time, Duration, EventType, Attributes, HistoryEvent}
use chronos_engine.Core.{Float64}
use chronos_engine.Store.Tables.{
  Run, run_eq, Execution, HistoryRow, ActivityRow, ActivityTask, Db, empty_db,
}
use chronos_engine.Store.Monad.{
  Error, Result, ok, err, unique_violation, Tx, ◌>>=◌, ◌>>◌, pure, exec, row_or, no_rows, when,
  task_lost, earliest,
}
use chronos_engine.Store.Events.{
  event, stamp, find_execution, update_execution, insert_event, append_loop, append_events,
  schedule_workflow_task, schedule_workflow_task_for_run,
}
use chronos_engine.Store.Commands.{same_activity, not_owner}
use chronos_engine.Store.Activities.{
  dispatchable, next_activity_task, update_activity, activity_task, record_attempt, record_started,
  lease_activity_task, poll_activity_task, find_activity, delete_activity, finish_activity,
  complete_activity_task,
}
use chronos_engine.Store.Calls.{Call, run_calls}
use chronos_engine.Store.CallRules.{run_calls-Keeps}
use chronos_engine.Store.Statements.{call_rules}
use chronos_engine.Store.TableRules.{statements}
use chronos_engine.Store.History.{ids, iota, new_rows, add_rows, find-update}
use chronos_engine.Store.History.GapFree.{IsGapFree, next_id, next_of}
use chronos_engine.Store.History.Calls.{IsGapFree-rules}
use chronos_engine.Store.History.Numbered.{empty-IsGapFree}
use chronos_engine.Store.Once.Invariant.{IsOnce, waiting}
use chronos_engine.Store.Once.Activities.{IsOnce-rules, empty-IsOnce}
use chronos_engine.Store.Leases.{All-select, earliest-All}
use chronos_engine.Store.Answers.{finish-IsGone}
use chronos_engine.Store.Progress.Added.{finish_adds}
use chronos_engine.Store.Progress.Commits.{
  bind_commits, row_or_commits, append_commits, wake_commits, still_found,
}

-- Every row of the queue has a run.
abbrev HasRun : Db → ActivityRow → Type 0
HasRun db t = (row : Execution) × (find_execution t.run db ≡ some row)

has_run :
    (db : Db) (t : ActivityRow)
    → IsOnce db
    → 1 ≤ waiting t.run t.scheduled_event_id db
    → HasRun db t
has_run db t v h = elim (Option-cases (find_execution t.run db)) [
  | inr found ↦ found
  | inl missing ↦ absurd (no_row t.scheduled_event_id refl missing)
]
  where
    no_row : (s : ℕ) → s ≡ t.scheduled_event_id → find_execution t.run db ≡ none → ⊥
    no_row zero e missing = omega (arith, h, ap (λ k. waiting t.run k db) e, v.no_zero t.run)
    no_row (suc s) e missing = omega (
      arith,
      h,
      ap (λ k. waiting t.run k db) e,
      v.fresh t.run (suc s) (omega (arith, ap next_of missing)),
    )

All-HasRun :
    (db : Db) (rows : List ActivityRow)
    → IsOnce db
    → ((r : Run) (s : ℕ) → count (same_activity r s) rows ≤ waiting r s db)
    → All (HasRun db) rows
unfolding count
All-HasRun db [] v h = tt
All-HasRun db (t ∷ rows) v h = (
  has_run db t v
      (ground (arith, h t.run t.scheduled_event_id, ==_refl t.run, ==_refl t.scheduled_event_id)),
  All-HasRun db rows v (λ r s. omega (arith, h r s)),
)

first-All :
    (P : ActivityRow → Type 0) (p : ActivityRow → Bool) (rows : List ActivityRow) (t : ActivityRow)
    → All P rows
    → first p rows ≡ some t
    → P t
unfolding first
first-All P p [] t h e = cc
first-All P p (x ∷ rows) t (hx, h) e = elim (Bool-cases (p x)) [
  | inl own ↦ subst P (ground (arith, e, own)) hx
  | inr other ↦ first-All P p rows t h (ground (arith, e, other))
]

module _ (db : Db) (gap_free : IsGapFree db) (once : IsOnce db) where
  every_HasRun : All (HasRun db) db.activity_tasks
  every_HasRun = All-HasRun db db.activity_tasks once (λ r s. omega arith)

  -- The end of an activity whose row is in the queue.
  finish_commits :
      (token : ℕ) (t : ActivityRow) (type : EventType) (a : Attributes) (now : Time)
      → find_activity token db ≡ some t
      → (db' : Db) × (finish_activity token t type a now db ≡ ok (tt, db'))
  unfolding finish_activity find_activity
  finish_commits token t type a now found =
      let (row, has) =
        first-All (HasRun db) (λ x. x.task_id == token) db.activity_tasks t every_HasRun found in
      let k : ℕ = row.next_event_id in
      let rows = new_rows t.run now k (event type a ∷ []) in
      let mid =
        update_execution t.run (λ x. record x { next_event_id = k + 1 }) (add_rows rows db) in
      let (db', woken) =
        wake_commits t.run now (delete_activity token mid) _
          (still_found t.run now token (k + 1) rows db row has) in
      (
        db',
        bind_commits (append_events t.run now (event type a ∷ []))
              (λ _. do exec (delete_activity token); schedule_workflow_task_for_run t.run now) db k
              mid (append_commits t.run now (event type a) db row gap_free has)
            ∙ woken,
      )

  -- The event of a delivery, after the lease.
  module _ (t : ActivityRow) (identity : String) (now until : Time) (has : HasRun db t) where
    abbrev leased_db : Db
    leased_db =
        update_activity t.task_id
          (λ row. record row { locked_until = some until; locked_by = some identity }) db

    leased-IsGapFree : IsGapFree leased_db
    unfolding update_activity find_execution
    leased-IsGapFree = record { numbered = gap_free.numbered; started = gap_free.started }

    leased_found : find_execution t.run leased_db ≡ some has.0
    unfolding update_activity find_execution
    leased_found = has.1

    attempt_commits : (db' : Db) × (record_attempt t identity now leased_db ≡ ok (tt, db'))
    unfolding record_attempt
    attempt_commits =
        let e =
          event EventType.activity_task_started
            (Attributes.activity_task_started t.scheduled_event_id identity t.attempt) in
        (
          _,
          bind_commits (append_events t.run now (e ∷ [])) _ leased_db _ _
              (append_commits t.run now e leased_db has.0 leased-IsGapFree leased_found),
        )

    start_commits : (db' : Db) × (record_started t identity now leased_db ≡ ok (tt, db'))
    unfolding record_started
    start_commits = elim (Bool-cases (ltb_ℤ t.last_started_attempt t.attempt)) [
      | inl e ↦ (
        attempt_commits.0,
        ap (λ b. (if b then record_attempt t identity now else pure tt) leased_db) e
            ∙ attempt_commits.1,
      )
      | inr e ↦
          (leased_db, ap (λ b. (if b then record_attempt t identity now else pure tt) leased_db) e)
    ]

  lease_commits :
      (t : ActivityRow) (identity : String) (lease : Duration) (now : Time)
      → HasRun db t
      → (db' : Db) × (lease_activity_task (some t) identity lease now db
          ≡ ok (some (activity_task t), db'))
  unfolding lease_activity_task
  lease_commits t identity lease now has =
      let (db', done) = start_commits t identity now (now +ℤ lease) has in
      (
        db',
        bind_commits (record_started t identity now) (λ _. pure (some (activity_task t)))
            (leased_db t identity now (now +ℤ lease) has) tt db' done,
      )

-- A query that has rows to choose from chooses one.
earliest-some :
    {A : Type 0} (key : A → ℤ) (p : A → Bool) (xs : List A)
    → exists p xs ≡ true
    → (x : A) × (earliest key (select p xs) ≡ some x)
unfolding exists select earliest
earliest-some key p [] h = cc
earliest-some key p (x ∷ xs) h = elim (Bool-cases (p x)) [
  | inl e ↦ (_, ap (λ b. earliest key (if b then x ∷ select p xs else select p xs)) e)
  | inr e ↦
      let (y, found) = earliest-some key p xs (ground (arith, h, e)) in
      (y, ap (λ b. earliest key (if b then x ∷ select p xs else select p xs)) e ∙ found)
]

-- A waiting task is delivered. On any database that calls of the store lead to: where a row of the queue of
-- activity tasks is due and not leased, a poll of its queue commits and hands out a task.
pub poll_delivers :
    (fl : Float64) (cs : List (Time × Call)) (queue identity : String) (lease : Duration)
    (now : Time)
    → exists (dispatchable queue now) (run_calls fl empty_db cs).activity_tasks ≡ true
    → (task : ActivityTask) × (db' : Db) × (poll_activity_task queue identity lease now
          (run_calls fl empty_db cs)
        ≡ ok (some task, db'))
unfolding poll_activity_task next_activity_task
poll_delivers fl cs queue identity lease now h =
    let db = run_calls fl empty_db cs in
    let gap_free =
      run_calls-Keeps (call_rules (statements IsGapFree-rules) fl) empty_db cs empty-IsGapFree in
    let once = run_calls-Keeps (call_rules IsOnce-rules fl) empty_db cs empty-IsOnce in
    let (t, chosen) =
      earliest-some (λ t. t.visible_at) (dispatchable queue now) db.activity_tasks h in
    let has =
      earliest-All (λ x. HasRun db x × (dispatchable queue now x ≡ true)) (λ t. t.visible_at)
        (select (dispatchable queue now) db.activity_tasks) t
        (All-select (HasRun db) (dispatchable queue now) db.activity_tasks
          (every_HasRun db gap_free once))
        chosen in
    let (db', done) = lease_commits db gap_free once t identity lease now has.0 in
    (activity_task t, db', ap (λ o. lease_activity_task o identity lease now db) chosen ∙ done)

-- An answer of the owner is recorded. On any database that calls of the store lead to: where a token names a row of
-- the queue of activity tasks that a worker has locked, a completion of that worker commits, with whatever result and at
-- whatever time, also after the lease has run out. It adds to the history table one ActivityTaskCompleted with the result,
-- under the next event id of the run, and leaves no row of the token.
pub answer_commits :
    (fl : Float64) (cs : List (Time × Call)) (token : ℕ) (t : ActivityRow) (identity : String)
    (result : Bytes) (now : Time)
    → find_activity token (run_calls fl empty_db cs) ≡ some t
    → not_owner t.locked_by identity ≡ false
    → let db = run_calls fl empty_db cs in
      (db' : Db) × (complete_activity_task token identity result now db ≡ ok (tt, db'))
      × (db'.history_events
          ≡ db.history_events
            ++ record {
              run = t.run;
              event_id = next_id t.run db;
              data_event =
                  stamp
                    (event EventType.activity_task_completed
                      (Attributes.activity_task_completed t.scheduled_event_id result))
                    (next_id t.run db)
                    now;
            }
              ∷ [])
      × (find_activity token db' ≡ none)
unfolding complete_activity_task
answer_commits fl cs token t identity result now found owner =
    let db = run_calls fl empty_db cs in
    let gap_free =
      run_calls-Keeps (call_rules (statements IsGapFree-rules) fl) empty_db cs empty-IsGapFree in
    let once = run_calls-Keeps (call_rules IsOnce-rules fl) empty_db cs empty-IsOnce in
    let (db', done) =
      finish_commits db gap_free once token t EventType.activity_task_completed
        (Attributes.activity_task_completed t.scheduled_event_id result) now found in
    let type = EventType.activity_task_completed in
    let a = Attributes.activity_task_completed t.scheduled_event_id result in
    (
      db',
      row_or_commits task_lost (find_activity token) _ db t found
          ∙ bind_commits (when (not_owner t.locked_by identity) task_lost) _ db tt db
              (ap (λ b. when b task_lost db) owner)
          ∙ done,
      finish_adds token t type a now db tt db' done,
      finish-IsGone token t type a now db tt db' done,
    )
