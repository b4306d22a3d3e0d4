-- ===== src/Store/Progress/Commits.antt =====
-- Parts of the transactions of internal/storage/postgres that commit where the ids of the events are without a gap.
use mathlib.Core.Path.{subst}
use chronos_engine.Prelude.{
  ℕ, zero, suc, ◌+◌, ◌-◌, ◌≤◌, Option, none, some, List, [], ◌∷◌, Bool, false, ◌&&◌, nat_eq, ◌==◌,
  if◌then◌else◌, select, exists, ◌≡◌, refl, ap, ◌∙◌, arith, string_eq,
}
use chronos_engine.Messages.{Time, HistoryEvent}
use chronos_engine.Store.Tables.{Run, run_eq, Execution, HistoryRow, Db}
use chronos_engine.Store.Monad.{Error, ok, err, unique_violation, Tx, ◌>>=◌, row_or, no_rows, when}
use chronos_engine.Store.Events.{
  stamp, find_execution, update_execution, insert_event, append_loop, append_events,
  schedule_workflow_task, schedule_workflow_task_for_run,
}
use chronos_engine.Store.Activities.{delete_activity}
use chronos_engine.Store.History.{ids, iota, new_rows, add_rows, find-update}
use chronos_engine.Store.History.GapFree.{IsGapFree, next_id, next_of}

abbrev among : ℕ → List ℕ → Bool
among m = exists (λ n. n == m)

among-ids :
    (r : Run) (m : ℕ) (rows : List HistoryRow)
    → exists (λ (row : HistoryRow). row.run == r && row.event_id == m) rows ≡ among m (ids r rows)
unfolding exists select
among-ids r m [] = refl
among-ids r m (row ∷ rows) = ground (arith, among-ids r m rows)

among-iota : (m a k : ℕ) → a + k ≤ m → among m (iota a k) ≡ false
unfolding exists
among-iota m a zero h = refl
among-iota m a (suc k) h = ground (arith, among-iota m (a + 1) k (omega arith))

-- The next event id of a run is free.
free_id :
    (r : Run) (db : Db)
    → IsGapFree db
    → exists (λ (row : HistoryRow). row.run == r && row.event_id == next_id r db) db.history_events
      ≡ false
free_id r db v =
    among-ids r (next_id r db) db.history_events
    ∙ ap (among (next_id r db)) (v.numbered r)
    ∙ among-iota (next_id r db) 1 (next_id r db - 1) (omega (arith, v.started r))

-- A transaction whose first part commits goes on with the second.
pub bind_commits :
    {A B : Type 0} (m : Tx A) (f : A → Tx B) (db : Db) (a : A) (mid : Db)
    → m db ≡ ok (a, mid)
    → (m >>= f) db ≡ f a mid
bind_commits m f db a mid h = ap (λ r. elim r [ ok (x, d) ↦ f x d | err e ↦ err e ]) h

pub row_or_commits :
    {A B : Type 0} (e : Error) (query : Db → Option A) (f : A → Tx B) (db : Db) (a : A)
    → query db ≡ some a
    → (row_or e query >>= f) db ≡ f a db
row_or_commits e query f db a h =
    bind_commits (row_or e query) f db a db
      (ap (λ o. elim o [ none ↦ err e | some x ↦ ok (x, db) ]) h)

insert_commits :
    (r : Run) (id : ℕ) (e : HistoryEvent) (db : Db)
    → exists (λ (row : HistoryRow). row.run == r && row.event_id == id) db.history_events ≡ false
    → insert_event r id e db
      ≡ ok (tt, add_rows (record { run = r; event_id = id; data_event = e } ∷ []) db)
unfolding insert_event
insert_commits r id e db free =
    bind_commits
      (when (exists (λ (row : HistoryRow). row.run == r && row.event_id == id) db.history_events)
        unique_violation)
      _ db tt db (ap (λ b. when b unique_violation db) free)

pub append_commits :
    (r : Run) (now : Time) (e : HistoryEvent) (db : Db) (row : Execution)
    → IsGapFree db
    → find_execution r db ≡ some row
    → append_events r now (e ∷ []) db
      ≡ ok (
        row.next_event_id,
        update_execution r
            (λ x. record x { next_event_id = row.next_event_id + 1 })
            (add_rows (new_rows r now row.next_event_id (e ∷ [])) db),
      )
unfolding append_events append_loop
append_commits r now e db row v found =
    let k : ℕ = row.next_event_id in
    row_or_commits no_rows (find_execution r) _ db row found
    ∙ bind_commits (append_loop r now k (e ∷ [])) _ db (k + 1)
        (add_rows (new_rows r now k (e ∷ [])) db)
        (bind_commits (insert_event r k (stamp e k now)) (λ _. append_loop r now (k + 1) []) db tt
          (add_rows (new_rows r now k (e ∷ [])) db)
          (insert_commits r k (stamp e k now) db (
            subst
              (λ n.
                exists (λ (x : HistoryRow). x.run == r && x.event_id == n) db.history_events
                ≡ false)
              (ap next_of found) (free_id r db v))))

pub wake_commits :
    (r : Run) (now : Time) (db : Db) (row : Execution)
    → find_execution r db ≡ some row
    → (db' : Db) × (schedule_workflow_task_for_run r now db ≡ ok (tt, db'))
unfolding schedule_workflow_task_for_run schedule_workflow_task
wake_commits r now db row found = (_, row_or_commits no_rows (find_execution r) _ db row found)

pub still_found :
    (r : Run) (now : Time) (token k : ℕ) (rows : List HistoryRow) (db : Db) (row : Execution)
    → find_execution r db ≡ some row
    → find_execution r (
        delete_activity token
          (update_execution r (λ x. record x { next_event_id = k }) (add_rows rows db)))
      ≡ some (if r == r then record row { next_event_id = k } else row)
unfolding find_execution delete_activity update_execution
still_found r now token k rows db row found =
    find-update r r (λ x. record x { next_event_id = k }) (add_rows rows db) (λ e. refl)
    ∙ ap
        (λ o. elim o [
          | none ↦ none
          | some e ↦ some (if r == r then record e { next_event_id = k } else e)
        ])
        found
