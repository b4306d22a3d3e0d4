-- ===== src/Store/Once.antt =====
-- The events that end what an event of a run has opened, and what one event more does to them and to the
-- tables, for internal/storage/postgres.
pub mod Invariant
pub mod Schedules
pub mod Finishes
pub mod Activities
use mathlib.Core.Path.{subst}
use chronos_engine.Prelude.{
  ℕ, suc, ◌+◌, ◌≤◌, ◌≡◌, refl, sym, ap, ◌∙◌, Bool, true, false, ◌&&◌, Option, none, some, List, [],
  ◌∷◌, ◌++◌, arith, ◌==◌, ==_iff, if◌then◌else◌, length, count,
}
use chronos_engine.Prelude.Counting.{one_if, count-append}
use chronos_engine.Messages.{Time, EventType, Attributes, HistoryEvent}
use chronos_engine.Store.Tables.{
  Run, run_eq, Execution, HistoryRow, ActivityRow, TimerRow, TaskRow, Db,
}
use chronos_engine.Store.Monad.{ok}
use chronos_engine.Store.Events.{event, stamp, update_execution, find_execution, append_events}
use chronos_engine.Store.Statements.{is_outcome}
use chronos_engine.Store.History.{append_events-inv, history-update}
use chronos_engine.Store.History.GapFree.{next_id, next_of, next_id-append}

-- What a commit of `appendEvents` with one event has done.
pub record Appended (r : Run) (now : Time) (e : HistoryEvent) (db : Db) (n : ℕ) (db' : Db)
    : Type 0 where
  pub first : n ≡ next_id r db
  pub rows :
      db'.history_events
      ≡ db.history_events ++ record { run = r; event_id = n; data_event = stamp e n now } ∷ []
  pub next : (s : Run) → next_id s db' ≡ (if s == r then n + 1 else next_id s db)
  pub activities : db'.activity_tasks ≡ db.activity_tasks
  pub timers : db'.timers ≡ db.timers

other_tables :
    (r : Run) (f : Execution → Execution) (db : Db)
    → ((update_execution r f db).activity_tasks ≡ db.activity_tasks)
      × ((update_execution r f db).timers ≡ db.timers)
unfolding update_execution
other_tables r f db = (refl, refl)

pub append-Appended :
    (r : Run) (now : Time) (e : HistoryEvent) (db : Db) (n : ℕ) (db' : Db)
    → append_events r now (e ∷ []) db ≡ ok (n, db')
    → Appended r now e db n db'
append-Appended r now e db n db' h =
    let (row, found, is_first, grown) = append_events-inv r now e [] db h in
    let k : ℕ = row.next_event_id in
    subst (Appended r now e db n) (sym grown) (
      rw is_first (record {
        first = sym (ap next_of found);
        rows = history-update r _ _;
        next = λ s. next_id-append r s (k + 1) _ db row found;
        activities = (other_tables r _ _).0;
        timers = (other_tables r _ _).1;
      }))

-- A test on the attributes of an event, at the event with the id s of the run r.
abbrev pub holds_of : (Attributes → Bool) → Option Attributes → Bool
holds_of p none = false
holds_of p (some a) = p a

abbrev pub closing : (ℕ → Attributes → Bool) → Run → ℕ → HistoryRow → Bool
closing closes r s row = row.run == r && holds_of (closes s) row.data_event.attributes

abbrev pub closings : (ℕ → Attributes → Bool) → Run → ℕ → Db → ℕ
closings closes r s db = count (closing closes r s) db.history_events

pub closings-append :
    (closes : ℕ → Attributes → Bool) (r q : Run) (s : ℕ) (now : Time) (type : EventType)
    (a : Attributes) (db : Db) (n : ℕ) (db' : Db)
    → Appended r now (event type a) db n db'
    → closings closes q s db' ≡ closings closes q s db + one_if (r == q && closes s a)
unfolding count
closings-append closes r q s now type a db n db' ap' =
    ap (count (closing closes q s)) ap'.rows
    ∙ count-append (closing closes q s) db.history_events _
    ∙ omega arith

pub next_id-grows :
    (r q : Run) (now : Time) (e : HistoryEvent) (db : Db) (n : ℕ) (db' : Db)
    → Appended r now e db n db'
    → next_id q db ≤ next_id q db'
next_id-grows r q now e db n db' done = ground (arith, done.next q, done.first, ==_iff q r, own)
  where
    own : q ≡ r → next_id q db ≡ next_id r db
    own e = ap (λ x. next_id x db) e
