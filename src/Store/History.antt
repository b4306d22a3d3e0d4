-- ===== src/Store/History.antt =====
-- The history of a run: which ids its events have, and what `appendEvents` does to them.
pub mod GapFree
pub mod Calls
pub mod Numbered
use chronos_engine.Prelude.{
  ℕ, zero, suc, ◌+◌, ◌-◌, ◌≡◌, refl, sym, ap, ◌∙◌, Bool, true, false, Option, none, some, List, [],
  ◌∷◌, ◌++◌, map, map-append, append-nil, append_assoc, arith, ◌==◌, ==_iff, ==_refl, Bool-cases,
  inl, inr, if◌then◌else◌, length, first, select, update_where, exists, nat_eq,
}
use Prim.Native.Nat.add
use mathlib.Core.Path.{ap₂}
use native.Mathlib.Nat.{add-zero}
use chronos_engine.Prelude.Counting.{first_passes, first-update_where, select-append}
use chronos_engine.Messages.{Time, HistoryEvent}
use chronos_engine.Store.Tables.{Run, run_eq, Execution, HistoryRow, Db}
use chronos_engine.Store.Monad.{ok, Tx, ◌>>=◌, ◌>>◌, pure, row_or, exec, no_rows}
use chronos_engine.Store.Events.{
  find_execution, update_execution, insert_event, append_loop, append_events, stamp,
}
use chronos_engine.Store.Keeps.{bind-inv, row_or-inv, ok-injective}

-- The ids of a run's events, in the order in which they were inserted.
abbrev pub ids : Run → List HistoryRow → List ℕ
ids r rows = map (λ row. row.event_id) (select (λ row. row.run == r) rows)

-- k numbers from a on.
abbrev pub iota : ℕ → ℕ → List ℕ
iota a zero = []
iota a (suc k) = a ∷ iota (a + 1) k

pub iota-append : (a k m : ℕ) → iota a (k + m) ≡ iota a k ++ iota (a + k) m
iota-append a zero m = rw (add.zero m, add-zero)
iota-append a (suc k) m = rw (add.suc k m) (ap (◌∷◌ a) (rw (iota-append (a + 1) k m, regroup a k)))
  where
    regroup : (a k : ℕ) → a + 1 + k ≡ a + suc k
    regroup a k = omega arith

pub find-update :
    (r s : Run) (f : Execution → Execution) (db : Db)
    → ((e : Execution) → (f e).run ≡ e.run)
    → find_execution s (update_execution r f db)
      ≡ (elim (find_execution s db) [ none ↦ none | some e ↦ some (if s == r then f e else e) ])
unfolding find_execution update_execution
find-update r s f db h =
    first-update_where (λ e. e.run == r) (λ e. e.run == s) f db.executions
      (λ e. ap (λ (k : Run). k == s) (h e))
    ∙ rename (first (λ e. e.run == s) db.executions) (first_passes (λ e. e.run == s) db.executions)
  where
    rename :
        (o : Option Execution)
        → ((e : Execution) → o ≡ some e → (e.run == s) ≡ true)
        → ◌≡◌ {A = Option Execution}
            (elim o [ none ↦ none | some e ↦ some (if e.run == r then f e else e) ])
            (elim o [ none ↦ none | some e ↦ some (if s == r then f e else e) ])
    rename none k = refl
    rename (some e) k =
        ap (λ (q : Run). some (if q == r then f e else e)) ((==_iff e.run s).0 (k e refl))

-- A row under each event, at the ids that follow `next_id`.
abbrev pub new_rows : Run → Time → ℕ → List HistoryEvent → List HistoryRow
new_rows r now next_id [] = []
new_rows r now next_id (e ∷ es) =
    record { run = r; event_id = next_id; data_event = stamp e next_id now }
    ∷ new_rows r now (next_id + 1) es

abbrev pub add_rows : List HistoryRow → Db → Db
add_rows rows db = record db { history_events = db.history_events ++ rows }

insert_event-inv :
    (r : Run) (id : ℕ) (e : HistoryEvent) (db : Db) {u : Unit {0}} {db' : Db}
    → insert_event r id e db ≡ ok (u, db')
    → db' ≡ add_rows (record { run = r; event_id = id; data_event = e } ∷ []) db
unfolding insert_event
insert_event-inv r id e db h = ground arith

append_loop-inv :
    (r : Run) (now : Time) (next_id : ℕ) (es : List HistoryEvent) (db : Db) {n : ℕ} {db' : Db}
    → append_loop r now next_id es db ≡ ok (n, db')
    → (n ≡ next_id + length es) × (db' ≡ add_rows (new_rows r now next_id es) db)
unfolding append_loop
append_loop-inv r now next_id [] db h = (omega_id (ok-injective h).0, nothing (ok-injective h).1)
  where
    omega_id : {n : ℕ} → next_id ≡ n → n ≡ next_id + 0
    omega_id e = omega arith

    nothing : {db' : Db} → db ≡ db' → db' ≡ add_rows [] db
    nothing e = rw (append-nil, ← e)
append_loop-inv r now next_id (e ∷ es) db {n} {db'} h =
    let (u, mid, one, rest) =
      bind-inv (insert_event r next_id (stamp e next_id now))
        (λ _. append_loop r now (next_id + 1) es) db {b = n} {db' = db'} h in
    let inserted = insert_event-inv r next_id (stamp e next_id now) db one in
    let (counted, grown) = append_loop-inv r now (next_id + 1) es mid {n = n} {db' = db'} rest in
    (omega arith, grown ∙ ap (add_rows (new_rows r now (next_id + 1) es)) inserted ∙ regroup)
  where
    regroup :
        add_rows (new_rows r now (next_id + 1) es) (
          add_rows
            (record { run = r; event_id = next_id; data_event = stamp e next_id now } ∷ [])
            db)
        ≡ add_rows (new_rows r now next_id (e ∷ es)) db
    regroup = ap (λ rows. record db { history_events = rows }) (append_assoc db.history_events _ _)

-- What a commit of `appendEvents` has done: it found the run's row, added the rows at the next ids
-- and moved the allocator past them.
pub append_events-inv :
    (r : Run) (now : Time) (e : HistoryEvent) (es : List HistoryEvent) (db : Db) {first_id : ℕ}
    {db' : Db}
    → append_events r now (e ∷ es) db ≡ ok (first_id, db')
    → (row : Execution) × (find_execution r db ≡ some row)
      × (first_id ≡ row.next_event_id)
      × (db'
          ≡ update_execution r
              (λ x. record x { next_event_id = row.next_event_id + length (e ∷ es) })
              (add_rows (new_rows r now row.next_event_id (e ∷ es)) db))
unfolding append_events
append_events-inv r now e es db {first_id} {db'} h =
    let (row, db₁, found, h₁) =
      bind-inv (row_or no_rows (find_execution r)) rest db {b = first_id} {db' = db'} h in
    let (read, same₁) = row_or-inv no_rows (find_execution r) db found in
    let (n, db₂, looped, h₂) =
      bind-inv (append_loop r now row.next_event_id (e ∷ es)) (done row) db₁ {b = first_id}
        {db' = db'} h₁ in
    let (counted, grown) = append_loop-inv r now row.next_event_id (e ∷ es) db₁ looped in
    let (first, moved) = ok-injective h₂ in
    (
      row,
      read,
      sym first,
      sym moved
          ∙ ap₂ (λ k x. update_execution r (λ y. record y { next_event_id = k }) x) counted
              (grown ∙ ap (add_rows (new_rows r now row.next_event_id (e ∷ es))) (sym same₁)),
    )
  where
    done : Execution → ℕ → Tx ℕ
    done row next_id = do
      exec (update_execution r (λ x. record x { next_event_id = next_id }))
      pure row.next_event_id

    rest : Execution → Tx ℕ
    rest row = do next_id ← append_loop r now row.next_event_id (e ∷ es); done row next_id

pub history-update :
    (r : Run) (f : Execution → Execution) (db : Db)
    → (update_execution r f db).history_events ≡ db.history_events
unfolding update_execution
history-update r f db = refl
