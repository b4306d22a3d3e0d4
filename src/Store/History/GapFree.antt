-- ===== src/Store/History/GapFree.antt =====
-- The invariant of a history: the events of a run are numbered from 1 on, in the order of insertion,
-- and `next_event_id` is the number after the last.
use mathlib.Core.Path.{subst}
use chronos_engine.Prelude.{
  ℕ, ◌+◌, ◌-◌, ◌≤◌, ◌≡◌, refl, sym, ap, ◌∙◌, true, Option, none, some, List, [], ◌∷◌, ◌++◌, map,
  map-append, append-nil, arith, ◌==◌, ==_iff, Bool-cases, inl, inr, if◌then◌else◌, length, select,
}
use chronos_engine.Prelude.Counting.{select-append}
use chronos_engine.Messages.{Time, HistoryEvent}
use chronos_engine.Store.Tables.{Run, run_eq, Execution, HistoryRow, Db}
use chronos_engine.Store.Keeps.{Keeps, Keeps-pure}
use chronos_engine.Store.Events.{find_execution, update_execution, append_events}
use chronos_engine.Store.History.{
  ids, iota, iota-append, new_rows, add_rows, find-update, append_events-inv, history-update,
}

-- The allocator of a run; a run with no row has used no id.
abbrev pub next_of : Option Execution → ℕ
next_of none = 1
next_of (some e) = e.next_event_id

abbrev pub next_id : Run → Db → ℕ
next_id r db = next_of (find_execution r db)

pub record IsGapFree (db : Db) : Type 0 where
  pub numbered : (r : Run) → ids r db.history_events ≡ iota 1 (next_id r db - 1)
  pub started : (r : Run) → 1 ≤ next_id r db

ids-new_rows :
    (r s : Run) (now : Time) (n : ℕ) (es : List HistoryEvent)
    → ids s (new_rows r now n es) ≡ (if s == r then iota n (length es) else [])
unfolding select
ids-new_rows r s now n [] = ground arith
ids-new_rows r s now n (e ∷ es) =
    ground (arith, ==_iff r s, ==_iff s r, ids-new_rows r s now (n + 1) es)

ids-append : (s : Run) (xs ys : List HistoryRow) → ids s (xs ++ ys) ≡ ids s xs ++ ids s ys
ids-append s xs ys =
    ap (map (λ (row : HistoryRow). row.event_id)) (select-append (λ row. row.run == s) xs ys)
    ∙ map-append _ _ _

find-add_rows :
    (s : Run) (rows : List HistoryRow) (db : Db)
    → find_execution s (add_rows rows db) ≡ find_execution s db
unfolding find_execution
find-add_rows s rows db = refl

-- The allocator of every run after `appendEvents` on the run `r`.
pub next_id-append :
    (r s : Run) (k : ℕ) (rows : List HistoryRow) (db : Db) (row : Execution)
    → find_execution r db ≡ some row
    → next_id s (update_execution r (λ x. record x { next_event_id = k }) (add_rows rows db))
      ≡ (if s == r then k else next_id s db)
next_id-append r s k rows db row found =
    ap next_of
      (find-update r s (λ x. record x { next_event_id = k }) (add_rows rows db) (λ e. refl))
    ∙ ground (arith, find-add_rows s rows db, ==_iff s r, found, again)
  where
    again : s ≡ r → find_execution s db ≡ some row
    again e = rw e found

iota_next : (n k : ℕ) → 1 ≤ n → iota 1 (n - 1) ++ iota n k ≡ iota 1 (n + k - 1)
iota_next n k h =
    ap (λ m. iota 1 (n - 1) ++ iota m k) (omega arith)
    ∙ sym (iota-append 1 (n - 1) k)
    ∙ ap (iota 1) (omega arith)

module _ (r : Run) (now : Time) (es : List HistoryEvent) (db : Db) (v : IsGapFree db) where
  module _ (row : Execution) (found : find_execution r db ≡ some row) where
    abbrev grown_db : Db
    grown_db =
        update_execution r (λ x. record x { next_event_id = row.next_event_id + length es })
          (add_rows (new_rows r now row.next_event_id es) db)

    next_grown :
        (s : Run)
        → next_id s grown_db ≡ (if s == r then row.next_event_id + length es else next_id s db)
    next_grown s = next_id-append r s _ (new_rows r now row.next_event_id es) db row found

    ids_grown :
        (s : Run)
        → ids s grown_db.history_events
          ≡ ids s db.history_events ++ (if s == r then iota row.next_event_id (length es) else [])
    ids_grown s =
        ap (ids s) (history-update r _ _)
        ∙ ids-append s db.history_events (new_rows r now row.next_event_id es)
        ∙ ap (◌++◌ (ids s db.history_events)) (ids-new_rows r s now row.next_event_id es)

    next_own : next_id r db ≡ row.next_event_id
    next_own = ap next_of found

    next_at : (s : Run) → (s == r) ≡ true → next_id s db ≡ row.next_event_id
    next_at s own = ap (λ q. next_id q db) ((==_iff s r).0 own) ∙ next_own

    numbered_grown : (s : Run) → ids s grown_db.history_events ≡ iota 1 (next_id s grown_db - 1)
    numbered_grown s = elim (Bool-cases (s == r)) [
      | inl own ↦
          rw (ids_grown s, next_grown s, own)
            (ap (λ l. l ++ iota row.next_event_id (length es))
                (v.numbered s ∙ ap (λ n. iota 1 (n - 1)) (next_at s own))
              ∙ iota_next row.next_event_id (length es) (subst (λ n. 1 ≤ n) next_own (v.started r)))
      | inr other ↦ rw (ids_grown s, next_grown s, other) (append-nil _ ∙ v.numbered s)
    ]

    grown-IsGapFree : IsGapFree grown_db
    grown-IsGapFree = record {
      numbered = numbered_grown;
      started = λ s. ground (arith, next_grown s, v.started s, v.started r, next_own);
    }

pub append_events-IsGapFree :
    (r : Run) (now : Time) (es : List HistoryEvent) → Keeps IsGapFree (append_events r now es)
append_events-IsGapFree r now [] = unfold append_events in Keeps-pure 0
append_events-IsGapFree r now (e ∷ es) = record {
  at = λ db v n db' h.
      let (row, found, _, grown) = append_events-inv r now e es db h in
      subst IsGapFree (sym grown) (grown-IsGapFree r now (e ∷ es) db v row found);
}
