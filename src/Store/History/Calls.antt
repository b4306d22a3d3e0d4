-- ===== src/Store/History/Calls.antt =====
-- The numbering of the histories under the calls of the store.
use chronos_engine.Prelude.{
  ◌-◌, ◌≤◌, ◌≡◌, refl, sym, ap, ◌∙◌, Option, none, some, [], ◌∷◌, arith, ◌==◌, Option-cases, inl,
  inr, if◌then◌else◌, first,
}
use chronos_engine.Prelude.Counting.{first-append_none, first-append_some}
use chronos_engine.Messages.{WorkflowStatus, Time}
use chronos_engine.Store.Tables.{Run, run_eq, Execution, Db}
use chronos_engine.Store.Monad.{exec}
use chronos_engine.Store.Keeps.{Keeps, Keeps-exec, keeps_rules}
use chronos_engine.Store.Events.{find_execution, update_execution}
use chronos_engine.Store.Workflows.{add_execution, insert_execution, new_execution}
use chronos_engine.Store.Commands.{close_execution}
use chronos_engine.Store.TableRules.{TableRules}
use chronos_engine.Store.History.{find-update, ids, iota}
use chronos_engine.Store.History.GapFree.{IsGapFree, append_events-IsGapFree, next_id, next_of}
use mathlib.Core.Path.{subst}

pub next_id-frame :
    (db db' : Db) → db'.executions ≡ db.executions → (r : Run) → next_id r db' ≡ next_id r db
unfolding find_execution
next_id-frame db db' e r = ap (λ xs. next_of (first (λ x. x.run == r) xs)) e

-- Only the allocators and the events matter.
same_next :
    (db db' : Db)
    → ((r : Run) → next_id r db' ≡ next_id r db)
    → db'.history_events ≡ db.history_events
    → IsGapFree db
    → IsGapFree db'
same_next db db' next h v = record {
  numbered = λ r. ap (ids r) h ∙ v.numbered r ∙ ap (λ n. iota 1 (n - 1)) (sym (next r));
  started = λ r. subst (λ n. 1 ≤ n) (sym (next r)) (v.started r);
}

same_ids :
    (db db' : Db)
    → db'.executions ≡ db.executions
    → db'.history_events ≡ db.history_events
    → IsGapFree db
    → IsGapFree db'
same_ids db db' e h v = same_next db db' (next_id-frame db db' e) h v

-- An update that keeps the key and the allocator of its row.
pub next_id-update :
    (r s : Run) (f : Execution → Execution) (db : Db)
    → ((e : Execution) → (f e).run ≡ e.run)
    → ((e : Execution) → (f e).next_event_id ≡ e.next_event_id)
    → next_id s (update_execution r f db) ≡ next_id s db
next_id-update r s f db run next =
    ap next_of (find-update r s f db run) ∙ unchanged (find_execution s db)
  where
    unchanged :
        (o : Option Execution)
        → next_of (elim o [ none ↦ none | some e ↦ some (if s == r then f e else e) ]) ≡ next_of o
    unchanged none = refl
    unchanged (some e) = ground (arith, next e)

pub next_id-close :
    (r s : Run) (status : WorkflowStatus) (now : Time) (db : Db)
    → next_id s (close_execution r status now db) ≡ next_id s db
unfolding close_execution
next_id-close r s status now db = next_id-update r s _ db (λ e. refl) (λ e. refl)

-- A new row starts at 1, which is where a run with no row stands.
pub next_id-add :
    (row : Execution) (s : Run) (db : Db)
    → row.next_event_id ≡ 1
    → next_id s (add_execution row db) ≡ next_id s db
unfolding find_execution first add_execution
next_id-add row s db one = elim (Option-cases (find_execution s db)) [
  | inl e ↦ ground (arith, first-append_none (λ x. x.run == s) db.executions (row ∷ []) e)
  | inr (x, e) ↦ ground (arith, first-append_some (λ x. x.run == s) db.executions (row ∷ []) x e)
]

add_execution-IsGapFree :
    (row : Execution) → row.next_event_id ≡ 1 → Keeps IsGapFree (exec (add_execution row))
add_execution-IsGapFree row one =
    Keeps-exec _
      λ db v. same_next db _ (λ s. next_id-add row s db one) (unfold add_execution in refl) v

insert_execution-IsGapFree :
    (row : Execution) → row.next_event_id ≡ 1 → Keeps IsGapFree (insert_execution row)
unfolding insert_execution
insert_execution-IsGapFree row one = search (keeps_rules, add_execution-IsGapFree) depth 7

close-IsGapFree :
    (r : Run) (s : WorkflowStatus) (now : Time) → Keeps IsGapFree (exec (close_execution r s now))
close-IsGapFree r s now = Keeps-exec _ λ db v.
    same_next db _ (λ q. next_id-close r q s now db)
      (unfold close_execution update_execution in refl) v

pub IsGapFree-rules : TableRules IsGapFree
IsGapFree-rules = record {
  frame = same_ids;
  appends = append_events-IsGapFree;
  inserts = λ r p now. insert_execution-IsGapFree (new_execution r p now) refl;
  closes = λ r s now _. close-IsGapFree r s now;
}
