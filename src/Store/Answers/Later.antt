-- ===== src/Store/Answers/Later.antt =====
-- Answers that come after the completion of an activity task, whatever happens in between.
use chronos_engine.Prelude.{
  ℕ, ◌<◌, String, Option, none, some, List, [], ◌∷◌, All, Bool, true, not, nat_eq, ◌==◌, ==_iff,
  ◌≡◌, refl, ap, arith, Bool-cases, inl, inr, first,
}
use chronos_engine.Messages.{Bytes, Time, Failure}
use chronos_engine.Core.{Float64}
use chronos_engine.Store.Tables.{ActivityRow, Db, empty_db}
use chronos_engine.Store.Monad.{ok, err, row_or, task_lost}
use chronos_engine.Store.Keeps.{bind-inv, row_or-inv}
use chronos_engine.Store.Activities.{find_activity, complete_activity_task, fail_activity_task}
use chronos_engine.Store.Calls.{Call, run_calls}
use chronos_engine.Store.CallRules.{run_calls-Keeps}
use chronos_engine.Store.Statements.{call_rules}
use chronos_engine.Store.Answers.{IsGone, complete-IsGone, complete_gone, fail_gone}
use chronos_engine.Store.Answers.Tokens.{Passes, Admits, Admits-rules}

abbrev any : ℕ → Bool
any n = true

abbrev but : ℕ → ℕ → Bool
but token n = not (n == token)

-- The row that is found is below the sequence.
found_below :
    (token seq : ℕ) (rows : List ActivityRow) (t : ActivityRow)
    → All (Passes any seq) rows
    → first (λ x. x.task_id == token) rows ≡ some t
    → token < seq
unfolding first
found_below token seq [] t h e = cc
found_below token seq (x ∷ rows) t h e = elim (Bool-cases (x.task_id == token)) [
  | inl k ↦ omega (arith, h.0.0, (==_iff x.task_id token).0 k)
  | inr k ↦ found_below token seq rows t h.1 (ground (arith, e, k))
]

none_left :
    (token seq : ℕ) (rows : List ActivityRow)
    → All (Passes any seq) rows
    → first (λ x. x.task_id == token) rows ≡ none
    → All (Passes (but token) seq) rows
unfolding first
none_left token seq [] h e = tt
none_left token seq (x ∷ rows) h e = elim (Bool-cases (x.task_id == token)) [
  | inl k ↦ (let no : ⊥ = ground (arith, e, k) in absurd no)
  | inr k ↦ ((h.0.0, ap not k), none_left token seq rows h.1 (ground (arith, e, k)))
]

still_none :
    (token seq : ℕ) (rows : List ActivityRow)
    → All (Passes (but token) seq) rows
    → first (λ x. x.task_id == token) rows ≡ none
unfolding first
still_none token seq [] h = refl
still_none token seq (x ∷ rows) h = ground (arith, h.0.1, still_none token seq rows h.1)

module _ (fl : Float64) (cs : List (Time × Call)) (token : ℕ) (identity : String) (result : Bytes)
    (now : Time) (u : Unit {0}) (db' : Db)
    (done : complete_activity_task token identity result now (run_calls fl empty_db cs)
      ≡ ok (u, db')) where
  abbrev db : Db
  db = run_calls fl empty_db cs

  reached : Admits any any db
  reached =
      run_calls-Keeps (call_rules (Admits-rules any any (λ n h. h)) fl) empty_db cs
        (unfold Admits in (tt, λ n h. refl))

  given : token < db.activity_task_seq
  unfolding complete_activity_task find_activity Admits
  given =
      let (t, mid, found, rest) =
        bind-inv (row_or task_lost (find_activity token)) _ db {b = u} {db' = db'} done in
      found_below token db.activity_task_seq db.activity_tasks t reached.0
        (row_or-inv task_lost (find_activity token) db found).0

  before : Admits any (but token) db
  unfolding Admits
  before = (reached.0, λ n h. ground (arith, h, given))

  completed : Admits any (but token) db'
  completed =
      let rules = call_rules (Admits-rules any (but token) (λ n h. refl)) fl in
      (rules.completes_activity token identity result now).at db before u db' done

  settled : Admits (but token) (but token) db'
  unfolding Admits find_activity
  settled = (
    none_left token db'.activity_task_seq db'.activity_tasks completed.0
        (complete-IsGone token identity result now db u db' done),
    completed.1,
  )

  run_calls-IsGone : (later : List (Time × Call)) → IsGone token (run_calls fl db' later)
  unfolding Admits find_activity
  run_calls-IsGone later =
      still_none token _ (run_calls fl db' later).activity_tasks
        (run_calls-Keeps (call_rules (Admits-rules (but token) (but token) (λ n h. h)) fl) db' later
          settled).0

-- An activity is completed once. Once the completion of an activity task has been committed, on a database that calls
-- of the store lead to, every answer for its token that comes later is refused with `ErrTaskLost`: after whatever
-- calls, which may schedule further activities, whichever worker sends it, and whether it is a completion or a failure.
pub complete_activity_once :
    (fl : Float64) (cs : List (Time × Call)) (token : ℕ) (identity : String) (result : Bytes)
    (now : Time) (u : Unit {0}) (db' : Db) (between : List (Time × Call)) (other : String)
    (again : Bytes) (later : Time) (f : Option Failure) (retryable : Bool)
    → complete_activity_task token identity result now (run_calls fl empty_db cs) ≡ ok (u, db')
    → (complete_activity_task token other again later (run_calls fl db' between) ≡ err task_lost)
      × (fail_activity_task fl token other f retryable later (run_calls fl db' between)
          ≡ err task_lost)
complete_activity_once fl cs token identity result now u db' between other again later f retryable
      h =
    let gone = run_calls-IsGone fl cs token identity result now u db' h between in
    (
      complete_gone token other again later (run_calls fl db' between) gone,
      fail_gone fl token other f retryable later (run_calls fl db' between) gone,
    )
