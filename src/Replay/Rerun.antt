-- ===== src/Replay/Rerun.antt =====
-- A second run of a workflow, on the activities and timers that the first one left, in
-- sdk/workflow/environment.go.
use chronos_engine.Prelude.{
  ℕ, zero, suc, ◌≤◌, String, Option, none, some, List, [], ◌∷◌, ◌++◌, Bool, false, ◌≡◌, refl, ap,
  ◌∙◌, inl, inr, append_assoc, length, length-append, Bool-cases, Option-cases, get_elem?,
  string_eq, ◌==◌, ==_refl, arith,
}
use chronos_engine.Messages.{Bytes, Duration, Command}
use chronos_engine.Replay.Types.{
  ActivityOptions, ActivityState, TimerState, Environment, Workflow, Fmt, Future,
}
use chronos_engine.Replay.Index.{new_state}
use chronos_engine.Replay.Engine.{
  Outcome, ok, raises, dispatch_activity, activity_call, timer_call, and_then, execute_activity,
  new_timer, receive_signal, await_signal, get, Ending, run, recall_activity, pending,
}
use chronos_engine.Replay.Commands.{
  placeholders, timer_placeholders, Grows, run-Grows, steps, and_then-Grows, activity_call-Grows,
  timer_call-Grows,
}

-- The elements of a list, where it is extended: those it had, and the first new one.
get_elem?-append {ℓ} :
    {A : Type ℓ} (xs ys : List A) (i : ℕ) (x : A)
    → get_elem? xs i ≡ some x
    → get_elem? (xs ++ ys) i ≡ some x
get_elem?-append [] ys i x h = cc
get_elem?-append (y ∷ xs) ys zero x h = h
get_elem?-append (y ∷ xs) ys (suc i) x h = get_elem?-append xs ys i x h

get_elem?-end {ℓ} :
    {A : Type ℓ} (xs ys : List A) (i : ℕ) (y : A)
    → get_elem? xs i ≡ none
    → i ≤ length xs
    → get_elem? (xs ++ y ∷ ys) i ≡ some y
get_elem?-end [] ys zero y h le = refl
get_elem?-end [] ys (suc i) y h le = absurd (omega arith)
get_elem?-end (x ∷ xs) ys zero y h le = cc
get_elem?-end (x ∷ xs) ys (suc i) y h le = get_elem?-end xs ys i y h (omega arith)

-- A place that a list has is below its length.
get_elem?-length {ℓ} :
    {A : Type ℓ} (xs : List A) (i : ℕ) (x : A) → get_elem? xs i ≡ some x → suc i ≤ length xs
get_elem?-length [] i x h = cc
get_elem?-length (y ∷ xs) zero x h = omega arith
get_elem?-length (y ∷ xs) (suc i) x h = omega (arith, get_elem?-length xs i x h)

-- The context of a decision whose predecessor left these activities and timers.
abbrev pub again :
    Environment → List ActivityState → List TimerState → List Command → Bool → Environment
again e acts ts cs b = record e { activities = acts; timers = ts; new_commands = cs; replaying = b }

abbrev pub IsCounted : Environment → Type 0
IsCounted e = (e.activity_seq ≤ length e.activities) × (e.timer_seq ≤ length e.timers)

-- An activity that was just dispatched is recalled as pending.
recall_activity-new : (idx : ℕ) (t : String) → recall_activity idx t (new_state t) ≡ ok pending
unfolding recall_activity
recall_activity-new idx t = elim (Bool-cases (t == "")) [
  | inl h ↦ rw h refl
  | inr h ↦ rw (h, ==_refl t) refl
]

-- What an activity call and the rest of the workflow come to.
abbrev after : Fmt → Environment × Outcome Future → (Future → Workflow) → Environment × Ending
after fmt called k = and_then called.0 called.1 λ f. run fmt called.0 (k f)

-- A second run that ends like the first and emits nothing new, where it starts from the activities and timers
-- that the first one left.
abbrev pub Resumes :
    List ActivityState
    → List TimerState
    → List Command
    → Environment × Ending
    → Environment × Ending
    → Type 0
Resumes acts ts cs x y =
    acts ≡ x.0.activities → ts ≡ x.0.timers → (y.1 ≡ x.1) × (y.0.new_commands ≡ cs)

and_then-Resumes {ℓ} :
    {A : Type ℓ} (acts : List ActivityState) (ts : List TimerState) (cs : List Command)
    (e f : Environment) (o : Outcome A) (k l : A → Environment × Ending)
    → f.new_commands ≡ cs
    → ((a : A) → Resumes acts ts cs (k a) (l a))
    → Resumes acts ts cs (and_then e o k) (and_then f o l)
unfolding and_then
and_then-Resumes acts ts cs e f (ok a) k l h hk = hk a
and_then-Resumes acts ts cs e f (raises p) k l h hk = λ _ _. (refl, h)

module _ (fmt : Fmt) (e : Environment) (t : String) (input : Option Bytes) (opts : ActivityOptions)
    (k : Future → Workflow) (acts : List ActivityState) (ts : List TimerState) (cs : List Command)
    (b : Bool) (counted : IsCounted e)
    (ih : (f : Future) (e' : Environment) (b' : Bool)
      → IsCounted e'
      → Resumes acts ts cs (run fmt e' (k f)) (run fmt (again e' acts ts cs b') (k f))) where
  abbrev call : Environment → Option ActivityState → Environment × Ending
  call e' o = after fmt (activity_call fmt e' t input opts o) k

  recalled :
      (st : ActivityState)
      → get_elem? e.activities e.activity_seq ≡ some st
      → Resumes acts ts cs
          (call e (some st))
          (call (again e acts ts cs b) (get_elem? acts e.activity_seq))
  unfolding activity_call
  recalled st h ha ht =
      let g : Grows e (call e (some st)).0 =
        and_then-Grows e _ _ _ (activity_call-Grows fmt e t input opts (some st))
          λ f. run-Grows fmt (k f) _ in
      let known : get_elem? acts e.activity_seq ≡ some st =
        rw (ha, g.activities)
          (get_elem?-append e.activities (placeholders g.new) e.activity_seq st h) in
      rw known (
        and_then-Resumes acts ts cs _ _ (recall_activity e.activity_seq t st) _ _ refl
          (λ f.
            ih f (record e { activity_seq = suc e.activity_seq }) b
              (get_elem?-length e.activities e.activity_seq st h, counted.1))
          ha ht)

  dispatched :
      (payload : Bytes)
      → input ≡ some payload
      → get_elem? e.activities e.activity_seq ≡ none
      → Resumes acts ts cs
          (call e none)
          (call (again e acts ts cs b) (get_elem? acts e.activity_seq))
  unfolding activity_call dispatch_activity and_then placeholders
  dispatched payload hi h = rw hi λ ha ht.
      let e' =
        (dispatch_activity fmt e.activity_seq (record e { activity_seq = suc e.activity_seq }) t
          (some payload) opts).0 in
      let g : Grows e' (run fmt e' (k pending)).0 = run-Grows fmt (k pending) e' in
      let known : get_elem? acts e.activity_seq ≡ some (new_state t) =
        ap (λ l. get_elem? l e.activity_seq)
          (ha ∙ g.activities ∙ append_assoc e.activities (new_state t ∷ []) (placeholders g.new))
        ∙ get_elem?-end e.activities (placeholders g.new) e.activity_seq (new_state t) h
            counted.0 in
      rw (known, recall_activity-new e.activity_seq t)
        (ih pending e' b
          (omega (arith, length-append e.activities (new_state t ∷ []), counted.0), counted.1) ha
          ht)

  unencodable :
      input ≡ none
      → get_elem? e.activities e.activity_seq ≡ none
      → Resumes acts ts cs
          (call e none)
          (call (again e acts ts cs b) (get_elem? acts e.activity_seq))
  unfolding activity_call dispatch_activity and_then
  unencodable hi h = rw hi λ ha ht. rw (ha, h) (refl, refl)

  activity-Resumes :
      Resumes acts ts cs
        (run fmt e (Workflow.executes_activity t input opts k))
        (run fmt (again e acts ts cs b) (Workflow.executes_activity t input opts k))
  unfolding run execute_activity
  activity-Resumes = elim (Option-cases (get_elem? e.activities e.activity_seq)) [
    | inr (st, h) ↦ rw h (recalled st h)
    | inl h ↦ elim (Option-cases input) [
      | inl hi ↦ rw h (unencodable hi h)
      | inr (payload, hi) ↦ rw h (dispatched payload hi h)
    ]
  ]

module _ (fmt : Fmt) (e : Environment) (d : Duration) (k : Future → Workflow)
    (acts : List ActivityState) (ts : List TimerState) (cs : List Command) (b : Bool)
    (counted : IsCounted e)
    (ih : (f : Future) (e' : Environment) (b' : Bool)
      → IsCounted e'
      → Resumes acts ts cs (run fmt e' (k f)) (run fmt (again e' acts ts cs b') (k f))) where
  abbrev tcall : Environment → Option TimerState → Environment × Ending
  tcall e' o = run fmt (timer_call fmt e' d o).0 (k (timer_call fmt e' d o).1)

  timer_recalled :
      (st : TimerState)
      → get_elem? e.timers e.timer_seq ≡ some st
      → Resumes acts ts cs
          (tcall e (some st))
          (tcall (again e acts ts cs b) (get_elem? ts e.timer_seq))
  unfolding timer_call
  timer_recalled st h ha ht =
      let c = timer_call fmt e d (some st) in
      let g : Grows e (tcall e (some st)).0 =
        steps e c.0 _ (timer_call-Grows fmt e d (some st)) (run-Grows fmt (k c.1) c.0) in
      let known : get_elem? ts e.timer_seq ≡ some st =
        rw (ht, g.timers) (get_elem?-append e.timers (timer_placeholders g.new) e.timer_seq st h) in
      rw known (ih c.1 c.0 b (counted.0, get_elem?-length e.timers e.timer_seq st h) ha ht)

  started :
      get_elem? e.timers e.timer_seq ≡ none
      → Resumes acts ts cs (tcall e none) (tcall (again e acts ts cs b) (get_elem? ts e.timer_seq))
  unfolding timer_call timer_placeholders
  started h ha ht =
      let e' = (timer_call fmt e d none).0 in
      let st : TimerState = record { fired = false } in
      let g : Grows e' (run fmt e' (k pending)).0 = run-Grows fmt (k pending) e' in
      let known : get_elem? ts e.timer_seq ≡ some st =
        ap (λ l. get_elem? l e.timer_seq)
          (ht ∙ g.timers ∙ append_assoc e.timers (st ∷ []) (timer_placeholders g.new))
        ∙ get_elem?-end e.timers (timer_placeholders g.new) e.timer_seq st h counted.1 in
      rw known (
        ih pending e' b (counted.0, omega (arith, length-append e.timers (st ∷ []), counted.1)) ha
          ht)

  timer_either :
      Resumes acts ts cs
        (tcall e (get_elem? e.timers e.timer_seq))
        (tcall (again e acts ts cs b) (get_elem? ts e.timer_seq))
  timer_either = elim (Option-cases (get_elem? e.timers e.timer_seq)) [
    | inr (st, h) ↦ rw h (timer_recalled st h)
    | inl h ↦ rw h (started h)
  ]

  timer-Resumes :
      Resumes acts ts cs
        (run fmt e (Workflow.starts_timer d k))
        (run fmt (again e acts ts cs b) (Workflow.starts_timer d k))
  unfolding run new_timer
  timer-Resumes = timer_either

-- A second run of a workflow, from the activities and timers that the first one left, ends the same way and
-- emits nothing.
pub run-Resumes :
    (fmt : Fmt) (w : Workflow) (e : Environment) (acts : List ActivityState) (ts : List TimerState)
    (cs : List Command) (b : Bool)
    → IsCounted e
    → Resumes acts ts cs (run fmt e w) (run fmt (again e acts ts cs b) w)
unfolding run receive_signal await_signal
run-Resumes fmt (Workflow.returns _) e acts ts cs b h = λ _ _. (refl, refl)
run-Resumes fmt (Workflow.fails _) e acts ts cs b h = λ _ _. (refl, refl)
run-Resumes fmt (Workflow.panics _) e acts ts cs b h = λ _ _. (refl, refl)
run-Resumes fmt (Workflow.executes_activity t input opts k) e acts ts cs b h =
    activity-Resumes fmt e t input opts k acts ts cs b h
      λ f e' b' h'. run-Resumes fmt (k f) e' acts ts cs b' h'
run-Resumes fmt (Workflow.starts_timer d k) e acts ts cs b h =
    timer-Resumes fmt e d k acts ts cs b h λ f e' b' h'. run-Resumes fmt (k f) e' acts ts cs b' h'
run-Resumes fmt (Workflow.gets f k) e acts ts cs b h =
    and_then-Resumes acts ts cs e (again e acts ts cs b) (get f) _ _ refl
      λ r. run-Resumes fmt (k r) e acts ts cs b h
run-Resumes fmt (Workflow.asks_ready f k) e acts ts cs b h =
    run-Resumes fmt (k f.ready) e acts ts cs b h
run-Resumes fmt (Workflow.reads_now k) e acts ts cs b h = run-Resumes fmt (k e.now) e acts ts cs b h
run-Resumes fmt (Workflow.receives_signal name k) e acts ts cs b h =
    run-Resumes fmt (k (receive_signal e name).1) (receive_signal e name).0 acts ts cs b h
run-Resumes fmt (Workflow.awaits_signal name k) e acts ts cs b h =
    let e' = (await_signal e name).0 in
    and_then-Resumes acts ts cs e' (again e' acts ts cs b) (await_signal e name).1 _ _ refl
      λ input. run-Resumes fmt (k input) e' acts ts cs b h
