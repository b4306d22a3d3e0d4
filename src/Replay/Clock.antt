-- ===== src/Replay/Clock.antt =====
-- Workflow code that does not read its clock, in sdk/workflow/environment.go.
use chronos_engine.Prelude.{
  true, String, Option, none, some, [], ◌≡◌, refl, ap, ◌∙◌, if◌then◌else◌, get_elem?,
}
use chronos_engine.Messages.{Bytes, Time, Duration}
use chronos_engine.Replay.Types.{
  ActivityOptions, ActivityState, TimerState, Environment, Workflow, Definition, Fmt,
}
use chronos_engine.Replay.Engine.{
  Outcome, ok, raises, dispatch_activity, activity_call, execute_activity, timer_call, new_timer,
  receive_signal, await_signal, get, Ending, and_then, run, conclude, decide,
}

-- No call of the code is `Now`, whatever the other calls return.
unfoldable pub IsClockFree : Workflow → Type 0
IsClockFree (Workflow.returns _) = Unit
IsClockFree (Workflow.fails _) = Unit
IsClockFree (Workflow.panics _) = Unit
IsClockFree (Workflow.executes_activity _ _ _ k) = (f : _) → IsClockFree (k f)
IsClockFree (Workflow.starts_timer _ k) = (f : _) → IsClockFree (k f)
IsClockFree (Workflow.gets _ k) = (r : _) → IsClockFree (k r)
IsClockFree (Workflow.asks_ready _ k) = (b : _) → IsClockFree (k b)
IsClockFree (Workflow.reads_now _) = ⊥
IsClockFree (Workflow.receives_signal _ k) = (o : _) → IsClockFree (k o)
IsClockFree (Workflow.awaits_signal _ k) = (input : _) → IsClockFree (k input)

-- The context with another clock.
abbrev pub at : Time → Environment → Environment
at t e = record e { now = t }

abbrev Moved : Time → Environment × Ending → Environment × Ending → Type 0
Moved t x y = y ≡ (at t x.0, x.1)

activity_call-at :
    (fmt : Fmt) (t : Time) (e : Environment) (activity_type : String) (input : Option Bytes)
    (opts : ActivityOptions) (o : Option ActivityState)
    → activity_call fmt (at t e) activity_type input opts o ≡ (
      at t (activity_call fmt e activity_type input opts o).0,
      (activity_call fmt e activity_type input opts o).1,
    )
unfolding activity_call dispatch_activity
activity_call-at fmt t e activity_type input opts (some st) = refl
activity_call-at fmt t e activity_type none opts none = refl
activity_call-at fmt t e activity_type (some payload) opts none = refl

timer_call-at :
    (fmt : Fmt) (t : Time) (e : Environment) (d : Duration) (o : Option TimerState)
    → timer_call fmt (at t e) d o ≡ (at t (timer_call fmt e d o).0, (timer_call fmt e d o).1)
unfolding timer_call
timer_call-at fmt t e d (some st) = refl
timer_call-at fmt t e d none = refl

and_then-Moved {ℓ} :
    {A : Type ℓ} (t : Time) (e : Environment) (o : Outcome A) (k l : A → Environment × Ending)
    → ((a : A) → Moved t (k a) (l a))
    → Moved t (and_then e o k) (and_then (at t e) o l)
unfolding and_then
and_then-Moved t e (ok a) k l h = h a
and_then-Moved t e (raises p) k l h = refl

-- A run of clock-free code does the same at every clock.
run-Moved :
    (fmt : Fmt) (t : Time) (w : Workflow) (e : Environment)
    → IsClockFree w
    → Moved t (run fmt e w) (run fmt (at t e) w)
unfolding run receive_signal await_signal IsClockFree execute_activity new_timer
run-Moved fmt t (Workflow.returns _) e h = refl
run-Moved fmt t (Workflow.fails _) e h = refl
run-Moved fmt t (Workflow.panics _) e h = refl
run-Moved fmt t (Workflow.executes_activity a input opts k) e h =
    let o = get_elem? e.activities e.activity_seq in
    let called = activity_call fmt e a input opts o in
    ap (λ c. and_then c.0 c.1 (λ f. run fmt c.0 (k f))) (activity_call-at fmt t e a input opts o)
    ∙ and_then-Moved t called.0 called.1 _ _ (λ f. run-Moved fmt t (k f) called.0 (h f))
run-Moved fmt t (Workflow.starts_timer d k) e h =
    let called = timer_call fmt e d (get_elem? e.timers e.timer_seq) in
    ap (λ c. run fmt c.0 (k c.1)) (timer_call-at fmt t e d (get_elem? e.timers e.timer_seq))
    ∙ run-Moved fmt t (k called.1) called.0 (h called.1)
run-Moved fmt t (Workflow.gets f k) e h =
    and_then-Moved t e (get f) _ _ λ r. run-Moved fmt t (k r) e (h r)
run-Moved fmt t (Workflow.asks_ready f k) e h = run-Moved fmt t (k f.ready) e (h f.ready)
run-Moved fmt t (Workflow.reads_now k) e h = elim h [ ]
run-Moved fmt t (Workflow.receives_signal name k) e h =
    let called = receive_signal e name in run-Moved fmt t (k called.1) called.0 (h called.1)
run-Moved fmt t (Workflow.awaits_signal name k) e h =
    let called = await_signal e name in
    and_then-Moved t called.0 called.1 _ _ λ input. run-Moved fmt t (k input) called.0 (h input)

pub decide-at :
    (fmt : Fmt) (def : Definition) (t : Time) (e : Environment)
    → IsClockFree (def e.input)
    → decide fmt def (at t e) ≡ decide fmt def e
unfolding decide
decide-at fmt def t e h =
    ap
      (λ x.
        if e.terminated
        then record { commands = []; completed = true }
        else conclude fmt x.0.new_commands x.1)
      (run-Moved fmt t (def e.input) e h)
