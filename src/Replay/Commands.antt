-- ===== src/Replay/Commands.antt =====
-- What a run of a workflow adds to its context, and the commands of a decision, in
-- sdk/workflow/environment.go.
use chronos_engine.Prelude.{
  suc, String, Option, none, some, List, [], ◌∷◌, ◌++◌, Bool, true, false, ◌≡◌, refl, sym, ap, ◌∙◌,
  append-nil, append_assoc, count, string_eq, arith,
}
use chronos_engine.Prelude.Counting.{count-append}
use chronos_engine.Messages.{Bytes, Duration, Command}
use chronos_engine.Replay.Types.{
  ActivityOptions, ActivityState, TimerState, Environment, Workflow, Definition, Panic, Fmt,
  DecisionResult,
}
use chronos_engine.Replay.Index.{new_state}
use chronos_engine.Replay.Engine.{
  Outcome, ok, raises, schedule_command, timer_command, dispatch_activity, activity_call,
  timer_call, and_then, execute_activity, new_timer, receive_signal, await_signal, Ending, returned,
  errored, panicked, run, conclude, decide,
}

-- The states that the history will have for the activities and timers of some commands.
unfoldable pub placeholders : List Command → List ActivityState
placeholders [] = []
placeholders (Command.schedule_activity_task c ∷ cs) = new_state c.activity_type ∷ placeholders cs
placeholders (_ ∷ cs) = placeholders cs

unfoldable pub timer_placeholders : List Command → List TimerState
timer_placeholders [] = []
timer_placeholders (Command.start_timer c ∷ cs) = record { fired = false } ∷ timer_placeholders cs
timer_placeholders (_ ∷ cs) = timer_placeholders cs

unfoldable pub closes : Command → Bool
closes (Command.complete_workflow_execution _) = true
closes (Command.fail_workflow_execution _) = true
closes _ = false

pub placeholders-append :
    (cs ds : List Command) → placeholders (cs ++ ds) ≡ placeholders cs ++ placeholders ds
unfolding placeholders
placeholders-append [] ds = refl
placeholders-append (Command.schedule_activity_task c ∷ cs) ds =
    ap (λ l. new_state c.activity_type ∷ l) (placeholders-append cs ds)
placeholders-append (Command.start_timer _ ∷ cs) ds = placeholders-append cs ds
placeholders-append (Command.complete_workflow_execution _ ∷ cs) ds = placeholders-append cs ds
placeholders-append (Command.fail_workflow_execution _ ∷ cs) ds = placeholders-append cs ds
placeholders-append (Command.unset ∷ cs) ds = placeholders-append cs ds

pub timer_placeholders-append :
    (cs ds : List Command)
    → timer_placeholders (cs ++ ds) ≡ timer_placeholders cs ++ timer_placeholders ds
unfolding timer_placeholders
timer_placeholders-append [] ds = refl
timer_placeholders-append (Command.start_timer c ∷ cs) ds =
    ap (λ l. record { fired = false } ∷ l) (timer_placeholders-append cs ds)
timer_placeholders-append (Command.schedule_activity_task _ ∷ cs) ds =
    timer_placeholders-append cs ds
timer_placeholders-append (Command.complete_workflow_execution _ ∷ cs) ds =
    timer_placeholders-append cs ds
timer_placeholders-append (Command.fail_workflow_execution _ ∷ cs) ds =
    timer_placeholders-append cs ds
timer_placeholders-append (Command.unset ∷ cs) ds = timer_placeholders-append cs ds

-- The commands that lead from one context to another, each with its placeholder.
pub record Grows (e f : Environment) : Type 0 where
  pub new : List Command
  pub commands : f.new_commands ≡ e.new_commands ++ new
  pub activities : f.activities ≡ e.activities ++ placeholders new
  pub timers : f.timers ≡ e.timers ++ timer_placeholders new
  pub all_open : count closes new ≡ 0

-- A call that touches none of the three lists.
stays :
    (e f : Environment)
    → f.new_commands ≡ e.new_commands
    → f.activities ≡ e.activities
    → f.timers ≡ e.timers
    → Grows e f
unfolding placeholders timer_placeholders count
stays e f hc ha ht = record {
  new = [];
  commands = hc ∙ sym (append-nil _);
  activities = ha ∙ sym (append-nil _);
  timers = ht ∙ sym (append-nil _);
  all_open = refl;
}

pub steps : (e f g : Environment) → Grows e f → Grows f g → Grows e g
steps e f g h i = record {
  new = h.new ++ i.new;
  commands = i.commands ∙ ap (λ l. l ++ i.new) h.commands ∙ append_assoc e.new_commands h.new i.new;
  activities =
      i.activities
      ∙ ap (λ l. l ++ placeholders i.new) h.activities
      ∙ append_assoc e.activities (placeholders h.new) (placeholders i.new)
      ∙ ap (λ l. e.activities ++ l) (sym (placeholders-append h.new i.new));
  timers =
      i.timers
      ∙ ap (λ l. l ++ timer_placeholders i.new) h.timers
      ∙ append_assoc e.timers (timer_placeholders h.new) (timer_placeholders i.new)
      ∙ ap (λ l. e.timers ++ l) (sym (timer_placeholders-append h.new i.new));
  all_open = omega (arith, count-append closes h.new i.new, h.all_open, i.all_open);
}

dispatch_activity-Grows :
    (fmt : Fmt) (idx : _) (e : Environment) (t : String) (input : Option Bytes)
    (opts : ActivityOptions)
    → Grows e (dispatch_activity fmt idx e t input opts).0
unfolding dispatch_activity placeholders timer_placeholders closes count
dispatch_activity-Grows fmt idx e t none opts = stays _ _ refl refl refl
dispatch_activity-Grows fmt idx e t (some payload) opts = record {
  new = schedule_command fmt idx e.task_queue t payload opts ∷ [];
  commands = refl;
  activities = refl;
  timers = sym (append-nil _);
  all_open = refl;
}

pub activity_call-Grows :
    (fmt : Fmt) (e : Environment) (t : String) (input : Option Bytes) (opts : ActivityOptions)
    (o : Option ActivityState)
    → Grows e (activity_call fmt e t input opts o).0
unfolding activity_call
activity_call-Grows fmt e t input opts none =
    let f = record e { activity_seq = suc e.activity_seq } in
    steps e f _ (stays _ _ refl refl refl)
      (dispatch_activity-Grows fmt e.activity_seq f t input opts)
activity_call-Grows fmt e t input opts (some st) = stays _ _ refl refl refl

pub timer_call-Grows :
    (fmt : Fmt) (e : Environment) (d : Duration) (o : Option TimerState)
    → Grows e (timer_call fmt e d o).0
unfolding timer_call placeholders timer_placeholders closes count
timer_call-Grows fmt e d none = record {
  new = timer_command fmt e.timer_seq d ∷ [];
  commands = refl;
  activities = sym (append-nil _);
  timers = refl;
  all_open = refl;
}
timer_call-Grows fmt e d (some st) = stays _ _ refl refl refl

pub and_then-Grows {ℓ} :
    {A : Type ℓ} (e f : Environment) (o : Outcome A) (k : A → Environment × Ending)
    → Grows e f
    → ((a : A) → Grows f (k a).0)
    → Grows e (and_then f o k).0
unfolding and_then
and_then-Grows e f (ok a) k h hk = steps e f _ h (hk a)
and_then-Grows e f (raises p) k h hk = h

-- A run adds commands to the context, each with its placeholder, and none of them closes the workflow.
pub run-Grows : (fmt : Fmt) (w : Workflow) (e : Environment) → Grows e (run fmt e w).0
unfolding run receive_signal await_signal execute_activity new_timer
run-Grows fmt (Workflow.returns _) e = stays _ _ refl refl refl
run-Grows fmt (Workflow.fails _) e = stays _ _ refl refl refl
run-Grows fmt (Workflow.panics _) e = stays _ _ refl refl refl
run-Grows fmt (Workflow.executes_activity t input opts k) e =
    and_then-Grows _ _ _ _ (activity_call-Grows fmt e t input opts _) λ f. run-Grows fmt (k f) _
run-Grows fmt (Workflow.starts_timer d k) e =
    steps _ _ _ (timer_call-Grows fmt e d _) (run-Grows fmt (k _) _)
run-Grows fmt (Workflow.gets f k) e =
    and_then-Grows e e _ _ (stays _ _ refl refl refl) λ r. run-Grows fmt (k r) e
run-Grows fmt (Workflow.asks_ready f k) e = run-Grows fmt (k f.ready) e
run-Grows fmt (Workflow.reads_now k) e = run-Grows fmt (k e.now) e
run-Grows fmt (Workflow.receives_signal name k) e =
    steps _ (receive_signal e name).0 _ (stays _ _ refl refl refl)
      (run-Grows fmt (k (receive_signal e name).1) _)
run-Grows fmt (Workflow.awaits_signal name k) e =
    and_then-Grows e (await_signal e name).0 _ _ (stays _ _ refl refl refl)
      λ input. run-Grows fmt (k input) _

-- How the commands of a decision end: with one command that closes the workflow and stands last
-- where the decision completes it, with none where it waits.
abbrev pub HasOneClose : DecisionResult → Type 0
HasOneClose r =
    (opened : List Command) × (last : Command) × (r.commands ≡ opened ++ last ∷ [])
    × (count closes opened ≡ 0)
    × (closes last ≡ true)

unfoldable pub IsWellFormed : DecisionResult → Type 0
IsWellFormed r = elim r.completed [ true ↦ HasOneClose r | false ↦ count closes r.commands ≡ 0 ]

conclude-IsWellFormed :
    (fmt : Fmt) (cs : List Command) (end : Ending)
    → count closes cs ≡ 0
    → IsWellFormed (conclude fmt cs end)
unfolding conclude IsWellFormed closes
conclude-IsWellFormed fmt cs (panicked Panic.blocked) h = h
conclude-IsWellFormed fmt cs (panicked (Panic.nondeterministic _ _ _)) h = (cs, _, refl, h, refl)
conclude-IsWellFormed fmt cs (panicked Panic.encode_failed) h = (cs, _, refl, h, refl)
conclude-IsWellFormed fmt cs (panicked (Panic.application _)) h = (cs, _, refl, h, refl)
conclude-IsWellFormed fmt cs (errored message) h = (cs, _, refl, h, refl)
conclude-IsWellFormed fmt cs (returned out) h = (cs, _, refl, h, refl)

count-closes-Grows :
    (e f : Environment)
    → Grows e f
    → count closes e.new_commands ≡ 0
    → count closes f.new_commands ≡ 0
count-closes-Grows e f g h =
    omega
      (arith, count-append closes e.new_commands g.new, ap (count closes) g.commands, g.all_open)

pub decide-IsWellFormed :
    (fmt : Fmt) (def : Definition) (env : Environment)
    → env.terminated ≡ false
    → count closes env.new_commands ≡ 0
    → IsWellFormed (decide fmt def env)
unfolding decide
decide-IsWellFormed fmt def env open_ fresh =
    let ran = run fmt env (def env.input) in
    let none_close : count closes ran.0.new_commands ≡ 0 =
      count-closes-Grows env ran.0 (run-Grows fmt (def env.input) env) fresh in
    simp open_ (conclude-IsWellFormed fmt ran.0.new_commands ran.1 none_close)
