-- ===== src/Replay/Resume.antt =====
-- Replay after the commands of a decision are recorded, in sdk/workflow/environment.go.
use chronos_engine.Prelude.{
  String, List, [], ◌++◌, false, ◌≡◌, refl, sym, ap, ◌∙◌, string_eq, arith,
}
use chronos_engine.Messages.{HistoryEvent, Time, Command}
use chronos_engine.Replay.Types.{Environment, Definition, Panic, Fmt}
use chronos_engine.Replay.Index.{new_environment}
use chronos_engine.Replay.Engine.{
  Ending, returned, errored, panicked, run, conclude, decide, execute,
}
use chronos_engine.Replay.Fresh.{
  IsFresh, is_closed, new_environment-IsFresh, new_environment-terminated,
}
use chronos_engine.Replay.Rerun.{run-Resumes}
use chronos_engine.Replay.Commands.{placeholders, timer_placeholders, Grows, run-Grows}

-- What a decision of an open workflow leaves: the run's ending on its commands.
decide-open :
    (fmt : Fmt) (def : Definition) (e : Environment)
    → e.terminated ≡ false
    → decide fmt def e
      ≡ conclude fmt (run fmt e (def e.input)).0.new_commands (run fmt e (def e.input)).1
unfolding decide
decide-open fmt def e h = simp h refl

waits :
    (fmt : Fmt) (cs ds : List Command) (end : Ending)
    → (conclude fmt cs end).completed ≡ false
    → ((conclude fmt cs end).commands ≡ cs)
      × (conclude fmt ds end ≡ record { commands = ds; completed = false })
unfolding conclude
waits fmt cs ds (panicked Panic.blocked) h = (refl, refl)
waits fmt cs ds (panicked (Panic.nondeterministic _ _ _)) h = cc
waits fmt cs ds (panicked Panic.encode_failed) h = cc
waits fmt cs ds (panicked (Panic.application _)) h = cc
waits fmt cs ds (errored message) h = cc
waits fmt cs ds (returned out) h = cc

-- The context in which a workflow is decided again, once the history has the activities and the
-- timers of these commands.
abbrev pub recorded : Environment → List Command → Environment
recorded e cs = record e {
  activities = e.activities ++ placeholders cs;
  timers = e.timers ++ timer_placeholders cs;
}

decide-recorded :
    (fmt : Fmt) (def : Definition) (e : Environment)
    → IsFresh e
    → e.terminated ≡ false
    → (decide fmt def e).completed ≡ false
    → decide fmt def (recorded e (decide fmt def e).commands)
      ≡ record { commands = []; completed = false }
decide-recorded fmt def e (ha, ht, hc) open_ h =
    let ran = run fmt e (def e.input) in
    let r = decide fmt def e in
    let g : Grows e ran.0 = run-Grows fmt (def e.input) e in
    let unfolded : r ≡ conclude fmt ran.0.new_commands ran.1 = decide-open fmt def e open_ in
    let w = waits fmt ran.0.new_commands [] ran.1 (sym (ap (λ r. r.completed) unfolded) ∙ h) in
    let emitted : r.commands ≡ g.new =
      ap (λ r. r.commands) unfolded ∙ w.0 ∙ g.commands ∙ ap (λ l. l ++ g.new) hc in
    let same =
      run-Resumes fmt (def e.input) e (recorded e r.commands).activities
        (recorded e r.commands).timers e.new_commands e.replaying
        (omega (arith, ha), omega (arith, ht))
        (ap (λ cs. e.activities ++ placeholders cs) emitted ∙ sym g.activities)
        (ap (λ cs. e.timers ++ timer_placeholders cs) emitted ∙ sym g.timers) in
    decide-open fmt def (recorded e r.commands) open_
    ∙ ap (λ l. conclude fmt l (run fmt (recorded e r.commands) (def e.input)).1) (same.1 ∙ hc)
    ∙ ap (conclude fmt []) same.0
    ∙ w.1

-- A workflow that waits is not decided twice: where a decision on an open history does not complete the
-- workflow, deciding again on the history's context with the activities and timers of the emitted commands
-- emits no command and still waits.
pub execute-recorded :
    (fmt : Fmt) (def : Definition) (task_queue : String) (history : List HistoryEvent)
    (clock : Time)
    → is_closed history ≡ false
    → (execute fmt def task_queue history clock).completed ≡ false
    → decide fmt def (
        recorded
          (new_environment task_queue history clock)
          (execute fmt def task_queue history clock).commands)
      ≡ record { commands = []; completed = false }
unfolding execute
execute-recorded fmt def task_queue history clock h =
    decide-recorded fmt def (new_environment task_queue history clock)
      (new_environment-IsFresh task_queue history clock)
      (new_environment-terminated task_queue history clock ∙ h)
