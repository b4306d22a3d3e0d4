-- ===== src/Replay/Decisions.antt =====
-- The commands of a decision, in sdk/workflow/environment.go.
use chronos_engine.Prelude.{String, List, [], true, false, ◌≡◌, refl, ◌∙◌, ap, count}
use chronos_engine.Messages.{Time, HistoryEvent}
use chronos_engine.Replay.Types.{Definition, Fmt}
use chronos_engine.Replay.Index.{new_environment}
use chronos_engine.Replay.Engine.{decide, execute}
use chronos_engine.Replay.Fresh.{is_closed, new_environment-IsFresh, new_environment-terminated}
use chronos_engine.Replay.Commands.{closes, IsWellFormed, decide-IsWellFormed}

-- On a history without a closing event, a decision that completes the workflow ends with the one command that
-- closes it, and a decision that waits has no such command.
pub execute-IsWellFormed :
    (fmt : Fmt) (def : Definition) (task_queue : String) (history : List HistoryEvent)
    (clock : Time)
    → is_closed history ≡ false
    → IsWellFormed (execute fmt def task_queue history clock)
unfolding execute count closes
execute-IsWellFormed fmt def task_queue history clock h =
    decide-IsWellFormed fmt def (new_environment task_queue history clock)
      (new_environment-terminated task_queue history clock ∙ h)
      (ap (count closes) ((new_environment-IsFresh task_queue history clock).2))

-- On a history with a closing event, wherever it stands, the decision is complete and has no command, whatever
-- the workflow's code.
pub execute_closed :
    (fmt : Fmt) (def : Definition) (task_queue : String) (history : List HistoryEvent)
    (clock : Time)
    → is_closed history ≡ true
    → execute fmt def task_queue history clock ≡ record { commands = []; completed = true }
unfolding execute decide
execute_closed fmt def task_queue history clock h =
    simp (new_environment-terminated task_queue history clock, h) refl
