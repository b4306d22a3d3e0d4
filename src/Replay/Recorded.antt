-- ===== src/Replay/Recorded.antt =====
-- Replay of a history that has the events of a decision's commands, in sdk/workflow/environment.go.
use mathlib.Core.Path.{ap₂}
use chronos_engine.Prelude.{
  ℕ, ℤ, String, Option, some, List, [], ◌∷◌, ◌++◌, ◌≡◌, refl, sym, ap, ◌∙◌, append-nil,
  append_assoc,
}
use chronos_engine.Messages.{Bytes, Time, Duration, Attributes, RetryPolicy, HistoryEvent, Command}
use chronos_engine.Replay.Types.{Environment}
use chronos_engine.Replay.Index.{Indexing, index_attributes, index_event, index_history}
use chronos_engine.Replay.Commands.{
  placeholders, timer_placeholders, placeholders-append, timer_placeholders-append,
}
use chronos_engine.Replay.Resume.{recorded}

-- An event that opens what a command asks for: an activity of the command's type, or a timer.
pub data Opens : Command → Option Attributes → Type 0 where
  opens_activity :
      (c : _) (id queue : String) (input : Bytes) (p : Option RetryPolicy) (d : Option Duration)
      (attempt : ℤ)
      → Opens
          (Command.schedule_activity_task c)
          (some (Attributes.activity_task_scheduled id c.activity_type queue input p d attempt))
  opens_timer :
      (c : _) (id : String) (d : Option Duration) (fire_at : Option Time)
      → Opens (Command.start_timer c) (some (Attributes.timer_started id d fire_at))

pub index_attributes-Opens :
    (id : ℕ) (c : Command) (a : Option Attributes) (x : Indexing)
    → Opens c a
    → (index_attributes id a x).env ≡ recorded x.env (c ∷ [])
unfolding index_attributes placeholders timer_placeholders
index_attributes-Opens id c a x (opens_activity _ _ _ _ _ _ _) =
    ap (λ ts. record x.env { activities = x.env.activities ++ placeholders (c ∷ []); timers = ts })
      (sym (append-nil x.env.timers))
index_attributes-Opens id c a x (opens_timer _ _ _ _) =
    ap
      (λ acts. record x.env {
        activities = acts;
        timers = x.env.timers ++ timer_placeholders (c ∷ []);
      })
      (sym (append-nil x.env.activities))

pub recorded-append :
    (env : Environment) (cs ds : List Command)
    → recorded (recorded env cs) ds ≡ recorded env (cs ++ ds)
recorded-append env cs ds =
    ap₂ (λ acts ts. record env { activities = acts; timers = ts })
      (append_assoc env.activities (placeholders cs) (placeholders ds)
        ∙ ap (λ l. env.activities ++ l) (sym (placeholders-append cs ds)))
      (append_assoc env.timers (timer_placeholders cs) (timer_placeholders ds)
        ∙ ap (λ l. env.timers ++ l) (sym (timer_placeholders-append cs ds)))

pub recorded-nil : (env : Environment) → recorded env [] ≡ env
unfolding placeholders timer_placeholders
recorded-nil env =
    ap₂ (λ acts ts. record env { activities = acts; timers = ts }) (append-nil env.activities)
      (append-nil env.timers)

pub index_history-append :
    (h es : List HistoryEvent) (x : Indexing)
    → index_history (h ++ es) x ≡ index_history es (index_history h x)
unfolding index_history
index_history-append [] es x = refl
index_history-append (e ∷ h) es x = index_history-append h es (index_event e x)
