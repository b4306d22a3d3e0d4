-- ===== src/Replay/Opened.antt =====
-- Replay of clock-free code on a history that has the events of a decision's commands, whatever their times,
-- in sdk/workflow/environment.go.
use chronos_engine.Prelude.{
  String, List, [], ◌∷◌, ◌++◌, false, if◌then◌else◌, ◌≡◌, refl, sym, ap, ◌∙◌,
}
use chronos_engine.Messages.{Bytes, Time, HistoryEvent, Command}
use chronos_engine.Replay.Types.{Environment, Definition, Fmt}
use chronos_engine.Replay.Index.{
  Indexing, advance, is_zero_time, blank, index_event, index_history, new_environment,
}
use chronos_engine.Replay.Engine.{decide, execute}
use chronos_engine.Replay.Fresh.{is_closed}
use chronos_engine.Replay.Resume.{recorded, execute-recorded}
use chronos_engine.Replay.Recorded.{
  Opens, index_attributes-Opens, recorded-append, recorded-nil, index_history-append,
}
use chronos_engine.Replay.Clock.{IsClockFree, at, decide-at}

-- The events of some commands, in their order.
pub data Opened : List Command → List HistoryEvent → Type 0 where
  none_opened : Opened [] []
  one_opened :
      (c : Command) (cs : List Command) (e : HistoryEvent) (es : List HistoryEvent)
      → Opens c e.attributes
      → Opened cs es
      → Opened (c ∷ cs) (e ∷ es)

pub Opened-append :
    (cs ds : List Command) (es fs : List HistoryEvent)
    → Opened cs es
    → Opened ds fs
    → Opened (cs ++ ds) (es ++ fs)
Opened-append cs ds es fs none_opened k = k
Opened-append cs ds es fs (one_opened c cs' e es' o h) k =
    one_opened c _ e _ o (Opened-append cs' ds es' fs h k)

index_event-moved :
    (c : Command) (e : HistoryEvent) (x : Indexing)
    → Opens c e.attributes
    → (index_event e x).env ≡ at (advance e.event_time x.env.now) (recorded x.env (c ∷ []))
unfolding index_event
index_event-moved c e x o = index_attributes-Opens e.event_id c e.attributes _ o

index_history-moved :
    (cs : List Command) (es : List HistoryEvent) (x : Indexing)
    → Opened cs es
    → (t : Time) × ((index_history es x).env ≡ at t (recorded x.env cs))
unfolding index_history
index_history-moved cs es x none_opened = (x.env.now, sym (recorded-nil x.env))
index_history-moved cs es x (one_opened c ds e fs o rest) =
    let (t, moved) = index_history-moved ds fs (index_event e x) rest in
    (
      t,
      moved
          ∙ ap (λ env. at t (recorded env ds)) (index_event-moved c e x o)
          ∙ ap (at t) (recorded-append x.env (c ∷ []) ds),
    )

new_environment-moved :
    (task_queue : String) (history : List HistoryEvent) (clock clock' : Time) (cs : List Command)
    (es : List HistoryEvent)
    → Opened cs es
    → (t : Time) × (new_environment task_queue (history ++ es) clock'
        ≡ at t (recorded (new_environment task_queue history clock) cs))
unfolding new_environment
new_environment-moved task_queue history clock clock' cs es o =
    let x = index_history history (blank task_queue) in
    let (t, moved) = index_history-moved cs es x o in
    let now : Time = if is_zero_time t then clock' else t in
    (
      now,
      ap {A = Environment}
          (λ env. record env { now = if is_zero_time env.now then clock' else env.now })
          (ap (λ y. y.env) (index_history-append history es (blank task_queue)) ∙ moved),
    )

-- For code that does not read its clock: where a decision on an open history does not complete the workflow,
-- and the history is extended by an ActivityTaskScheduled or a TimerStarted event for each command of the
-- decision, in its order and at any times, a decision on the extended history, at any clock, emits no command
-- and still waits.
pub execute_extended :
    (fmt : Fmt) (def : Definition) (task_queue : String) (history : List HistoryEvent)
    (clock clock' : Time) (es : List HistoryEvent)
    → ((input : Bytes) → IsClockFree (def input))
    → is_closed history ≡ false
    → (execute fmt def task_queue history clock).completed ≡ false
    → Opened (execute fmt def task_queue history clock).commands es
    → execute fmt def task_queue (history ++ es) clock'
      ≡ record { commands = []; completed = false }
execute_extended fmt def task_queue history clock clock' es free open_ waits o =
    let cs = (execute fmt def task_queue history clock).commands in
    let e = recorded (new_environment task_queue history clock) cs in
    let (t, moved) = new_environment-moved task_queue history clock clock' cs es o in
    unfolded (history ++ es)
    ∙ ap (decide fmt def) moved
    ∙ decide-at fmt def t e (free e.input)
    ∙ execute-recorded fmt def task_queue history clock open_ waits
  where
    unfolded :
        (h : List HistoryEvent)
        → execute fmt def task_queue h clock' ≡ decide fmt def (new_environment task_queue h clock')
    unfolded h = unfold execute in refl
