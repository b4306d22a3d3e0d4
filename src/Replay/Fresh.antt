-- ===== src/Replay/Fresh.antt =====
-- What indexing a history leaves alone, and when it finds the workflow closed, in
-- sdk/workflow/environment.go.
use chronos_engine.Prelude.{
  ℕ, Option, none, some, List, [], ◌∷◌, Bool, true, false, ◌≡◌, refl, ◌∙◌, ap, arith, exists,
  if◌then◌else◌,
}
use chronos_engine.Messages.{Time, Attributes, HistoryEvent}
use chronos_engine.Replay.Types.{Environment}
use chronos_engine.Replay.Index.{
  Indexing, index_attributes, index_event, index_history, new_environment, blank,
}

-- The parts of a context that only a run changes.
abbrev pub IsFresh : Environment → Type 0
IsFresh e = (e.activity_seq ≡ 0) × (e.timer_seq ≡ 0) × (e.new_commands ≡ [])

unfoldable pub closes_attributes : Option Attributes → Bool
closes_attributes (some (Attributes.workflow_execution_completed _)) = true
closes_attributes (some (Attributes.workflow_execution_failed _)) = true
closes_attributes _ = false

-- Whether a history has the event that closes its workflow.
unfoldable pub is_closed : List HistoryEvent → Bool
is_closed history = exists (λ e. closes_attributes e.attributes) history

-- One event keeps a context fresh, and closes it if it is the closing one.
Indexes : Option Attributes → Indexing → Indexing → Type 0
Indexes a x y =
    (IsFresh x.env → IsFresh y.env)
    × (y.env.terminated ≡ (if closes_attributes a then true else x.env.terminated))

index_attributes_lem :
    (id : ℕ) (a : Option Attributes) (x : Indexing) → Indexes a x (index_attributes id a x)
unfolding Indexes index_attributes closes_attributes
index_attributes_lem id none x = (λ h. h, refl)
index_attributes_lem id (some (Attributes.workflow_execution_started _ _ _ _)) x = (λ h. h, refl)
index_attributes_lem id (some (Attributes.activity_task_scheduled _ _ _ _ _ _ _)) x = (λ h. h, refl)
index_attributes_lem id (some (Attributes.activity_task_started _ _ _)) x = (λ h. h, refl)
index_attributes_lem id (some (Attributes.activity_task_completed _ _)) x = (λ h. h, refl)
index_attributes_lem id (some (Attributes.activity_task_failed _ _ _)) x = (λ h. h, refl)
index_attributes_lem id (some (Attributes.activity_task_retry_scheduled _ _ _ _)) x = (λ h. h, refl)
index_attributes_lem id (some (Attributes.timer_started _ _ _)) x = (λ h. h, refl)
index_attributes_lem id (some (Attributes.timer_fired _ _)) x = (λ h. h, refl)
index_attributes_lem id (some (Attributes.workflow_execution_signaled _ _)) x = (λ h. h, refl)
index_attributes_lem id (some (Attributes.workflow_execution_completed _)) x = (λ h. h, refl)
index_attributes_lem id (some (Attributes.workflow_execution_failed _)) x = (λ h. h, refl)

index_event_lem : (e : HistoryEvent) (x : Indexing) → Indexes e.attributes x (index_event e x)
unfolding index_event Indexes
index_event_lem e x = index_attributes_lem e.event_id e.attributes _

index_history-IsFresh :
    (es : List HistoryEvent) (x : Indexing) → IsFresh x.env → IsFresh (index_history es x).env
unfolding index_history Indexes
index_history-IsFresh [] x h = h
index_history-IsFresh (e ∷ es) x h =
    index_history-IsFresh es (index_event e x) ((index_event_lem e x).0 h)

if_or :
    (a b c : Bool)
    → (if a then true else (if b then true else c)) ≡ (if (if b then true else a) then true else c)
if_or a b c = ground arith

index_history-terminated :
    (es : List HistoryEvent) (x : Indexing)
    → (index_history es x).env.terminated ≡ (if is_closed es then true else x.env.terminated)
unfolding index_history Indexes is_closed exists
index_history-terminated [] x = refl
index_history-terminated (e ∷ es) x =
    index_history-terminated es (index_event e x)
    ∙ ap (λ t. if is_closed es then true else t) ((index_event_lem e x).1)
    ∙ if_or (is_closed es) (closes_attributes e.attributes) x.env.terminated

or_false : (b : Bool) → (if b then true else false) ≡ b
or_false b = ground arith

pub new_environment-IsFresh :
    (task_queue : _) (history : List HistoryEvent) (clock : Time)
    → IsFresh (new_environment task_queue history clock)
unfolding new_environment
new_environment-IsFresh task_queue history clock =
    index_history-IsFresh history (blank task_queue) (refl, refl, refl)

pub new_environment-terminated :
    (task_queue : _) (history : List HistoryEvent) (clock : Time)
    → (new_environment task_queue history clock).terminated ≡ is_closed history
unfolding new_environment
new_environment-terminated task_queue history clock =
    index_history-terminated history (blank task_queue) ∙ or_false (is_closed history)
