-- ===== src/Replay/Index.antt =====
-- `newEnvironment` of sdk/workflow/environment.go: the projections of a history.
use chronos_engine.Prelude.{
  ℕ, zero, suc, negsuc, ltb_ℤ, leb_ℤ, String, Option, none, some, List, [], ◌∷◌, ◌++◌, Bool, true,
  false, ◌&&◌, nat_eq, ◌==◌, if◌then◌else◌, length,
}
use chronos_engine.Messages.{Time, Attributes, HistoryEvent}
use chronos_engine.Replay.Types.{ActivityState, Environment}

-- The zero `time.Time`, in nanoseconds from the Unix epoch.
abbrev pub zero_time : Time
zero_time = negsuc 62135596799999999999

-- The environment being built. The maps lead from an event to the place in the list of the state
-- that it made.
pub record Indexing : Type 0 where
  pub env : Environment
  pub by_scheduled_id : List (ℕ × ℕ)
  pub timer_by_started_id : List (ℕ × ℕ)

unfoldable pub place : ℕ → List (ℕ × ℕ) → Option ℕ
place id [] = none
place id ((k, i) ∷ m) = if k == id then some i else place id m

unfoldable pub modify_at {ℓ} : {A : Type ℓ} → ℕ → (A → A) → List A → List A
modify_at i f [] = []
modify_at zero f (x ∷ xs) = f x ∷ xs
modify_at (suc i) f (x ∷ xs) = x ∷ modify_at i f xs

abbrev pub modify_place {ℓ} : {A : Type ℓ} → Option ℕ → (A → A) → List A → List A
modify_place none f xs = xs
modify_place (some i) f xs = modify_at i f xs

abbrev pub new_state : String → ActivityState
new_state activity_type = record {
  activity_type = activity_type;
  completed = false;
  failed = false;
  result = [];
  failure = none;
}

-- The clock is the latest event time.
abbrev pub advance : Option Time → Time → Time
advance none now = now
advance (some t) now = if ltb_ℤ now t then t else now

abbrev tick : HistoryEvent → Environment → Environment
tick e env = record env { now = advance e.event_time env.now }

-- The type switch of the loop.
unfoldable pub index_attributes : ℕ → Option Attributes → Indexing → Indexing
index_attributes id (some (Attributes.workflow_execution_started _ _ input _)) x = record x {
  env = record x.env { input = input };
}
index_attributes id (some (Attributes.activity_task_scheduled _ activity_type _ _ _ _ _)) x =
    record x {
      env = record x.env { activities = x.env.activities ++ new_state activity_type ∷ [] };
      by_scheduled_id = (id, length x.env.activities) ∷ x.by_scheduled_id;
    }
index_attributes id (some (Attributes.activity_task_completed s result)) x = record x {
  env = record x.env {
    activities =
        modify_place (place s x.by_scheduled_id)
          (λ st. record st { completed = true; result = result }) x.env.activities;
  };
}
index_attributes id (some (Attributes.activity_task_failed s failure _)) x = record x {
  env = record x.env {
    activities =
        modify_place (place s x.by_scheduled_id)
          (λ st. record st { failed = true; failure = failure }) x.env.activities;
  };
}
index_attributes id (some (Attributes.timer_started _ _ _)) x = record x {
  env = record x.env { timers = x.env.timers ++ record { fired = false } ∷ [] };
  timer_by_started_id = (id, length x.env.timers) ∷ x.timer_by_started_id;
}
index_attributes id (some (Attributes.timer_fired _ s)) x = record x {
  env = record x.env {
    timers =
        modify_place (place s x.timer_by_started_id) (λ st. record st { fired = true })
          x.env.timers;
  };
}
index_attributes id (some (Attributes.workflow_execution_signaled name input)) x = record x {
  env = record x.env {
    signals = x.env.signals ++ record { name = name; input = input; consumed = false } ∷ [];
  };
}
index_attributes id (some (Attributes.workflow_execution_completed _)) x = record x {
  env = record x.env { terminated = true };
}
index_attributes id (some (Attributes.workflow_execution_failed _)) x = record x {
  env = record x.env { terminated = true };
}
index_attributes id _ x = x

unfoldable pub index_event : HistoryEvent → Indexing → Indexing
index_event e x = index_attributes e.event_id e.attributes (record x { env = tick e x.env })

unfoldable pub index_history : List HistoryEvent → Indexing → Indexing
index_history [] x = x
index_history (e ∷ es) x = index_history es (index_event e x)

abbrev pub blank : String → Indexing
blank task_queue = record {
  env = record {
    input = [];
    now = zero_time;
    task_queue = task_queue;
    terminated = false;
    activities = [];
    timers = [];
    signals = [];
    activity_seq = 0;
    timer_seq = 0;
    new_commands = [];
    replaying = true;
  };
  by_scheduled_id = [];
  timer_by_started_id = [];
}

abbrev pub is_zero_time : Time → Bool
is_zero_time t = leb_ℤ t zero_time && leb_ℤ zero_time t

-- `clock` is `time.Now()`, for a history without times.
unfoldable pub new_environment : String → List HistoryEvent → Time → Environment
new_environment task_queue history clock =
    let env = (index_history history (blank task_queue)).env in
    record env { now = if is_zero_time env.now then clock else env.now }
