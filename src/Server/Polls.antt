-- ===== src/Server/Polls.antt =====
-- The long polls of internal/server/server.go, with the options of the service. What happens between two
-- polls of a call is a parameter: the readings of the clock, the end of the call's context, and the calls of
-- others that the store serves.
use chronos_engine.Prelude.{
  ℕ, zero, suc, ◌+◌, pos, ◌+ℤ◌, ltb_ℤ, leb_ℤ, String, Option, none, some, List, [], Bool, true,
  false, not, if◌then◌else◌,
}
use chronos_engine.Messages.{Time, Duration}
use chronos_engine.Core.{Float64}
use chronos_engine.Store.Tables.{Run, WorkflowTask, ActivityTask, Db}
use chronos_engine.Store.Monad.{Result, ok, err, Tx}
use chronos_engine.Store.Commands.{poll_workflow_task}
use chronos_engine.Store.Activities.{poll_activity_task}
use chronos_engine.Store.Calls.{Call, run_calls}
use chronos_engine.Server.{Metrics, replies, rejects, Served, to_status}

pub record Options : Type 0 where
  pub lease : Duration
  pub poll_wait : Duration

-- Of `Service`, the two durations.
pub record Service : Type 0 where
  pub lease : Duration
  pub poll_wait : Duration

unfoldable pub new_service : Options → Service
new_service opts = record {
  lease = if leb_ℤ opts.lease (pos 0) then pos 30000000000 else opts.lease;
  poll_wait = if leb_ℤ opts.poll_wait (pos 0) then pos 5000000000 else opts.poll_wait;
}

-- One round of the loop, as the world makes it: when the store is asked, what `time.Now` says in
-- `sleepPoll`, whether the context ends before the sleep does, and the calls served meanwhile.
pub record Round : Type 0 where
  pub polled_at : Time
  pub checked_at : Time
  pub cancelled : Bool
  pub served : List (Time × Call)

unfoldable pub sleep_poll : Time → Round → Bool
sleep_poll deadline r = if ltb_ℤ deadline r.checked_at then false else not r.cancelled

module _ {A : Type 0} (counts : Metrics → Metrics) (empty : A) where
  -- What a round makes of the store's answer; `next` is the rest of the loop.
  unfoldable pub after_poll :
      Result (Option A × Db) → Bool → Metrics → Db → (Db → Option (Served A)) → Option (Served A)
  after_poll (err e) again m db next =
      some (record { reply = rejects (to_status e); metrics = m; db = db })
  after_poll (ok (some task, db')) again m db next =
      some (record { reply = replies task; metrics = counts m; db = db' })
  after_poll (ok (none, db')) true m db next = next db'
  after_poll (ok (none, db')) false m db next =
      some (record { reply = replies empty; metrics = m; db = db' })

  -- At most `fuel` rounds from the round `n` on.
  unfoldable pub long_poll :
      Float64
      → (Time → Tx (Option A))
      → ℕ
      → ℕ
      → Time
      → (ℕ → Round)
      → Metrics
      → Db
      → Option (Served A)
  long_poll fl poll zero n deadline rounds m db = none
  long_poll fl poll (suc fuel) n deadline rounds m db =
      after_poll (poll (rounds n).polled_at db) (sleep_poll deadline (rounds n)) m db
        λ db'. long_poll fl poll fuel (suc n) deadline rounds m (run_calls fl db' (rounds n).served)

abbrev no_run : Run
no_run = record { workflow_id = ""; run_id = "" }

-- The empty messages: every field has its zero value.
abbrev pub no_workflow_task : WorkflowTask
no_workflow_task = record {
  task_token = 0;
  run = no_run;
  workflow_type = "";
  history = [];
  started_event_id = 0;
}

abbrev pub no_activity_task : ActivityTask
no_activity_task = record {
  task_token = 0;
  run = no_run;
  activity_id = "";
  activity_type = "";
  input = [];
  attempt = pos 0;
  scheduled_event_id = 0;
}

abbrev count_workflow_task : Metrics → Metrics
count_workflow_task m = record m { workflow_tasks_polled = m.workflow_tasks_polled + 1 }

abbrev count_activity_task : Metrics → Metrics
count_activity_task m = record m {
  activity_tasks_polled = m.activity_tasks_polled + 1;
  activities_started = m.activities_started + 1;
}

-- `start` is the reading of the clock at the start of the call.
unfoldable pub serve_poll_workflow_task :
    Float64
    → Service
    → ℕ
    → Time
    → String
    → String
    → (ℕ → Round)
    → Metrics
    → Db
    → Option (Served WorkflowTask)
serve_poll_workflow_task fl s fuel start queue identity rounds m db =
    long_poll count_workflow_task no_workflow_task fl (poll_workflow_task queue identity s.lease)
      fuel 0 (start +ℤ s.poll_wait) rounds m db

unfoldable pub serve_poll_activity_task :
    Float64
    → Service
    → ℕ
    → Time
    → String
    → String
    → (ℕ → Round)
    → Metrics
    → Db
    → Option (Served ActivityTask)
serve_poll_activity_task fl s fuel start queue identity rounds m db =
    long_poll count_activity_task no_activity_task fl (poll_activity_task queue identity s.lease)
      fuel 0 (start +ℤ s.poll_wait) rounds m db
