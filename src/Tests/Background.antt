-- ===== src/Tests/Background.antt =====
-- The timer service and the gauges of cmd/chronos-server/main.go, and Migrate of
-- internal/storage/postgres/postgres.go.
use Prim.Native.Nat.{◌+◌, min}
use chronos_engine.Store.Queries.{IsCounted}
use chronos_engine.Prelude.{count, not, ◌&&◌, leb_ℤ, arith}
use chronos_engine.Prelude.{
  pos, String, Option, some, List, [], ◌∷◌, All, exists, select, true, false, length, string_eq,
  ◌==◌, if◌then◌else◌, ◌≡◌, refl,
}
use chronos_engine.Messages.{WorkflowStatus}
use chronos_engine.Store.Tables.{Db, empty_db}
use chronos_engine.Store.Monad.{ok, order_by, insert_by}
use chronos_engine.Store.Workflows.{is_status}
use chronos_engine.Store.Timers.{due_timers, fire_due_timers}
use chronos_engine.Store.Calls.{run_calls}
use chronos_engine.Store.Fired.Due.{due_timers_fire}
use chronos_engine.Store.Migrations.{
  Entry, Versions, migration_names, migrate_one, migrate_names, migrate,
}
use chronos_engine.Store.Migrations.Reruns.{migrate_twice}
use chronos_engine.Server.Background.{timer_tick, status_label, update_stats}
use chronos_engine.Server.Gauges.{tick_counts, gauges_updated}
use chronos_engine.Tests.Fixtures.{whole, waited, order_row}
use chronos_engine.Tests.Activities.{no_counts}

due_timers_fire_example :
    (db' : Db) × (fire_due_timers (pos 4000) (pos 0) (run_calls whole empty_db waited)
      ≡ ok (length (due_timers (pos 4000) (pos 0) (run_calls whole empty_db waited)), db'))
due_timers_fire_example = due_timers_fire whole waited (pos 4000) (pos 0)

tick_counts_example :
    let db = run_calls whole empty_db waited in
    (timer_tick (pos 4000) no_counts db).0.timers_fired
    ≡ no_counts.timers_fired
      + min 500 (count (λ t. not t.fired && leb_ℤ t.fire_at (pos 4000)) db.timers)
tick_counts_example = tick_counts whole waited (pos 4000) no_counts

-- The last failed execution has left its status.
abbrev one_running_db : Db
one_running_db = record empty_db { executions = order_row ∷ [] }

running_IsCounted : IsCounted (WorkflowStatus.running ∷ []) one_running_db.executions
unfolding count
running_IsCounted WorkflowStatus.running h = refl
running_IsCounted WorkflowStatus.unspecified h = absurd (omega (arith, h))
running_IsCounted WorkflowStatus.completed h = absurd (omega (arith, h))
running_IsCounted WorkflowStatus.failed h = absurd (omega (arith, h))
running_IsCounted WorkflowStatus.timed_out h = absurd (omega (arith, h))
running_IsCounted WorkflowStatus.terminated h = absurd (omega (arith, h))

gauges_updated_example :
    update_stats
      (WorkflowStatus.running ∷ [])
      one_running_db
      (λ label. 3)
      (status_label WorkflowStatus.failed)
    ≡ (if exists (λ e. is_status e.status WorkflowStatus.failed) one_running_db.executions
        then count (λ e. is_status e.status WorkflowStatus.failed) one_running_db.executions
        else 3)
gauges_updated_example =
    gauges_updated (WorkflowStatus.running ∷ []) one_running_db (λ label. 3) WorkflowStatus.failed
      running_IsCounted

abbrev embedded : List Entry
embedded =
    record { name = "0002_demo_ledger.sql"; is_dir = false }
    ∷ record { name = "embed.go"; is_dir = false }
    ∷ record { name = "0001_init.sql"; is_dir = false }
    ∷ []

-- A schema is the list of the bodies that ran.
abbrev as_body : String → Option String
as_body name = some name

abbrev run_body : String → List String → Option (List String)
run_body body schema = some (body ∷ schema)

abbrev fresh : Versions (List String)
fresh = record { schema = []; applied = [] }

abbrev migrated : Versions (List String)
migrated = record {
  schema = "0002_demo_ledger.sql" ∷ "0001_init.sql" ∷ [];
  applied = "0001_init.sql" ∷ "0002_demo_ledger.sql" ∷ [];
}

first_migrate : migrate as_body run_body embedded fresh ≡ some migrated
unfolding migrate migrate_names migrate_one migration_names exists select order_by insert_by
first_migrate = refl

migrate_twice_example :
    All (λ name. exists (λ n. n == name) migrated.applied ≡ true) (migration_names embedded)
    × (migrate as_body run_body embedded migrated ≡ some migrated)
migrate_twice_example = migrate_twice as_body run_body embedded fresh migrated first_migrate
