-- ===== src/Store/Decided.antt =====
-- The events that `CompleteWorkflowTask` writes for the commands of a decision that does not close the
-- workflow, in internal/storage/postgres/tasks.go.
use mathlib.Core.Path.{subst}
use chronos_engine.Prelude.{
  ℕ, ◌≡◌, refl, sym, ap, ◌∙◌, Bool, false, String, some, List, [], ◌∷◌, ◌++◌, append-nil,
  append_assoc, arith, pos, map, All, All-append, map-append, count,
}
use chronos_engine.Messages.{
  Time, EventType, Attributes, Command, RetryPolicy, ScheduleActivityTaskCommand, StartTimerCommand,
}
use chronos_engine.Core.{Float64}
use chronos_engine.Store.Tables.{Run, HistoryRow, TaskRow, Db}
use chronos_engine.Store.Monad.{ok, pure, when, row_or, task_lost}
use chronos_engine.Store.Keeps.{bind-inv, row_or-inv, when-inv, ok-injective}
use chronos_engine.Store.Events.{event, stamp, append_events}
use chronos_engine.Store.Commands.{
  insert_activity, apply_schedule_activity, or_default, add_timer, insert_timer, apply_start_timer,
  apply_command, apply_commands, not_owner, find_workflow_task, delete_workflow_task,
  complete_workflow_task,
}
use chronos_engine.Store.Once.{append-Appended}
use chronos_engine.Store.Once.Schedules.{insert_activity-inv}
use chronos_engine.Replay.Commands.{closes}
use chronos_engine.Replay.Recorded.{Opens, opens_activity, opens_timer}
use chronos_engine.Replay.Opened.{Opened, none_opened, one_opened, Opened-append}

-- The database has these rows more, all of them of the run, with the events of the commands.
pub record Writes (r : Run) (cs : List Command) (db db' : Db) : Type 0 where
  pub rows : List HistoryRow
  pub added : db'.history_events ≡ db.history_events ++ rows
  pub own : All (λ (row : HistoryRow). row.run ≡ r) rows
  pub opened : Opened cs (map (λ (row : HistoryRow). row.data_event) rows)

insert_timer-inv :
    (r : Run) (n : ℕ) (name : String) (at : Time) (db : Db) (u : Unit {0}) (db' : Db)
    → insert_timer r n name at db ≡ ok (u, db')
    → db' ≡ add_timer r n name at db
unfolding insert_timer
insert_timer-inv r n name at db u db' h = ground arith

-- A statement that leaves the history alone.
one_row :
    (r : Run) (now : Time) (type : EventType) (a : Attributes) (c : Command) (db : Db) (n : ℕ)
    (mid db' : Db)
    → append_events r now (event type a ∷ []) db ≡ ok (n, mid)
    → db'.history_events ≡ mid.history_events
    → Opens c (some a)
    → Writes r (c ∷ []) db db'
one_row r now type a c db n mid db' appended same o = record {
  rows = record { run = r; event_id = n; data_event = stamp (event type a) n now } ∷ [];
  added = same ∙ (append-Appended r now (event type a) db n mid appended).rows;
  own = (refl, tt);
  opened = one_opened c [] _ [] o none_opened;
}

schedule-Writes :
    (fl : Float64) (r : Run) (now : Time) (cmd : ScheduleActivityTaskCommand) (db : Db)
    (u : Unit {0}) (db' : Db)
    → apply_schedule_activity fl r now cmd db ≡ ok (u, db')
    → Writes r (Command.schedule_activity_task cmd ∷ []) db db'
unfolding apply_schedule_activity
schedule-Writes fl r now cmd db u db' h =
    let retry : RetryPolicy = or_default fl cmd.retry_policy in
    let a : Attributes =
      Attributes.activity_task_scheduled cmd.activity_id cmd.activity_type cmd.task_queue cmd.input
        (some retry) cmd.start_to_close_timeout (pos 1) in
    let (n, mid, appended, rest) =
      bind-inv (append_events r now (event EventType.activity_task_scheduled a ∷ []))
        (λ n. insert_activity r n cmd retry now) db {b = u} {db' = db'} h in
    one_row r now EventType.activity_task_scheduled a (Command.schedule_activity_task cmd) db n mid
      db' appended
      (ap (λ x. x.history_events) (insert_activity-inv r n cmd retry now mid u db' rest))
      (opens_activity cmd cmd.activity_id cmd.task_queue cmd.input (some retry)
        cmd.start_to_close_timeout (pos 1))

timer-Writes :
    (r : Run) (now : Time) (cmd : StartTimerCommand) (db : Db) (u : Unit {0}) (db' : Db)
    → apply_start_timer r now cmd db ≡ ok (u, db')
    → Writes r (Command.start_timer cmd ∷ []) db db'
unfolding apply_start_timer
timer-Writes r now cmd db u db' h =
    let (n, mid, appended, rest) = bind-inv (append_events r now _) _ db {b = u} {db' = db'} h in
    one_row r now EventType.timer_started _ (Command.start_timer cmd) db n mid db' appended
      (ap (λ x. x.history_events) (insert_timer-inv r n cmd.timer_id _ mid u db' rest))
      (opens_timer cmd cmd.timer_id cmd.start_to_fire_timeout _)

command-Writes :
    (fl : Float64) (r : Run) (now : Time) (c : Command) (db : Db) (b : Bool) (db' : Db)
    → closes c ≡ false
    → apply_command fl r now c db ≡ ok (b, db')
    → (b ≡ false) × Writes r (c ∷ []) db db'
unfolding apply_command closes
command-Writes fl r now (Command.schedule_activity_task a) db b db' o h =
    let (u, mid, applied, rest) =
      bind-inv (apply_schedule_activity fl r now a) (λ _. pure false) db {b = b} {db' = db'} h in
    let done = ok-injective rest in
    (
      sym done.0,
      subst (Writes r (Command.schedule_activity_task a ∷ []) db) done.1
          (schedule-Writes fl r now a db u mid applied),
    )
command-Writes fl r now (Command.start_timer a) db b db' o h =
    let (u, mid, applied, rest) =
      bind-inv (apply_start_timer r now a) (λ _. pure false) db {b = b} {db' = db'} h in
    let done = ok-injective rest in
    (
      sym done.0,
      subst (Writes r (Command.start_timer a ∷ []) db) done.1
          (timer-Writes r now a db u mid applied),
    )
command-Writes fl r now (Command.complete_workflow_execution _) db b db' o h = cc
command-Writes fl r now (Command.fail_workflow_execution _) db b db' o h = cc
command-Writes fl r now Command.unset db b db' o h = cc

Writes-nil : (r : Run) (db db' : Db) → db'.history_events ≡ db.history_events → Writes r [] db db'
Writes-nil r db db' same = record {
  rows = [];
  added = same ∙ sym (append-nil db.history_events);
  own = tt;
  opened = none_opened;
}

Writes-append :
    (r : Run) (cs ds : List Command) (db mid db' : Db)
    → Writes r cs db mid
    → Writes r ds mid db'
    → Writes r (cs ++ ds) db db'
Writes-append r cs ds db mid db' v w = record {
  rows = v.rows ++ w.rows;
  added = w.added ∙ ap (λ l. l ++ w.rows) v.added ∙ append_assoc db.history_events v.rows w.rows;
  own = All-append (λ (row : HistoryRow). row.run ≡ r) v.rows w.rows v.own w.own;
  opened =
      subst (Opened (cs ++ ds)) (sym (map-append _ v.rows w.rows))
        (Opened-append cs ds _ _ v.opened w.opened);
}

commands-Writes :
    (fl : Float64) (r : Run) (now : Time) (cs : List Command) (db : Db) (u : Unit {0}) (db' : Db)
    → count closes cs ≡ 0
    → apply_commands fl r now false cs db ≡ ok (u, db')
    → Writes r cs db db'
unfolding apply_commands count
commands-Writes fl r now [] db u db' o h =
    Writes-nil r db db' (ap (λ x. x.history_events) (sym (ok-injective h).1))
commands-Writes fl r now (c ∷ cs) db u db' o h =
    let (b, mid, applied, rest) =
      bind-inv (apply_command fl r now c) (λ b. apply_commands fl r now b cs) db {b = u} {db' = db'}
        h in
    let (goes_on, w) = command-Writes fl r now c db b mid (ground (arith, o)) applied in
    Writes-append r (c ∷ []) cs db mid db' w (
      commands-Writes fl r now cs mid u db' (ground (arith, o))
        (ap (λ b. apply_commands fl r now b cs mid) (sym goes_on) ∙ rest))

history-delete :
    (token : ℕ) (db : Db) → (delete_workflow_task token db).history_events ≡ db.history_events
unfolding delete_workflow_task
history-delete token db = refl

pub complete-Writes :
    (fl : Float64) (token : ℕ) (identity : String) (cs : List Command) (now : Time) (db : Db)
    (t : TaskRow) (u : Unit {0}) (db' : Db)
    → find_workflow_task token db ≡ some t
    → count closes cs ≡ 0
    → complete_workflow_task fl token identity cs now db ≡ ok (u, db')
    → Writes t.run cs db db'
unfolding complete_workflow_task
complete-Writes fl token identity cs now db t u db' known o h =
    let (s, db₁, found, h₁) =
      bind-inv (row_or task_lost (find_workflow_task token)) _ db {b = u} {db' = db'} h in
    let (read, same₁) = row_or-inv task_lost (find_workflow_task token) db found in
    let (v, db₂, passed, h₂) =
      bind-inv (when (not_owner s.locked_by identity) task_lost) _ db₁ {b = u} {db' = db'} h₁ in
    let same₂ = (when-inv (not_owner s.locked_by identity) task_lost db₁ passed).1 in
    let (w, db₃, applied, h₃) =
      bind-inv (apply_commands fl s.run now false cs) _ db₂ {b = u} {db' = db'} h₂ in
    let written : Writes s.run cs db₂ db₃ = commands-Writes fl s.run now cs db₂ w db₃ o applied in
    let same_task : s ≡ t = some-injective (sym read ∙ known) in
    let done : db'.history_events ≡ db₃.history_events =
      ap (λ x. x.history_events) (sym (ok-injective h₃).1) ∙ history-delete token db₃ in
    subst (λ q. Writes q cs db db') (ap (λ (x : TaskRow). x.run) same_task)
      (moved s.run db₂ db₃ (same₁ ∙ same₂) done written)
  where
    some-injective : {a b : TaskRow} → some a ≡ some b → a ≡ b
    some-injective e = cc

    moved :
        (r : Run) (mid grown : Db)
        → db ≡ mid
        → db'.history_events ≡ grown.history_events
        → Writes r cs mid grown
        → Writes r cs db db'
    moved r mid grown same done w = record {
      rows = w.rows;
      added = done ∙ w.added ∙ ap (λ x. x.history_events ++ w.rows) (sym same);
      own = w.own;
      opened = w.opened;
    }
