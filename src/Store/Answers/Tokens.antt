-- ===== src/Store/Answers/Tokens.antt =====
-- The tokens of activity tasks, in internal/storage/postgres/tasks.go: a sequence, which gives none twice.
use mathlib.Core.Path.{subst}
use chronos_engine.Prelude.{
  ℕ, ℤ, ◌+◌, ◌≤◌, ◌<◌, String, List, [], ◌∷◌, ◌++◌, All, Bool, true, ◌≡◌, refl, sym, ap, ◌∙◌, arith,
  Bool-cases, inl, inr, update_where, delete_where, nat_eq,
}
use chronos_engine.Messages.{
  Time, WorkflowStatus, EventType, Attributes, HistoryEvent, RetryPolicy,
  ScheduleActivityTaskCommand, StartTimerCommand,
}
use chronos_engine.Core.{Float64}
use chronos_engine.Store.Tables.{Run, run_eq, Execution, ActivityRow, TimerRow, Db}
use chronos_engine.Store.Monad.{exec}
use chronos_engine.Store.Keeps.{Keeps, Keeps-exec, Keeps-bind, Keeps-pure, keeps_rules}
use chronos_engine.Store.Events.{
  append_events, schedule_workflow_task, schedule_workflow_task_for_run, update_execution,
}
use chronos_engine.Store.Workflows.{add_execution, insert_execution, new_execution}
use chronos_engine.Store.Commands.{
  add_activity, insert_activity, apply_schedule_activity, add_timer, insert_timer,
  apply_start_timer, close_execution,
}
use chronos_engine.Store.Activities.{update_activity, push_lease, delete_activity, finish_activity}
use chronos_engine.Store.Timers.{mark_fired, fire_timer, fire_all, fire_due_timers}
use chronos_engine.Store.Statements.{StatementRules}
use chronos_engine.Store.History.{append_events-inv}

-- The token of a row is below the sequence and passes the test.
abbrev pub Passes : (ℕ → Bool) → ℕ → ActivityRow → Type 0
Passes p seq t = (t.task_id < seq) × (p t.task_id ≡ true)

abbrev Rows : (ℕ → Bool) → (ℕ → Bool) → List ActivityRow → ℕ → Type 0
Rows p later rows seq = All (Passes p seq) rows × ((n : ℕ) → seq ≤ n → later n ≡ true)

-- The tokens of the rows pass one test, those that are still to come another.
unfoldable pub Admits : (ℕ → Bool) → (ℕ → Bool) → Db → Type 0
Admits p later db = Rows p later db.activity_tasks db.activity_task_seq

module _ (p later : ℕ → Bool) (h : (n : ℕ) → later n ≡ true → p n ≡ true) where
  frame-Admits :
      (db db' : Db)
      → db'.activity_tasks ≡ db.activity_tasks
      → db'.activity_task_seq ≡ db.activity_task_seq
      → Admits p later db
      → Admits p later db'
  unfolding Admits
  frame-Admits db db' a q v =
      subst (λ rows. Rows p later rows db'.activity_task_seq) (sym a)
        (subst (λ k. Rows p later db.activity_tasks k) (sym q) v)

  append-Admits :
      (r : Run) (now : Time) (e : HistoryEvent)
      → Keeps (Admits p later) (append_events r now (e ∷ []))
  unfolding update_execution
  append-Admits r now e = record {
    at = λ db v n db' h.
        let (row, _, _, grown) = append_events-inv r now e [] db h in
        frame-Admits db db' (ap (λ x. x.activity_tasks) grown) (ap (λ x. x.activity_task_seq) grown)
          v;
  }

  add_execution-Admits : (row : Execution) → Keeps (Admits p later) (exec (add_execution row))
  unfolding add_execution
  add_execution-Admits row = Keeps-exec _ λ db v. frame-Admits db _ refl refl v

  insert-Admits : (row : Execution) → Keeps (Admits p later) (insert_execution row)
  unfolding insert_execution
  insert-Admits row = search (keeps_rules, add_execution-Admits) depth 7

  close-Admits :
      (r : Run) (s : WorkflowStatus) (now : Time)
      → Keeps (Admits p later) (exec (close_execution r s now))
  unfolding close_execution update_execution
  close-Admits r s now = Keeps-exec _ λ db v. frame-Admits db _ refl refl v

  schedule-Admits :
      (r : Run) (queue : String) (now : Time)
      → Keeps (Admits p later) (schedule_workflow_task r queue now)
  unfolding schedule_workflow_task
  schedule-Admits r queue now =
      Keeps-exec _ λ db v. frame-Admits db _ (ground arith) (ground arith) v

  wake-Admits :
      (r : Run) (now : Time) → Keeps (Admits p later) (schedule_workflow_task_for_run r now)
  unfolding schedule_workflow_task_for_run
  wake-Admits r now = search (keeps_rules, schedule-Admits)

  All-update :
      (seq : ℕ) (q : ActivityRow → Bool) (f : ActivityRow → ActivityRow)
      → ((t : ActivityRow) → (f t).task_id ≡ t.task_id)
      → (rows : List ActivityRow) → All (Passes p seq) rows
      → All (Passes p seq) (update_where q f rows)
  unfolding update_where
  All-update seq q f same [] h = tt
  All-update seq q f same (t ∷ rows) h = elim (Bool-cases (q t)) [
    | inl e ↦
        rw e (
          subst (λ k. (k < seq) × (p k ≡ true)) (sym (same t)) h.0,
          All-update seq q f same rows h.1,
        )
    | inr e ↦ rw e (h.0, All-update seq q f same rows h.1)
  ]

  update-Admits :
      (id : ℕ) (f : ActivityRow → ActivityRow)
      → ((t : ActivityRow) → (f t).task_id ≡ t.task_id)
      → Keeps (Admits p later) (exec (update_activity id f))
  unfolding update_activity Admits
  update-Admits id f same = Keeps-exec _ λ db v. (All-update _ _ f same db.activity_tasks v.0, v.1)

  lease-Admits :
      (token : ℕ) (until now : Time) → Keeps (Admits p later) (exec (push_lease token until now))
  unfolding push_lease Admits
  lease-Admits token until now =
      Keeps-exec _ λ db v. (All-update _ _ _ (λ t. refl) db.activity_tasks v.0, v.1)

  All-delete :
      (P : ActivityRow → Type 0) (q : ActivityRow → Bool) (rows : List ActivityRow)
      → All P rows
      → All P (delete_where q rows)
  unfolding delete_where
  All-delete P q [] h = tt
  All-delete P q (t ∷ rows) h = elim (Bool-cases (q t)) [
    | inl e ↦ rw e (All-delete P q rows h.1)
    | inr e ↦ rw e (h.0, All-delete P q rows h.1)
  ]

  delete-Admits : (token : ℕ) → Keeps (Admits p later) (exec (delete_activity token))
  unfolding delete_activity Admits
  delete-Admits token = Keeps-exec _ λ db v. (All-delete _ _ db.activity_tasks v.0, v.1)

  finish-Admits :
      (token : ℕ) (t : ActivityRow) (type : EventType) (a : Attributes) (now : Time)
      → Keeps (Admits p later) (finish_activity token t type a now)
  unfolding finish_activity
  finish-Admits token t type a now =
      Keeps-bind _ _ (append-Admits t.run now _)
        λ _. Keeps-bind _ _ (delete-Admits token) λ _. wake-Admits t.run now

  -- A new row gets the next number of the sequence.
  All-later :
      (seq : ℕ) (rows : List ActivityRow)
      → All (Passes p seq) rows
      → (t : ActivityRow) → t.task_id ≡ seq
      → p seq ≡ true
      → All (Passes p (seq + 1)) (rows ++ t ∷ [])
  All-later seq [] h t e k = ((omega (arith, e), ap p e ∙ k), tt)
  All-later seq (x ∷ rows) h t e k = ((omega (arith, h.0.0), h.0.1), All-later seq rows h.1 t e k)

  add_activity-Admits :
      (r : Run) (n : ℕ) (cmd : ScheduleActivityTaskCommand) (policy : RetryPolicy) (now : Time)
      → Keeps (Admits p later) (exec (add_activity r n cmd policy now))
  unfolding Admits
  add_activity-Admits r n cmd policy now = Keeps-exec _ λ db v. (
    All-later db.activity_task_seq db.activity_tasks v.0 _ refl
        (h _ (v.1 db.activity_task_seq (omega arith))),
    λ k least. v.1 k (omega (arith, least)),
  )

  insert_activity-Admits :
      (r : Run) (n : ℕ) (cmd : ScheduleActivityTaskCommand) (policy : RetryPolicy) (now : Time)
      → Keeps (Admits p later) (insert_activity r n cmd policy now)
  unfolding insert_activity
  insert_activity-Admits r n cmd policy now = search (keeps_rules, add_activity-Admits)

  schedules-Admits :
      (fl : Float64) (r : Run) (now : Time) (cmd : ScheduleActivityTaskCommand)
      → Keeps (Admits p later) (apply_schedule_activity fl r now cmd)
  unfolding apply_schedule_activity
  schedules-Admits fl r now cmd =
      Keeps-bind _ _ (append-Admits r now _) λ n. insert_activity-Admits r n cmd _ now

  add_timer-Admits :
      (r : Run) (id : ℕ) (name : String) (at : Time)
      → Keeps (Admits p later) (exec (add_timer r id name at))
  add_timer-Admits r id name at = Keeps-exec _ λ db v. frame-Admits db _ refl refl v

  insert_timer-Admits :
      (r : Run) (id : ℕ) (name : String) (at : Time)
      → Keeps (Admits p later) (insert_timer r id name at)
  unfolding insert_timer
  insert_timer-Admits r id name at = search (keeps_rules, add_timer-Admits) depth 7

  starts_timer-Admits :
      (r : Run) (now : Time) (cmd : StartTimerCommand)
      → Keeps (Admits p later) (apply_start_timer r now cmd)
  unfolding apply_start_timer
  starts_timer-Admits r now cmd =
      Keeps-bind _ _ (append-Admits r now _) λ n. insert_timer-Admits r n _ _

  mark_fired-Admits : (d : TimerRow) → Keeps (Admits p later) (exec (mark_fired d))
  unfolding mark_fired
  mark_fired-Admits d = Keeps-exec _ λ db v. frame-Admits db _ refl refl v

  fire_all-Admits :
      (now : Time) (n : ℕ) (dues : List TimerRow) → Keeps (Admits p later) (fire_all now n dues)
  unfolding fire_all fire_timer
  fire_all-Admits now n [] = Keeps-pure n
  fire_all-Admits now n (d ∷ dues) =
      Keeps-bind _ _
        (Keeps-bind _ _ (append-Admits d.run now _)
          λ _. Keeps-bind _ _ (mark_fired-Admits d) λ _. wake-Admits d.run now)
        λ _. fire_all-Admits now (n + 1) dues

  fire_due-Admits : (now : Time) (batch : ℤ) → Keeps (Admits p later) (fire_due_timers now batch)
  unfolding fire_due_timers
  fire_due-Admits now batch = search (keeps_rules, fire_all-Admits)

  pub Admits-rules : StatementRules (Admits p later)
  Admits-rules = record {
    frame = λ db db' _ _ a _ q. frame-Admits db db' a q;
    appends = λ r now type a _. append-Admits r now _;
    inserts = λ r s now. insert-Admits (new_execution r s now);
    closes = λ r s now _. close-Admits r s now;
    updates = λ id f _ _ same. update-Admits id f same;
    leases = lease-Admits;
    schedules = schedules-Admits;
    starts_timer = starts_timer-Admits;
    finishes = λ token t type a now _ db v _. (finish-Admits token t type a now).at db v;
    fires = fire_due-Admits;
  }
