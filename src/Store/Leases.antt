-- ===== src/Store/Leases.antt =====
-- The lease of an activity task, in internal/storage/postgres/tasks.go.
use chronos_engine.Prelude.{
  ℕ, ℤ, ◌+ℤ◌, ltb_ℤ, String, Bool, true, Option, none, some, List, [], ◌∷◌, ◌≡◌, ◌≢◌, refl, sym,
  arith, ◌∙◌, select, update_where, All, nat_eq, string_eq, ◌==◌, Bool-cases, inl, inr,
}
use mathlib.Core.Path.{subst}
use chronos_engine.Messages.{Time, Duration, EventType, Attributes}
use chronos_engine.Store.Tables.{Run, ActivityRow, ActivityTask, Db}
use chronos_engine.Store.Monad.{ok, pure, exec, earliest_from, earliest}
use chronos_engine.Store.Keeps.{
  Keeps, Keeps-exec, Keeps-if, Keeps-bind, Keeps-pure, bind-inv, ok-injective,
}
use chronos_engine.Store.Events.{event, append_events}
use chronos_engine.Store.Once.{append-Appended}
use chronos_engine.Store.Activities.{
  dispatchable, next_activity_task, update_activity, activity_task, record_attempt, record_started,
  lease_activity_task, poll_activity_task,
}

-- What a query reads from a table whose rows all have a property.
pub All-select {ℓ κ} :
    {A : Type ℓ} (P : A → Type κ) (p : A → Bool) (xs : List A)
    → All P xs
    → All (λ x. P x × (p x ≡ true)) (select p xs)
unfolding select
All-select P p [] h = tt
All-select P p (x ∷ xs) (hx, h) = elim (Bool-cases (p x)) [
  | inl e ↦ rw e ((hx, e), All-select P p xs h)
  | inr e ↦ rw e (All-select P p xs h)
]

earliest_from-All {κ} :
    {A : Type 0} (P : A → Type κ) (key : A → ℤ) (best : A) (xs : List A)
    → P best
    → All P xs
    → P (earliest_from key best xs)
unfolding earliest_from
earliest_from-All P key best [] h hs = h
earliest_from-All P key best (x ∷ xs) h (hx, hs) = elim (Bool-cases (ltb_ℤ (key x) (key best))) [
  | inl e ↦ rw e (earliest_from-All P key x xs hx hs)
  | inr e ↦ rw e (earliest_from-All P key best xs h hs)
]

pub earliest-All :
    {A : Type 0} (P : A → Type 0) (key : A → ℤ) (xs : List A) (x : A)
    → All P xs
    → earliest key xs ≡ some x
    → P x
unfolding earliest
earliest-All P key [] x h e = cc
earliest-All P key (y ∷ ys) x (hy, hs) e =
    subst P (ground (arith, e)) (earliest_from-All P key y ys hy hs)

-- The rows of a task are leased until an instant.
LeasedUntil : ℕ → Time → ActivityRow → Type 0
LeasedUntil token until t = t.task_id ≡ token → t.locked_until ≡ some until

update-leases :
    (token : ℕ) (f : ActivityRow → ActivityRow) (until : Time)
    → ((t : ActivityRow) → (f t).task_id ≡ t.task_id)
    → ((t : ActivityRow) → (f t).locked_until ≡ some until)
    → (rows : List ActivityRow)
    → All (LeasedUntil token until) (update_where (λ t. t.task_id == token) f rows)
unfolding update_where LeasedUntil
update-leases token f until keeps sets [] = tt
update-leases token f until keeps sets (t ∷ rows) =
    ((λ h. ground (arith, keeps t, sets t, h)), update-leases token f until keeps sets rows)

update-LeasedUntil :
    (token id : ℕ) (f : ActivityRow → ActivityRow) (until : Time)
    → ((t : ActivityRow) → (f t).task_id ≡ t.task_id)
    → ((t : ActivityRow) → (f t).locked_until ≡ t.locked_until)
    → (rows : List ActivityRow) → All (LeasedUntil token until) rows
    → All (LeasedUntil token until) (update_where (λ t. t.task_id == id) f rows)
unfolding update_where LeasedUntil
update-LeasedUntil token id f until keeps same [] h = tt
update-LeasedUntil token id f until keeps same (t ∷ rows) (ht, h) = (
  (λ e. ground (arith, keeps t, same t, ht, e)),
  update-LeasedUntil token id f until keeps same rows h,
)

-- Of the rows leased until a later instant, none is dispatched.
next_activity_task-other :
    (token : ℕ) (until now : Time) (queue : String) (db : Db) (t : ActivityRow)
    → ltb_ℤ now until ≡ true
    → All (LeasedUntil token until) db.activity_tasks
    → next_activity_task queue now db ≡ some t
    → t.task_id ≢ token
unfolding next_activity_task LeasedUntil
next_activity_task-other token until now queue db t early leased found same =
    let (is_leased, is_free) =
      earliest-All (λ t. LeasedUntil token until t × (dispatchable queue now t ≡ true))
        (λ t. t.visible_at) (select (dispatchable queue now) db.activity_tasks) t
        (All-select (LeasedUntil token until) (dispatchable queue now) db.activity_tasks leased)
        found in
    ground (arith, is_leased same, is_free, early)

IsLeased : ℕ → Time → Db → Type 0
IsLeased token until db = All (LeasedUntil token until) db.activity_tasks

append-IsLeased :
    (token : ℕ) (until : Time) (r : Run) (now : Time) (type : EventType) (a : Attributes)
    → Keeps (IsLeased token until) (append_events r now (event type a ∷ []))
unfolding IsLeased
append-IsLeased token until r now type a = record {
  at = λ db h n db' e.
      subst (All (LeasedUntil token until))
        (sym ((append-Appended r now (event type a) db n db' e).activities)) h;
}

attempt-IsLeased :
    (token : ℕ) (until : Time) (t : ActivityRow)
    → Keeps
        (IsLeased token until)
        (exec (update_activity t.task_id (λ row. record row { last_started_attempt = t.attempt })))
unfolding IsLeased update_activity
attempt-IsLeased token until t = Keeps-exec _ λ db h.
    update-LeasedUntil token t.task_id (λ row. record row { last_started_attempt = t.attempt })
      until (λ t. refl) (λ t. refl) db.activity_tasks h

record_started-IsLeased :
    (token : ℕ) (until : Time) (t : ActivityRow) (identity : String) (now : Time)
    → Keeps (IsLeased token until) (record_started t identity now)
unfolding record_started record_attempt
record_started-IsLeased token until t identity now =
    Keeps-if (ltb_ℤ t.last_started_attempt t.attempt) (record_attempt t identity now) (pure tt)
      (λ _.
        Keeps-bind _ _
          (append-IsLeased token until t.run now EventType.activity_task_started
            (Attributes.activity_task_started t.scheduled_event_id identity t.attempt))
          λ _. attempt-IsLeased token until t)
      (λ _. Keeps-pure tt)

abbrev take_lease : Time → String → ActivityRow → ActivityRow
take_lease until identity row = record row { locked_until = some until; locked_by = some identity }

-- What a poll that hands out a task leaves: its rows leased.
lease-IsLeased :
    (t : ActivityRow) (identity : String) (lease : Duration) (now : Time) (db : Db)
    (task : ActivityTask) (db' : Db)
    → lease_activity_task (some t) identity lease now db ≡ ok (some task, db')
    → (task.task_token ≡ t.task_id) × IsLeased t.task_id (now +ℤ lease) db'
unfolding lease_activity_task IsLeased update_activity
lease-IsLeased t identity lease now db task db' h =
    let leased = record db {
      activity_tasks =
          update_where (λ x. x.task_id == t.task_id) (take_lease (now +ℤ lease) identity)
            db.activity_tasks;
    } in
    let (_, mid, started, rest) =
      bind-inv (record_started t identity now) (λ _. pure (some (activity_task t))) leased
        {b = some task} {db' = db'} h in
    (
      ground (arith, (ok-injective rest).0),
      subst (IsLeased t.task_id (now +ℤ lease)) ((ok-injective rest).1) (
          (record_started-IsLeased t.task_id (now +ℤ lease) t identity now).at leased
            (update-leases t.task_id (take_lease (now +ℤ lease) identity) (now +ℤ lease) (λ x. refl)
              (λ x. refl) db.activity_tasks)
            _ mid started),
    )

poll-IsLeased :
    (queue identity : String) (lease : Duration) (now : Time) (db : Db) (task : ActivityTask)
    (db' : Db)
    → poll_activity_task queue identity lease now db ≡ ok (some task, db')
    → (t : ActivityRow) × (next_activity_task queue now db ≡ some t)
      × (task.task_token ≡ t.task_id)
      × IsLeased t.task_id (now +ℤ lease) db'
unfolding poll_activity_task
poll-IsLeased queue identity lease now db task db' h = from (next_activity_task queue now db) refl h
  where
    from :
        (o : Option ActivityRow)
        → next_activity_task queue now db ≡ o
        → lease_activity_task o identity lease now db ≡ ok (some task, db')
        → (t : ActivityRow) × (next_activity_task queue now db ≡ some t)
          × (task.task_token ≡ t.task_id)
          × IsLeased t.task_id (now +ℤ lease) db'
    from none e k = unfold lease_activity_task in cc
    from (some t) e k =
        let (named, leased) = lease-IsLeased t identity lease now db task db' k in
        (t, e, named, leased)

-- An activity task that a poll has handed out is not handed out again by the next poll, of whichever worker
-- and task queue, that comes before the end of the lease.
pub poll_activity_task-leases :
    (queue identity : String) (lease : Duration) (now : Time) (db : Db) (task : ActivityTask)
    (db' : Db) (queue' identity' : String) (lease' : Duration) (now' : Time) (task' : ActivityTask)
    (db'' : Db)
    → ltb_ℤ now' (now +ℤ lease) ≡ true
    → poll_activity_task queue identity lease now db ≡ ok (some task, db')
    → poll_activity_task queue' identity' lease' now' db' ≡ ok (some task', db'')
    → task'.task_token ≢ task.task_token
unfolding IsLeased
poll_activity_task-leases queue identity lease now db task db' queue' identity' lease' now' task'
      db'' early h k =
    let (t, _, named, leased) = poll-IsLeased queue identity lease now db task db' h in
    let (t', found, named', _) = poll-IsLeased queue' identity' lease' now' db' task' db'' k in
    λ same.
      next_activity_task-other t.task_id (now +ℤ lease) now' queue' db' t' early leased found
        (sym named' ∙ same ∙ named)
