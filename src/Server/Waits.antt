-- ===== src/Server/Waits.antt =====
-- How long the polls of internal/server/server.go wait.
use Prim.Native.Nat.{◌*◌}
use chronos_engine.Prelude.{
  ℕ, zero, suc, ◌+◌, ◌≤◌, ◌<◌, ℤ, pos, negsuc, pos_part, neg_part, ◌+ℤ◌, ◌≤ℤ◌, ◌<ℤ◌, ltb_ℤ, String,
  Option, none, some, Bool, true, false, not, if◌then◌else◌, ◌≡◌, refl, ap, ◌∙◌, ◌⊎◌, inl, inr,
  Bool-cases, arith,
}
use chronos_engine.Messages.{Time, Duration}
use chronos_engine.Core.{Float64}
use chronos_engine.Store.Tables.{WorkflowTask, ActivityTask, Db}
use chronos_engine.Store.Monad.{Result, ok, err, Tx}
use chronos_engine.Store.Commands.{poll_workflow_task}
use chronos_engine.Store.Activities.{poll_activity_task}
use chronos_engine.Server.{Metrics, Served}
use chronos_engine.Server.Polls.{
  Options, new_service, Round, sleep_poll, after_poll, long_poll, no_workflow_task,
  no_activity_task, serve_poll_workflow_task, serve_poll_activity_task,
}

-- The readings of the clock: the first is not before the start, and a sleep that ends takes 200 ms.
pub record Ticks (start deadline : Time) (rounds : ℕ → Round) : Type 0 where
  pub started : start ≤ℤ (rounds 0).checked_at
  pub sleeps :
      (n : ℕ)
      → sleep_poll deadline (rounds n) ≡ true
      → ((rounds n).checked_at +ℤ pos 200000000) ≤ℤ (rounds (suc n)).checked_at

add_pos-≤ℤ :
    (a b : ℤ) (k : ℕ) → (a +ℤ pos k) ≤ℤ b → pos_part a + k + neg_part b ≤ pos_part b + neg_part a
unfolding ◌+ℤ◌
add_pos-≤ℤ (pos a) (pos b) k h = ground arith
add_pos-≤ℤ (pos a) (negsuc b) k h = ground arith
add_pos-≤ℤ (negsuc a) (pos b) k h = ground arith
add_pos-≤ℤ (negsuc a) (negsuc b) k h = ground arith

add_within-ltb_ℤ :
    (a w c : ℤ) (k : ℕ)
    → w <ℤ pos k
    → pos_part a + k + neg_part c ≤ pos_part c + neg_part a
    → ltb_ℤ (a +ℤ w) c ≡ true
unfolding ◌+ℤ◌
add_within-ltb_ℤ (pos a) (pos w) c k h e = ground arith
add_within-ltb_ℤ (pos a) (negsuc w) c k h e = ground arith
add_within-ltb_ℤ (negsuc a) (pos w) c k h e = ground arith
add_within-ltb_ℤ (negsuc a) (negsuc w) c k h e = ground arith

module _ (start deadline : Time) (rounds : ℕ → Round) (ticks : Ticks start deadline rounds) where
  -- Until a round stops the loop, every round takes its sleep.
  stops_or_waits :
      (n : ℕ)
      → ((k : ℕ) × (k ≤ n) × (sleep_poll deadline (rounds k) ≡ false))
        ⊎ (pos_part start + n * 200000000 + neg_part (rounds n).checked_at
            ≤ pos_part (rounds n).checked_at + neg_part start)
  stops_or_waits zero = inr (omega (arith, ticks.started))
  stops_or_waits (suc n) = elim (stops_or_waits n) [
    | inl (k, h, e) ↦ inl (k, omega arith, e)
    | inr waited ↦ elim (Bool-cases (sleep_poll deadline (rounds n))) [
      | inl e ↦ inr (
          omega (
            arith,
            waited,
            add_pos-≤ℤ (rounds n).checked_at (rounds (suc n)).checked_at 200000000
                (ticks.sleeps n e),
          ))
      | inr e ↦ inl (n, omega arith, e)
    ]
  ]

  stops :
      (wait : Duration) (n : ℕ)
      → deadline ≡ start +ℤ wait
      → wait <ℤ pos (n * 200000000)
      → (k : ℕ) × (k ≤ n) × (sleep_poll deadline (rounds k) ≡ false)
  unfolding sleep_poll
  stops wait n e h = elim (stops_or_waits n) [
    | inl found ↦ found
    | inr waited ↦ (n, omega arith, late waited)
  ]
    where
      late :
          pos_part start + n * 200000000 + neg_part (rounds n).checked_at
            ≤ pos_part (rounds n).checked_at + neg_part start
          → sleep_poll deadline (rounds n) ≡ false
      late waited =
          ap (λ b. if b then false else not (rounds n).cancelled)
            (ap (λ d. ltb_ℤ d (rounds n).checked_at) e
              ∙ add_within-ltb_ℤ start wait (rounds n).checked_at (n * 200000000) h waited)

module _ {A : Type 0} (counts : Metrics → Metrics) (empty : A) where
  after_poll_ends :
      (r : Result (Option A × Db)) (again : Bool) (m : Metrics) (db : Db)
      (next : Db → Option (Served A))
      → (again ≡ false) ⊎ ((db' : Db) → (served : Served A) × (next db' ≡ some served))
      → (served : Served A) × (after_poll counts empty r again m db next ≡ some served)
  unfolding after_poll
  after_poll_ends (err e) again m db next h = (_, refl)
  after_poll_ends (ok (some task, db')) again m db next h = (_, refl)
  after_poll_ends (ok (none, db')) false m db next h = (_, refl)
  after_poll_ends (ok (none, db')) true m db next (inl e) = cc
  after_poll_ends (ok (none, db')) true m db next (inr k) = k db'

  long_poll_ends :
      (fl : Float64) (poll : Time → Tx (Option A)) (k fuel n : ℕ) (deadline : Time)
      (rounds : ℕ → Round) (m : Metrics) (db : Db)
      → k < fuel
      → sleep_poll deadline (rounds (k + n)) ≡ false
      → (served : Served A) × (long_poll counts empty fl poll fuel n deadline rounds m db
          ≡ some served)
  unfolding long_poll
  long_poll_ends fl poll k zero n deadline rounds m db h e = absurd (omega (arith, h))
  long_poll_ends fl poll zero (suc fuel) n deadline rounds m db h e =
      after_poll_ends (poll (rounds n).polled_at db) (sleep_poll deadline (rounds n)) m db _
        (inl (ap (λ i. sleep_poll deadline (rounds i)) own ∙ e))
    where
      own : n ≡ 0 + n
      own = omega arith
  long_poll_ends fl poll (suc k) (suc fuel) n deadline rounds m db h e =
      after_poll_ends (poll (rounds n).polled_at db) (sleep_poll deadline (rounds n)) m db _ (
        inr λ db'.
          long_poll_ends fl poll k fuel (suc n) deadline rounds m _ (omega arith)
            (ap (λ i. sleep_poll deadline (rounds i)) shift ∙ e))
    where
      shift : k + suc n ≡ suc k + n
      shift = omega arith

-- Every long poll of a service ends. Whatever the store answers and whatever other calls it serves in between,
-- where every sleep takes its 200 ms, PollWorkflowTask and PollActivityTask of a service made by New reply
-- within n + 1 rounds, for any n whose n sleeps outlast the service's poll wait.
pub polls_end :
    (fl : Float64) (opts : Options) (start : Time) (queue identity : String) (rounds : ℕ → Round)
    (m : Metrics) (db : Db) (n : ℕ)
    → Ticks start (start +ℤ (new_service opts).poll_wait) rounds
    → (new_service opts).poll_wait <ℤ pos (n * 200000000)
    → ((served : Served WorkflowTask) × (serve_poll_workflow_task fl
            (new_service opts)
            (suc n)
            start
            queue
            identity
            rounds
            m
            db
          ≡ some served))
      × ((served : Served ActivityTask) × (serve_poll_activity_task fl
              (new_service opts)
              (suc n)
              start
              queue
              identity
              rounds
              m
              db
            ≡ some served))
unfolding serve_poll_workflow_task serve_poll_activity_task
polls_end fl opts start queue identity rounds m db n ticks h =
    let s = new_service opts in
    let deadline : Time = start +ℤ s.poll_wait in
    let (k, within, stop) = stops start deadline rounds ticks s.poll_wait n refl h in
    let at : sleep_poll deadline (rounds (k + 0)) ≡ false =
      ap (λ i. sleep_poll deadline (rounds i)) (omega arith) ∙ stop in
    (
      long_poll_ends _ no_workflow_task fl (poll_workflow_task queue identity s.lease) k (suc n) 0
          deadline rounds m db (omega arith) at,
      long_poll_ends _ no_activity_task fl (poll_activity_task queue identity s.lease) k (suc n) 0
          deadline rounds m db (omega arith) at,
    )
