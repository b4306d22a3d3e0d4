-- ===== src/Orders/Shipping.antt =====
-- When the workflow of workflows/order.go ships.
use Prim.Native.String.{◌++◌ as str_append}
use chronos_engine.Prelude.{
  suc, String, Option, none, some, List, [], ◌∷◌, ◌++◌, Bool, true, false, not, ◌&&◌, ◌||◌,
  string_eq, ◌==◌, if◌then◌else◌, exists, get_elem?, ◌≡◌, refl, sym, ap, ◌∙◌, arith, inl, inr,
  Bool-cases,
}
use chronos_engine.Messages.{Bytes, Time, Command, HistoryEvent}
use chronos_engine.Replay.Types.{
  ActivityError, ActivityState, TimerState, Environment, Workflow, Fmt, Panic, blocked,
}
use chronos_engine.Replay.Index.{new_environment}
use chronos_engine.Replay.Fresh.{new_environment-IsFresh}
use chronos_engine.Replay.Engine.{
  ok, raises, returned, errored, panicked, complete_workflow_command, fail_workflow_command,
  resolved, pending, schedule_command, timer_command, recall_activity, dispatch_activity,
  activity_call, execute_activity, timer_call, new_timer, get, Ending, and_then, run, conclude,
  decide, execute,
}
use chronos_engine.Orders.{
  Converter, OrderInput, Decoded, decodes, refuses, decoded, received, slept, order_options,
  fulfils, delivers, on_order, order_fulfillment, packaging_delay,
}

abbrev is_ship : Command → Bool
is_ship (Command.schedule_activity_task a) = a.activity_type == "ShipOrder"
is_ship c = false

abbrev pub ships : List Command → Bool
ships = exists is_ship

exists-append :
    (p : Command → Bool) (cs ds : List Command) → exists p (cs ++ ds) ≡ (exists p cs || exists p ds)
unfolding exists
exists-append p [] ds = refl
exists-append p (c ∷ cs) ds = ground (arith, exists-append p cs ds)

adds_other :
    (cs : List Command) (c : Command)
    → is_ship c ≡ false
    → ships cs ≡ false
    → ships (cs ++ c ∷ []) ≡ false
unfolding exists
adds_other cs c other quiet = ground (arith, other, quiet, exists-append is_ship cs (c ∷ []))

abbrev ran_ships : Environment × Ending → Bool
ran_ships x = ships x.0.new_commands

-- A call of an activity that does not ship, before whose result nothing ships.
module _ (c : Converter) (fmt : Fmt) (k : String → Workflow) where
  decoded-ships :
      (e : Environment) (d : Decoded String)
      → ships e.new_commands ≡ false
      → ran_ships (run fmt e (decoded k d)) ≡ true
      → (s : String) × (ran_ships (run fmt e (k s)) ≡ true)
  unfolding run
  decoded-ships e (decodes s) quiet h = (s, h)
  decoded-ships e (refuses m) quiet h = cc

  -- The branches of `ExecuteActivity` for an activity in the history, by its tests.
  branch_ships :
      (e : Environment) (mismatch completed failed : Bool) (p : Panic) (b : Bytes)
      (x : ActivityError)
      → ships e.new_commands ≡ false
      → ran_ships (
          and_then e
            (if mismatch
              then raises p
              else if completed
              then ok (resolved b)
              else if failed
              then ok (record { ready = true; value = []; error = some x })
              else ok pending)
            λ f. run fmt e (Workflow.gets f (received c k)))
        ≡ true
      → (completed ≡ true) × ((s : String) × (ran_ships (run fmt e (k s)) ≡ true))
  unfolding run and_then get
  branch_ships e true completed failed p b x quiet h = cc
  branch_ships e false true failed p b x quiet h =
      (refl, decoded-ships e (c.decode_string b) quiet h)
  branch_ships e false false true p b x quiet h = cc
  branch_ships e false false false p b x quiet h = cc

  -- The call at the place `o` of the history.
  called_ships :
      (e : Environment) (activity_type : String) (input : Option Bytes) (o : Option ActivityState)
      → (activity_type == "ShipOrder") ≡ false
      → ships e.new_commands ≡ false
      → (let called = activity_call fmt e activity_type input order_options o in
          ran_ships
            (and_then called.0 called.1 λ f. run fmt called.0 (Workflow.gets f (received c k))))
        ≡ true
      → (st : ActivityState) × (o ≡ some st)
        × (st.completed ≡ true)
        × ((s : String) × (ran_ships
                (run fmt (record e { activity_seq = suc e.activity_seq }) (k s))
              ≡ true))
  unfolding activity_call recall_activity dispatch_activity run and_then get
  called_ships e activity_type input (some st) other quiet h =
      let (done, rest) =
        branch_ships (record e { activity_seq = suc e.activity_seq })
          (not (st.activity_type == "") && not (st.activity_type == activity_type)) st.completed
          st.failed _ st.result _ quiet h in
      (st, refl, done, rest)
  called_ships e activity_type none none other quiet h = cc
  called_ships e activity_type (some payload) none other quiet h =
      let silent =
        adds_other e.new_commands
          (schedule_command fmt e.activity_seq e.task_queue activity_type payload order_options)
          other quiet in
      cc

timer_ships :
    (fmt : Fmt) (e : Environment) (o : Option TimerState) (next : Workflow)
    → ships e.new_commands ≡ false
    → (let called = timer_call fmt e packaging_delay o in
        ran_ships (run fmt called.0 (Workflow.gets called.1 (slept next))))
      ≡ true
    → (t : TimerState) × (o ≡ some t)
      × (t.fired ≡ true)
      × (ran_ships (run fmt (record e { timer_seq = suc e.timer_seq }) next) ≡ true)
unfolding timer_call run and_then get
timer_ships fmt e (some t) next quiet h = fired_ships t.fired refl h
  where
    fired_ships :
        (b : Bool)
        → t.fired ≡ b
        → ran_ships (
            run fmt
              (record e { timer_seq = suc e.timer_seq })
              (Workflow.gets (if b then resolved [] else pending) (slept next)))
          ≡ true
        → (t' : TimerState) × (some t ≡ some t')
          × (t'.fired ≡ true)
          × (ran_ships (run fmt (record e { timer_seq = suc e.timer_seq }) next) ≡ true)
    fired_ships true f h = (t, refl, f, h)
    fired_ships false f h = cc
timer_ships fmt e none next quiet h =
    let silent =
      adds_other e.new_commands (timer_command fmt e.timer_seq packaging_delay) refl quiet in
    cc

conclude-ships :
    (fmt : Fmt) (cs : List Command) (x : Ending)
    → ships (conclude fmt cs x).commands ≡ true
    → ships cs ≡ true
unfolding conclude
conclude-ships fmt cs (returned out) h = elim (Bool-cases (ships cs)) [
  | inl e ↦ e
  | inr quiet ↦ let silent = adds_other cs (complete_workflow_command out) refl quiet in cc
]
conclude-ships fmt cs (errored m) h = elim (Bool-cases (ships cs)) [
  | inl e ↦ e
  | inr quiet ↦
      let silent =
        adds_other cs (fail_workflow_command (record { message = m; type = "ApplicationError" }))
          refl quiet in
      cc
]
conclude-ships fmt cs (panicked blocked) h = h
conclude-ships fmt cs (panicked p) h = elim (Bool-cases (ships cs)) [
  | inl e ↦ e
  | inr quiet ↦
      let silent =
        adds_other cs
          (fail_workflow_command (record {
            message = str_append "workflow panic: " (fmt.panic_text p);
            type = "PanicError";
          }))
          refl quiet in
      cc
]

-- What a history has before an order ships.
pub record IsReady (e : Environment) : Type 0 where
  pub charge : ActivityState
  pub charged : get_elem? e.activities 0 ≡ some charge
  pub charge_completed : charge.completed ≡ true
  pub reserve : ActivityState
  pub reserved : get_elem? e.activities 1 ≡ some reserve
  pub reserve_completed : reserve.completed ≡ true
  pub packing : TimerState
  pub packed : get_elem? e.timers 0 ≡ some packing
  pub packing_fired : packing.fired ≡ true

fulfils-ships :
    (c : Converter) (fmt : Fmt) (order : OrderInput) (e : Environment)
    → e.activity_seq ≡ 0
    → e.timer_seq ≡ 0
    → ships e.new_commands ≡ false
    → ran_ships (run fmt e (fulfils c order)) ≡ true
    → IsReady e
unfolding run execute_activity new_timer
fulfils-ships c fmt order e first_call first_timer quiet h =
    let (charge, charged, charge_done, (charge_id, h₁)) =
      called_ships c fmt _ e "ChargePayment" (c.encode_order order)
        (get_elem? e.activities e.activity_seq) refl quiet h in
    let e₁ = record e { activity_seq = suc e.activity_seq } in
    let (reserve, reserved, reserve_done, (reservation_id, h₂)) =
      called_ships c fmt _ e₁ "ReserveInventory" (c.encode_order order)
        (get_elem? e.activities (suc e.activity_seq)) refl quiet h₁ in
    let e₂ = record e { activity_seq = suc (suc e.activity_seq) } in
    let (packing, packed, fired, _) =
      timer_ships fmt e₂ (get_elem? e.timers e.timer_seq)
        (delivers c order charge_id reservation_id) quiet h₂ in
    record {
      charge = charge;
      charged = ap (get_elem? e.activities) (sym first_call) ∙ charged;
      charge_completed = charge_done;
      reserve = reserve;
      reserved = ap (λ n. get_elem? e.activities (suc n)) (sym first_call) ∙ reserved;
      reserve_completed = reserve_done;
      packing = packing;
      packed = ap (get_elem? e.timers) (sym first_timer) ∙ packed;
      packing_fired = fired;
    }

on_order-ships :
    (c : Converter) (fmt : Fmt) (d : Decoded OrderInput) (e : Environment)
    → e.activity_seq ≡ 0
    → e.timer_seq ≡ 0
    → ships e.new_commands ≡ false
    → ran_ships (run fmt e (on_order c d)) ≡ true
    → IsReady e
unfolding run
on_order-ships c fmt (decodes order) e first_call first_timer quiet h =
    fulfils-ships c fmt order e first_call first_timer quiet h
on_order-ships c fmt (refuses m) e first_call first_timer quiet h = cc

decide-ships :
    (c : Converter) (fmt : Fmt) (e : Environment)
    → e.activity_seq ≡ 0
    → e.timer_seq ≡ 0
    → e.new_commands ≡ []
    → ships (decide fmt (order_fulfillment c) e).commands ≡ true
    → IsReady e
unfolding decide order_fulfillment exists
decide-ships c fmt e first_call first_timer none_yet h = elim (Bool-cases e.terminated) [
  | inl closed ↦ let no = by_end true closed in cc
  | inr open_ ↦
      on_order-ships c fmt (c.decode_order e.input) e first_call first_timer (ap ships none_yet)
        (conclude-ships fmt ran.0.new_commands ran.1 (sym (by_end false open_) ∙ h))
]
  where
    ran : Environment × Ending
    ran = run fmt e (order_fulfillment c e.input)

    by_end :
        (b : Bool)
        → e.terminated ≡ b
        → ships (decide fmt (order_fulfillment c) e).commands
          ≡ ships
              (if b
                then record { commands = []; completed = true }
                else conclude fmt ran.0.new_commands ran.1).commands
    by_end b h =
        ap
          (λ t.
            ships
              (if t
                then record { commands = []; completed = true }
                else conclude fmt ran.0.new_commands ran.1).commands)
          h

-- An order ships last. Whatever the history, the queue and the clock: where a decision of the order workflow
-- schedules the activity ShipOrder, the history has the first two activities of the workflow (ChargePayment
-- and ReserveInventory) as completed, and its first timer, the packaging delay, as fired.
pub order_ships_last :
    (c : Converter) (fmt : Fmt) (task_queue : String) (history : List HistoryEvent) (clock : Time)
    → ships (execute fmt (order_fulfillment c) task_queue history clock).commands ≡ true
    → IsReady (new_environment task_queue history clock)
unfolding execute
order_ships_last c fmt task_queue history clock h =
    let fresh = new_environment-IsFresh task_queue history clock in
    decide-ships c fmt (new_environment task_queue history clock) fresh.0 fresh.1 fresh.2 h
