-- ===== src/Orders/Ledger.antt =====
-- The side effects that the ledger of workflows/ledger.go keeps.
use mathlib.Core.Path.{subst}
use chronos_engine.Prelude.{
  ◌≤◌, String, Option, none, some, List, [], ◌∷◌, ◌++◌, Bool, true, false, ◌&&◌, string_eq, ◌==◌,
  ==_iff, ==_refl, exists, count, ◌≡◌, refl, sym, ap, ◌∙◌, arith, Bool-cases, inl, inr,
}
use chronos_engine.Prelude.Counting.{one_if, count-append, exists-count}
use chronos_engine.Messages.{Bytes}
use chronos_engine.Worker.{Info}
use chronos_engine.Orders.Activities.{
  SideEffect, same_key, record_effect, Json, Value, number, write_effect, returning,
  record_activity, charge_payment, reserve_inventory, ship_order, send_receipt, OrderActivity,
  charges_payment, reserves_inventory, ships_order, sends_receipt, perform, perform_all,
}

-- At most one row of a key.
abbrev pub IsOnceEach : List SideEffect → Type 0
IsOnceEach ledger = (w a : String) → count (same_key w a) ledger ≤ 1

record_effect-IsOnceEach :
    (w a type : String) (payload : Bytes) (ledger : List SideEffect)
    → IsOnceEach ledger
    → IsOnceEach (record_effect w a type payload ledger)
unfolding record_effect count
record_effect-IsOnceEach w a type payload ledger v x y =
    elim (Bool-cases (exists (same_key w a) ledger)) [
      | inl e ↦ rw e (v x y)
      | inr e ↦ rw e (
          let grown = count-append (same_key x y) ledger (
            record { workflow_id = w; activity_id = a; activity_type = type; payload = payload }
            ∷ []) in
          elim (Bool-cases (w == x && a == y)) [
            | inr other ↦ omega (arith, grown, v x y, ap one_if other)
            | inl own ↦
                let none_yet : count (same_key x y) ledger ≡ 0 =
                  rw (← (==_iff w x).0 (ground arith))
                    (rw (← (==_iff a y).0 (ground arith)) (exists-count (same_key w a) ledger e)) in
                omega (arith, grown, none_yet, ap one_if own)
          ])
    ]

abbrev IsOnceLedger : Option (List SideEffect) → Type 0
IsOnceLedger none = Unit
IsOnceLedger (some ledger) = IsOnceEach ledger

record_activity-IsOnceLedger :
    (j : Json) (info : Info) (kv : List (String × Value)) (ledger : Option (List SideEffect))
    → IsOnceLedger ledger
    → IsOnceLedger (record_activity j info kv ledger).1
unfolding record_activity
record_activity-IsOnceLedger j info kv none v = tt
record_activity-IsOnceLedger j info kv (some ledger) v =
    written (j.marshal (("attempt", number info.attempt) ∷ kv))
  where
    written : (blob : Option Bytes) → IsOnceEach (write_effect info blob ledger).1
    written none = v
    written (some blob) =
        record_effect-IsOnceEach info.workflow_id info.activity_id info.activity_type blob ledger v

returned_ledger :
    (output : Option Bytes) (x : Bool × Option (List SideEffect)) → (returning output x).1 ≡ x.1
returned_ledger output (true, ledger) = refl
returned_ledger output (false, ledger) = refl

returned_well :
    (output : Option Bytes) (x : Bool × Option (List SideEffect)) (out : Bytes)
    (ledger : Option (List SideEffect))
    → returning output x ≡ (some out, ledger)
    → x ≡ (true, ledger)
returned_well output (true, l) out ledger h = cc
returned_well output (false, l) out ledger h = cc

-- Every activity records once, and returns by what that comes to.
performs :
    (j : Json) (a : OrderActivity) (info : Info) (input : Bytes)
    → (output : Option Bytes) × (kv : List (String × Value)) × ((ledger : Option (List SideEffect))
        → perform j a info input ledger ≡ returning output (record_activity j info kv ledger))
unfolding perform charge_payment reserve_inventory ship_order send_receipt
performs j charges_payment info input = (_, _, λ ledger. refl)
performs j reserves_inventory info input = (_, _, λ ledger. refl)
performs j ships_order info input = (_, _, λ ledger. refl)
performs j sends_receipt info input = (_, _, λ ledger. refl)

perform-IsOnceLedger :
    (j : Json) (a : OrderActivity) (info : Info) (input : Bytes) (ledger : Option (List SideEffect))
    → IsOnceLedger ledger
    → IsOnceLedger (perform j a info input ledger).1
perform-IsOnceLedger j a info input ledger v =
    let (output, kv, same) = performs j a info input in
    subst IsOnceLedger
      (sym
        (ap (λ x. x.1) (same ledger) ∙ returned_ledger output (record_activity j info kv ledger)))
      (record_activity-IsOnceLedger j info kv ledger v)

perform_all-IsOnceLedger :
    (j : Json) (ps : List (OrderActivity × Info × Bytes)) (ledger : Option (List SideEffect))
    → IsOnceLedger ledger
    → IsOnceLedger (perform_all j ps ledger)
unfolding perform_all
perform_all-IsOnceLedger j [] ledger v = v
perform_all-IsOnceLedger j ((a, info, input) ∷ ps) ledger v =
    perform_all-IsOnceLedger j ps (perform j a info input ledger).1
      (perform-IsOnceLedger j a info input ledger v)

empty-IsOnceLedger : IsOnceLedger (some [])
unfolding count
empty-IsOnceLedger w a = omega arith

-- Side effects are recorded once. Whichever activities of whichever orders are delivered, in any order and any
-- number of times, the ledger that they leave of an empty one has at most one row of each workflow id and
-- activity id.
pub effects_once :
    (j : Json) (ps : List (OrderActivity × Info × Bytes)) (rows : List SideEffect) (w a : String)
    → perform_all j ps (some []) ≡ some rows
    → count (same_key w a) rows ≤ 1
effects_once j ps rows w a h =
    subst IsOnceLedger h (perform_all-IsOnceLedger j ps (some []) empty-IsOnceLedger) w a

exists_last :
    (p : SideEffect → Bool) (xs : List SideEffect) (x : SideEffect)
    → p x ≡ true
    → exists p (xs ++ x ∷ []) ≡ true
unfolding exists
exists_last p [] x h = ground (arith, h)
exists_last p (y ∷ ys) x h = ground (arith, exists_last p ys x h)

recorded_key :
    (w a type : String) (payload : Bytes) (ledger : List SideEffect)
    → exists (same_key w a) (record_effect w a type payload ledger) ≡ true
unfolding record_effect
recorded_key w a type payload ledger = elim (Bool-cases (exists (same_key w a) ledger)) [
  | inl e ↦ rw e e
  | inr e ↦ rw e (
      exists_last (same_key w a) ledger
        (record { workflow_id = w; activity_id = a; activity_type = type; payload = payload })
        (ground (arith, ==_refl w, ==_refl a)))
]

-- A record that goes well has its key in the ledger.
recorded_well :
    (j : Json) (info : Info) (kv : List (String × Value)) (ledger rows : List SideEffect)
    → record_activity j info kv (some ledger) ≡ (true, some rows)
    → exists (same_key info.workflow_id info.activity_id) rows ≡ true
unfolding record_activity
recorded_well j info kv ledger rows h =
    written (j.marshal (("attempt", number info.attempt) ∷ kv)) h
  where
    written :
        (blob : Option Bytes)
        → ◌≡◌ {A = Bool × Option (List SideEffect)}
            ((write_effect info blob ledger).0, some (write_effect info blob ledger).1)
            (true, some rows)
        → exists (same_key info.workflow_id info.activity_id) rows ≡ true
    written none h = cc
    written (some blob) h =
        let same : record_effect info.workflow_id info.activity_id info.activity_type blob ledger
            ≡ rows =
          cc in
        ap (exists (same_key info.workflow_id info.activity_id)) (sym same)
        ∙ recorded_key info.workflow_id info.activity_id info.activity_type blob ledger

-- A record whose key is there changes nothing.
record_again :
    (j : Json) (info : Info) (kv : List (String × Value)) (rows : List SideEffect)
    → exists (same_key info.workflow_id info.activity_id) rows ≡ true
    → (record_activity j info kv (some rows)).1 ≡ some rows
unfolding record_activity record_effect
record_again j info kv rows h = written (j.marshal (("attempt", number info.attempt) ∷ kv))
  where
    written : (blob : Option Bytes) → some (write_effect info blob rows).1 ≡ some rows
    written none = refl
    written (some blob) = rw h refl

-- A repeated delivery records nothing. Once an activity has returned without an error, and so has recorded its
-- effect, a delivery of an activity with the same workflow id and activity id leaves the ledger as it is, whichever
-- activity it is, at whichever attempt and of whichever run.
pub effect_repeated :
    (j : Json) (a a' : OrderActivity) (info info' : Info) (input input' out : Bytes)
    (ledger rows : List SideEffect)
    → perform j a info input (some ledger) ≡ (some out, some rows)
    → info'.workflow_id ≡ info.workflow_id
    → info'.activity_id ≡ info.activity_id
    → (perform j a' info' input' (some rows)).1 ≡ some rows
effect_repeated j a a' info info' input input' out ledger rows h w e =
    let (output, kv, same) = performs j a info input in
    let (output', kv', same') = performs j a' info' input' in
    let key = recorded_well j info kv ledger rows (
      returned_well output (record_activity j info kv (some ledger)) out (some rows)
        (sym (same (some ledger)) ∙ h)) in
    ap (λ x. x.1) (same' (some rows))
    ∙ returned_ledger output' (record_activity j info' kv' (some rows))
    ∙ record_again j info' kv' rows (
        ap (λ x. exists (same_key x info'.activity_id) rows) w
        ∙ ap (λ y. exists (same_key info.workflow_id y) rows) e
        ∙ key)
