-- ===== src/Tests/Service.antt =====
-- Long polls and page tokens of the gRPC service.
use Prim.Native.Nat.{◌*◌}
use Prim.Native.String.{◌++◌ as str_append, count as str_count}
use text.Mathlib.TextLemmas.{length-append}
use chronos_engine.Prelude.{
  ℕ, zero, suc, ◌-◌, ◌+ℤ◌, pos, pos_part, String, some, [], ◌∷◌, length, false, ◌==◌, ==_iff,
  string_eq, ◌≡◌, refl, ap, ◌∙◌, Bool-cases, inl, inr, arith,
}
use mathlib.Core.List.Permᴰ.{Permᴰ, swap, refl as perm_refl}
use chronos_engine.Prelude.{List, Bool, true, nat_eq, select}
use chronos_engine.Store.Tables.{Execution}
use chronos_engine.Store.Workflows.{Scan, matches_filter}
use chronos_engine.Store.Reorder.{AreApart}
use chronos_engine.Messages.{Bytes, WorkflowStatus}
use chronos_engine.Store.Tables.{WorkflowTask, ActivityTask, Db, empty_db}
use chronos_engine.Server.{Served}
use chronos_engine.Server.Polls.{
  Options, new_service, Round, serve_poll_workflow_task, serve_poll_activity_task,
}
use chronos_engine.Server.Waits.{Ticks, polls_end}
use chronos_engine.Server.Paging.{TokenText}
use chronos_engine.Server.Paging.Pages.{IsText, read_pages, rows_of, listing, pages_complete}
use chronos_engine.Tests.Fixtures.{whole, order_row}
use chronos_engine.Tests.Activities.{no_counts}

-- Nobody else calls, and every sleep takes 200 ms.
abbrev quiet : ℕ → Round
quiet n = record {
  polled_at = pos (n * 200000000);
  checked_at = pos (n * 200000000);
  cancelled = false;
  served = [];
}

abbrev default_options : Options
default_options = record { lease = pos 0; poll_wait = pos 0 }

quiet-Ticks : Ticks (pos 0) (pos 0 +ℤ (new_service default_options).poll_wait) quiet
unfolding ◌+ℤ◌
quiet-Ticks = record { started = omega arith; sleeps = λ n h. ground arith }

abbrev one_order : Db
one_order = record empty_db { executions = order_row ∷ [] }

polls_end_example :
    ((served : Served WorkflowTask) × (serve_poll_workflow_task whole
          (new_service default_options)
          27
          (pos 0)
          "default"
          "worker-1"
          quiet
          no_counts
          one_order
        ≡ some served))
    × ((served : Served ActivityTask) × (serve_poll_activity_task whole
            (new_service default_options)
            27
            (pos 0)
            "default"
            "worker-1"
            quiet
            no_counts
            one_order
          ≡ some served))
unfolding new_service
polls_end_example =
    polls_end whole default_options (pos 0) "default" "worker-1" quiet no_counts one_order 26
      quiet-Ticks (omega arith)

-- Tokens in unary.
unary : ℕ → String
unary zero = ""
unary (suc n) = str_append "1" (unary n)

count-unary : (n : ℕ) → str_count (unary n) ≡ n
unfolding unary
count-unary zero = refl
count-unary (suc n) = length-append "1" (unary n) ∙ omega (arith, count-unary n)

abbrev only : Bytes → ℕ
only [] = 0
only (c ∷ b) = c

abbrev unary_text : TokenText
unary_text = record {
  encode_to_string = λ b. unary (suc (only b));
  decode_string = λ s. some ((str_count s - 1) ∷ []);
  itoa = λ n. pos_part n ∷ [];
  atoi = λ b. some (pos (only b));
}

unary-not_empty : (n : ℕ) → (unary (suc n) == "") ≡ false
unary-not_empty n = elim (Bool-cases (unary (suc n) == "")) [
  | inr e ↦ e
  | inl e ↦
      absurd (omega (arith, count-unary (suc n), ap str_count ((==_iff (unary (suc n)) "").0 e)))
]

unary-IsText : IsText unary_text
unary-IsText = record {
  decodes = λ n. ap (λ k. some (k ∷ [])) (omega (arith, count-unary (suc n)));
  reads = λ n. refl;
  is_token = unary-not_empty;
}

abbrev three_orders : Db
three_orders = record empty_db {
  executions =
      order_row
      ∷ record order_row { start_time = pos 2 }
      ∷ record order_row { start_time = pos 3 }
      ∷ [];
}

-- The queries meet the first two rows now in this order, now in that.
turn : Bool → Scan
turn true (a ∷ b ∷ rows) = b ∷ a ∷ rows
turn _ rows = rows

turn-perm : (b : Bool) (rows : List Execution) → Permᴰ (turn b rows) rows
unfolding turn
turn-perm true (a ∷ b ∷ rows) = swap refl refl
turn-perm true (a ∷ []) = perm_refl (a ∷ [])
turn-perm true [] = perm_refl []
turn-perm false rows = perm_refl rows

abbrev turns : ℕ → Scan
turns n = turn (n == 2)

turns-perm : (n : ℕ) (rows : List Execution) → Permᴰ (turns n rows) rows
turns-perm n = turn-perm (n == 2)

three_apart : AreApart (select (matches_filter WorkflowStatus.unspecified) three_orders.executions)
unfolding select AreApart
three_apart = ground arith

pages_complete_example :
    read_pages unary_text turns WorkflowStatus.unspecified
      (pos 1)
      (suc (length (rows_of WorkflowStatus.unspecified three_orders)))
      ""
      three_orders
    ≡ some (listing (rows_of WorkflowStatus.unspecified three_orders))
pages_complete_example =
    pages_complete unary_text turns WorkflowStatus.unspecified (pos 1) three_orders unary-IsText
      (omega arith) turns-perm three_apart
