-- ===== src/HttpApi/Answers.antt =====
-- What the handlers of internal/httpapi/httpapi.go answer.
use chronos_engine.Prelude.{
  ℕ, ◌+◌, List, [], ◌∷◌, length, count, Bool, true, false, exists, ◌≡◌, refl, ◌∙◌, arith,
}
use chronos_engine.Prelude.Counting.{one_if}
use chronos_engine.Messages.{WorkflowStatus}
use chronos_engine.Store.Tables.{Execution, Db}
use chronos_engine.Store.Workflows.{is_status, count_by_status, entries}
use chronos_engine.Store.Queries.{with_status, IsCounted}
use chronos_engine.HttpApi.Handlers.{
  Stats, no_stats, add_status, add_counts, sum_counts, stats, stats_of,
}

is_status_refl : (s : WorkflowStatus) → is_status s s ≡ true
is_status_refl WorkflowStatus.unspecified = refl
is_status_refl WorkflowStatus.running = refl
is_status_refl WorkflowStatus.completed = refl
is_status_refl WorkflowStatus.failed = refl
is_status_refl WorkflowStatus.timed_out = refl
is_status_refl WorkflowStatus.terminated = refl

module _ {A : Type 0} where
  sum : (A → ℕ) → List A → ℕ
  sum f [] = 0
  sum f (x ∷ xs) = f x + sum f xs

  sum_add : (f g : A → ℕ) (xs : List A) → sum (λ x. f x + g x) xs ≡ sum f xs + sum g xs
  unfolding sum
  sum_add f g [] = omega arith
  sum_add f g (x ∷ xs) = omega (arith, sum_add f g xs)

  sum_zero : (xs : List A) → sum (λ x. 0) xs ≡ 0
  unfolding sum
  sum_zero [] = refl
  sum_zero (x ∷ xs) = omega (arith, sum_zero xs)

  sum_ones : (p : A → Bool) (xs : List A) → sum (λ x. one_if (p x)) xs ≡ count p xs
  unfolding sum count
  sum_ones p [] = refl
  sum_ones p (x ∷ xs) = omega (arith, sum_ones p xs)

-- So the counts add up to the rows.
sum_statuses :
    (keys : List WorkflowStatus) (es : List Execution)
    → IsCounted keys es
    → sum (with_status es) keys ≡ length es
unfolding count
sum_statuses keys [] h = sum_zero keys
sum_statuses keys (e ∷ es) h =
    sum_add (λ w. one_if (is_status e.status w)) (with_status es) keys
    ∙ omega (
      arith,
      sum_ones (is_status e.status) keys,
      h e.status (ground (arith, is_status_refl e.status)),
      sum_statuses keys es (λ w k. h w (omega (arith, k))),
    )

abbrev parts : Stats → ℕ
parts s = s.running + s.completed + s.failed + s.timed_out + s.terminated + s.unspecified

add_status-parts : (w : WorkflowStatus) (n : ℕ) (s : Stats) → parts (add_status w n s) ≡ parts s + n
add_status-parts WorkflowStatus.unspecified n s = omega arith
add_status-parts WorkflowStatus.running n s = omega arith
add_status-parts WorkflowStatus.completed n s = omega arith
add_status-parts WorkflowStatus.failed n s = omega arith
add_status-parts WorkflowStatus.timed_out n s = omega arith
add_status-parts WorkflowStatus.terminated n s = omega arith

add_status-total : (w : WorkflowStatus) (n : ℕ) (s : Stats) → (add_status w n s).total ≡ s.total
add_status-total WorkflowStatus.unspecified n s = refl
add_status-total WorkflowStatus.running n s = refl
add_status-total WorkflowStatus.completed n s = refl
add_status-total WorkflowStatus.failed n s = refl
add_status-total WorkflowStatus.timed_out n s = refl
add_status-total WorkflowStatus.terminated n s = refl

sums :
    (counts : List (WorkflowStatus × ℕ)) (s : Stats)
    → ((sum_counts counts s).total ≡ s.total + sum (λ c. c.1) counts)
      × (parts (sum_counts counts s) ≡ parts s + sum (λ c. c.1) counts)
unfolding sum_counts sum
sums [] s = (omega arith, omega arith)
sums ((w, n) ∷ counts) s =
    let rest = sums counts (add_counts w n s) in
    (omega (arith, rest.0, add_status-total w n s), omega (arith, rest.1, add_status-parts w n s))

no_rows_of :
    (w : WorkflowStatus) (es : List Execution)
    → exists (λ e. is_status e.status w) es ≡ false
    → with_status es w ≡ 0
unfolding exists count
no_rows_of w [] h = refl
no_rows_of w (e ∷ es) h = ground (arith, h, no_rows_of w es)

-- A status without rows adds nothing to the sum.
sum-entries :
    (db : Db) (keys : List WorkflowStatus)
    → sum (λ c. c.1) (entries (count_by_status db) keys) ≡ sum (with_status db.executions) keys
unfolding sum entries count_by_status
sum-entries db [] = refl
sum-entries db (w ∷ keys) = ground (arith, no_rows_of w db.executions, sum-entries db keys)

-- The numbers of `/api/stats` add up: in whichever order the map of counts is walked, if every status that has a
-- row comes once, the response is 200 with a total that is the number of all executions, and with counts of the
-- single statuses that add up to the total.
pub stats_add_up :
    (keys : List WorkflowStatus) (db : Db)
    → IsCounted keys db.executions
    → (s : Stats) × (stats keys db ≡ record { code = 200; body = stats_of s })
      × (s.total ≡ length db.executions)
      × (s.running + s.completed + s.failed + s.timed_out + s.terminated + s.unspecified ≡ s.total)
unfolding stats
stats_add_up keys db h =
    let counts = entries (count_by_status db) keys in
    let both = sums counts no_stats in
    let all = sum-entries db keys in
    (
      sum_counts counts no_stats,
      refl,
      omega (arith, both.0, all, sum_statuses keys db.executions h),
      omega (arith, both.0, both.1),
    )
