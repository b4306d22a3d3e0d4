-- ===== src/Store/Queries.antt =====
-- What the queries of internal/storage/postgres return of rows that all have a property.
use chronos_engine.Prelude.{
  ℕ, zero, suc, List, [], ◌∷◌, map, All, select, take, drop, Bool, true, ◌≡◌, Bool-cases, inl, inr,
  refl, ap, ◌∙◌, length, exists, ltb, ◌≤◌, count, arith,
}
use Prim.Native.Nat.{min}
use chronos_engine.Messages.{WorkflowStatus}
use chronos_engine.Store.Tables.{Execution}
use chronos_engine.Store.Workflows.{is_status}
use chronos_engine.Store.Monad.{insert_by, order_by}

module _ {A : Type 0} (P : A → Type 0) where
  pub All-select :
      (p : A → Bool) → ((x : A) → p x ≡ true → P x) → (xs : List A) → All P (select p xs)
  unfolding select
  All-select p h [] = tt
  All-select p h (x ∷ xs) = elim (Bool-cases (p x)) [
    | inl e ↦ rw e (h x e, All-select p h xs)
    | inr e ↦ rw e (All-select p h xs)
  ]

  All-insert_by :
      (before : A → A → Bool) (x : A) (xs : List A) → P x → All P xs → All P (insert_by before x xs)
  unfolding insert_by
  All-insert_by before x [] h k = (h, tt)
  All-insert_by before x (y ∷ ys) h k = elim (Bool-cases (before y x)) [
    | inl e ↦ rw e (k.0, All-insert_by before x ys h k.1)
    | inr e ↦ rw e (h, k)
  ]

  pub All-order_by : (before : A → A → Bool) (xs : List A) → All P xs → All P (order_by before xs)
  unfolding order_by
  All-order_by before [] h = tt
  All-order_by before (x ∷ xs) h =
      All-insert_by before x (order_by before xs) h.0 (All-order_by before xs h.1)

  pub All-take : (n : ℕ) (xs : List A) → All P xs → All P (take n xs)
  All-take zero xs h = tt
  All-take (suc n) [] h = tt
  All-take (suc n) (x ∷ xs) h = (h.0, All-take n xs h.1)

  pub All-drop : (n : ℕ) (xs : List A) → All P xs → All P (drop n xs)
  All-drop zero xs h = h
  All-drop (suc n) [] h = tt
  All-drop (suc n) (x ∷ xs) h = All-drop n xs h.1

pub All-map :
    {A B : Type 0} (P : A → Type 0) (Q : B → Type 0) (f : A → B)
    → ((x : A) → P x → Q (f x))
    → (xs : List A) → All P xs
    → All Q (map f xs)
All-map P Q f h [] k = tt
All-map P Q f h (x ∷ xs) k = (h x k.0, All-map P Q f h xs k.1)

-- The statuses that the test takes for the same are the same.
pub is_status_path : (s t : WorkflowStatus) → is_status s t ≡ true → s ≡ t
is_status_path WorkflowStatus.unspecified WorkflowStatus.unspecified h = refl
is_status_path WorkflowStatus.running WorkflowStatus.running h = refl
is_status_path WorkflowStatus.completed WorkflowStatus.completed h = refl
is_status_path WorkflowStatus.failed WorkflowStatus.failed h = refl
is_status_path WorkflowStatus.timed_out WorkflowStatus.timed_out h = refl
is_status_path WorkflowStatus.terminated WorkflowStatus.terminated h = refl
is_status_path s t h = cc

-- How many rows a query returns.
module _ {A : Type 0} where
  pub length-select : (p : A → Bool) (xs : List A) → length (select p xs) ≡ count p xs
  unfolding select count
  length-select p [] = refl
  length-select p (x ∷ xs) = ground (arith, length-select p xs)

  length-insert_by :
      (before : A → A → Bool) (x : A) (xs : List A)
      → length (insert_by before x xs) ≡ suc (length xs)
  unfolding insert_by
  length-insert_by before x [] = refl
  length-insert_by before x (y ∷ ys) = ground (arith, length-insert_by before x ys)

  pub length-order_by :
      (before : A → A → Bool) (xs : List A) → length (order_by before xs) ≡ length xs
  unfolding order_by
  length-order_by before [] = refl
  length-order_by before (x ∷ xs) =
      length-insert_by before x (order_by before xs) ∙ ap suc (length-order_by before xs)

  pub length-take : (n : ℕ) (xs : List A) → length (take n xs) ≡ min n (length xs)
  length-take zero xs = omega arith
  length-take (suc n) [] = omega arith
  length-take (suc n) (x ∷ xs) = omega (arith, length-take n xs)

abbrev pub with_status : List Execution → WorkflowStatus → ℕ
with_status es w = count (λ e. is_status e.status w) es

-- The keys of the map of counts, in some order: every status that has a row comes once.
abbrev pub IsCounted : List WorkflowStatus → List Execution → Type 0
IsCounted keys es = (w : WorkflowStatus) → 1 ≤ with_status es w → count (is_status w) keys ≡ 1

pub exists-count : {A : Type 0} (p : A → Bool) (xs : List A) → exists p xs ≡ ltb 0 (count p xs)
unfolding exists count
exists-count p [] = refl
exists-count p (x ∷ xs) = ground (arith, exists-count p xs)
