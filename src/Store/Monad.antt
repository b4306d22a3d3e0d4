-- ===== src/Store/Monad.antt =====
-- A transaction: it reads and writes the database, and an error rolls it back (`pgx.BeginFunc`).
-- Transactions are atomic steps: the row locks that they take, `FOR UPDATE` and
-- `FOR UPDATE SKIP LOCKED`, are what makes them so, and are not modelled themselves.
use chronos_engine.Prelude.{
  Option, none, some, Bool, true, false, ℤ, List, [], ◌∷◌, ltb_ℤ, if◌then◌else◌,
}
use chronos_engine.Store.Tables.{Db}

-- `ErrNotFound`, `ErrConflict`, `ErrTaskLost`, the two other errors that the store makes, a query
-- for one row that finds none, and Postgres error 23505.
pub data Error : Type 0 where
  not_found conflict task_lost not_running invalid_text unknown_command no_rows unique_violation :
      Error

pub data Result {ℓ} (A : Type ℓ) : Type ℓ where
  ok : A → Result A
  err : Error → Result A

abbrev pub Tx : Type 0 → Type 0
Tx A = Db → Result (A × Db)

infixl 5 ◌>>=◌ ◌>>◌
abbrev pub ◌>>=◌ : {A B : Type 0} → Tx A → (A → Tx B) → Tx B
◌>>=◌ m f db = elim (m db) [ ok (a, db') ↦ f a db' | err e ↦ err e ]

abbrev pub ◌>>◌ : {A B : Type 0} → Tx A → Tx B → Tx B
m >> k = m >>= λ _. k

abbrev pub pure : {A : Type 0} → A → Tx A
pure a db = ok (a, db)

abbrev pub raise : {A : Type 0} → Error → Tx A
raise e db = err e

-- `QueryRow(...).Scan(...)`: the row, or the error of a query that has none.
abbrev pub row_or : {A : Type 0} → Error → (Db → Option A) → Tx A
row_or e query db = elim (query db) [ none ↦ err e | some a ↦ ok (a, db) ]

-- A query that always has an answer.
abbrev pub gets : {A : Type 0} → (Db → A) → Tx A
gets query db = ok (query db, db)

-- A statement that cannot fail.
abbrev pub exec : (Db → Db) → Tx Unit
exec f db = ok (tt, f db)

abbrev pub when : Bool → Error → Tx Unit
when true e = raise e
when false e = pure tt

-- A new transaction after one that failed, and was rolled back.
abbrev pub on_error : {A : Type 0} → Tx A → (Error → Tx A) → Tx A
on_error m handler db = elim (m db) [ ok r ↦ ok r | err e ↦ handler e db ]

-- The database after a transaction.
abbrev pub after : {A : Type 0} → Db → Result (A × Db) → Db
after db (ok (_, db')) = db'
after db (err _) = db

-- `ORDER BY`, stable.
module _ {A : Type 0} (before : A → A → Bool) where
  unfoldable pub insert_by : A → List A → List A
  insert_by x [] = x ∷ []
  insert_by x (y ∷ ys) = if before y x then y ∷ insert_by x ys else x ∷ y ∷ ys

  unfoldable pub order_by : List A → List A
  unfolding insert_by
  order_by [] = []
  order_by (x ∷ xs) = insert_by x (order_by xs)

-- `ORDER BY key ASC LIMIT 1`: of equal keys, the row that the table has first.
module _ {A : Type 0} (key : A → ℤ) where
  unfoldable pub earliest_from : A → List A → A
  earliest_from best [] = best
  earliest_from best (x ∷ xs) = earliest_from (if ltb_ℤ (key x) (key best) then x else best) xs

  unfoldable pub earliest : List A → Option A
  unfolding earliest_from
  earliest [] = none
  earliest (x ∷ xs) = some (earliest_from x xs)
