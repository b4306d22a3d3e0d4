-- ===== src/Store/Keeps.antt =====
-- What a transaction that commits has done, part by part, and the invariants of transactions: one
-- rule for each way to build one.
use chronos_engine.Prelude.{◌≡◌, refl, Bool, true, false, Option, none, some, arith, if◌then◌else◌}
use chronos_engine.Store.Tables.{Db}
use chronos_engine.Store.Monad.{
  Error, Result, ok, err, Tx, ◌>>=◌, pure, raise, gets, row_or, on_error, exec, when, after,
}

-- Inversion of a commit.
module _ {A : Type 0} where
  pub ok-injective :
      {a b : A} {db db' : Db}
      → ◌≡◌ {A = Result (A × Db)} (ok (a, db)) (ok (b, db'))
      → (a ≡ b) × (db ≡ db')
  ok-injective e = (cc, cc)

  pub row_or-inv :
      (e : Error) (query : Db → Option A) (db : Db) {a : A} {db' : Db}
      → row_or e query db ≡ ok (a, db')
      → (query db ≡ some a) × (db ≡ db')
  row_or-inv e query db h = ground arith

  pub bind-inv :
      {B : Type 0} (m : Tx A) (f : A → Tx B) (db : Db) {b : B} {db' : Db}
      → (m >>= f) db ≡ ok (b, db')
      → (a : A) × (mid : Db) × (m db ≡ ok (a, mid)) × (f a mid ≡ ok (b, db'))
  bind-inv m f db {b} {db'} h = go (m db) refl h
    where
      go :
          (r : Result (A × Db))
          → m db ≡ r
          → (elim r [ ok (a, mid) ↦ f a mid | err e ↦ err e ]) ≡ ok (b, db')
          → (a : A) × (mid : Db) × (m db ≡ ok (a, mid)) × (f a mid ≡ ok (b, db'))
      go (ok (a, mid)) e h = (a, mid, e, h)
      go (err x) e h = cc

pub row_or-none :
    {A B : Type 0} (e : Error) (query : Db → Option A) (k : A → Tx B) (db : Db)
    → query db ≡ none
    → (row_or e query >>= k) db ≡ err e
row_or-none e query k db h = ground arith

pub when-inv :
    (b : Bool) (e : Error) (db : Db) {u : Unit {0}} {db' : Db}
    → when b e db ≡ ok (u, db')
    → (b ≡ false) × (db ≡ db')
when-inv true e db h = cc
when-inv false e db h = (refl, cc)

-- A transaction that commits leaves `P` as it found it.
pub record Keeps {A : Type 0} (P : Db → Type 0) (m : Tx A) : Type 0 where
  pub at : (db : Db) → P db → (a : A) (db' : Db) → m db ≡ ok (a, db') → P db'

module _ {A : Type 0} {P : Db → Type 0} where
  pub Keeps-pure : (a : A) → Keeps P (pure a)
  Keeps-pure a = record { at = λ db h b db' e. rw (← (ok-injective e).1) h }

  pub Keeps-raise : (e : Error) → Keeps {A = A} P (raise e)
  Keeps-raise e = record { at = λ db h b db' q. cc }

  pub Keeps-if :
      (test : Bool) (first second : Tx A)
      → (test ≡ true → Keeps P first)
      → (test ≡ false → Keeps P second)
      → Keeps P (if test then first else second)
  Keeps-if true first second taken missed = taken refl
  Keeps-if false first second taken missed = missed refl

  pub Keeps-row_or : (e : Error) (query : Db → Option A) → Keeps P (row_or e query)
  Keeps-row_or e query = record { at = λ db h a db' q. rw (← (row_or-inv e query db q).1) h }

  pub Keeps-gets : (query : Db → A) → Keeps P (gets query)
  Keeps-gets query = record { at = λ db h a db' e. rw (← (ok-injective e).1) h }

  pub Keeps-on_error :
      (m : Tx A) (handler : Error → Tx A)
      → Keeps P m
      → ((e : Error) → Keeps P (handler e))
      → Keeps P (on_error m handler)
  Keeps-on_error m handler km kh = record {
    at = λ db h b db' e. go db h (m db) (km.at db h) b db' e;
  }
    where
      go :
          (db : Db)
          → P db
          → (r : Result (A × Db)) → ((a : A) (db' : Db) → r ≡ ok (a, db') → P db')
          → (b : A) (db' : Db) → (elim r [ ok s ↦ ok s | err e ↦ handler e db ]) ≡ ok (b, db')
          → P db'
      go db h (ok s) k b db' e = k b db' e
      go db h (err x) k b db' e = (kh x).at db h b db' e

  pub Keeps-after : (m : Tx A) → Keeps P m → (db : Db) → P db → P (after db (m db))
  Keeps-after m k db h = go (m db) (k.at db h)
    where
      go : (r : Result (A × Db)) → ((a : A) (db' : Db) → r ≡ ok (a, db') → P db') → P (after db r)
      go (ok (a, db')) f = f a db' refl
      go (err e) f = h

  pub Keeps-bind :
      {B : Type 0} (m : Tx A) (f : A → Tx B)
      → Keeps P m
      → ((a : A) → Keeps P (f a))
      → Keeps P (m >>= f)
  Keeps-bind m f km kf = record {
    at = λ db h b db' e.
        let (a, mid, first, rest) = bind-inv m f db e in
        (kf a).at mid (km.at db h a mid first) b db' rest;
  }

module _ {P : Db → Type 0} where
  pub Keeps-exec : (f : Db → Db) → ((db : Db) → P db → P (f db)) → Keeps P (exec f)
  Keeps-exec f k = record { at = λ db h a db' e. rw (← (ok-injective e).1) (k db h) }

  pub Keeps-when : (b : Bool) (e : Error) → Keeps P (when b e)
  Keeps-when true e = Keeps-raise e
  Keeps-when false e = Keeps-pure tt

pub ruleset keeps_rules = (
  Keeps-pure, Keeps-raise, Keeps-if, Keeps-bind, Keeps-gets, Keeps-row_or, Keeps-on_error,
  Keeps-exec, Keeps-when,
)
