-- ===== src/Prelude/Counting.antt =====
-- How the queries on a table change the number of rows that pass a test.
use chronos_engine.Prelude.{
  ℕ, ◌+◌, ◌≤◌, ◌≡◌, refl, Bool, true, false, List, [], ◌∷◌, ◌++◌, none, some, arith, if◌then◌else◌,
  select, first, update_where, delete_where, exists, count,
}

abbrev pub one_if : Bool → ℕ
one_if b = if b then 1 else 0

module _ {ℓ} {A : Type ℓ} where
  pub count-append : (p : A → Bool) (xs ys : List A) → count p (xs ++ ys) ≡ count p xs + count p ys
  unfolding count
  count-append p [] ys = omega arith
  count-append p (x ∷ xs) ys = omega (arith, count-append p xs ys)

  pub select-append :
      (p : A → Bool) (xs ys : List A) → select p (xs ++ ys) ≡ select p xs ++ select p ys
  unfolding select
  select-append p [] ys = refl
  select-append p (x ∷ xs) ys = ground (arith, select-append p xs ys)

  pub first_passes : (p : A → Bool) (xs : List A) (x : A) → first p xs ≡ some x → p x ≡ true
  unfolding first
  first_passes p [] x h = cc
  first_passes p (y ∷ xs) x h = ground (arith, first_passes p xs x)

  pub count-delete_where_le :
      (p q : A → Bool) (xs : List A) → count q (delete_where p xs) ≤ count q xs
  unfolding count delete_where
  count-delete_where_le p q [] = omega arith
  count-delete_where_le p q (x ∷ xs) = ground (arith, count-delete_where_le p q xs)

  -- A deletion that hits `x` takes `x` out of every count that it was in.
  pub count-delete_where :
      (p q : A → Bool) (xs : List A) (x : A)
      → first p xs ≡ some x
      → count q (delete_where p xs) + one_if (q x) ≤ count q xs
  unfolding count delete_where first
  count-delete_where p q [] x h = cc
  count-delete_where p q (y ∷ xs) x h =
      ground (arith, count-delete_where p q xs x, count-delete_where_le p q xs)

  pub first-delete_where : (p : A → Bool) (xs : List A) → first p (delete_where p xs) ≡ none
  unfolding first delete_where
  first-delete_where p [] = refl
  first-delete_where p (x ∷ xs) = ground (arith, first-delete_where p xs)

  pub first-append_none :
      (p : A → Bool) (xs ys : List A) → first p xs ≡ none → first p (xs ++ ys) ≡ first p ys
  unfolding first
  first-append_none p [] ys h = refl
  first-append_none p (x ∷ xs) ys h = ground (arith, first-append_none p xs ys)

  pub first-append_some :
      (p : A → Bool) (xs ys : List A) (x : A) → first p xs ≡ some x → first p (xs ++ ys) ≡ some x
  unfolding first
  first-append_some p [] ys x h = cc
  first-append_some p (y ∷ xs) ys x h = ground (arith, first-append_some p xs ys x)

  -- An update that leaves a test's answer alone leaves the count alone.
  pub count-update_where :
      (p q : A → Bool) (f : A → A) (xs : List A)
      → ((x : A) → q (f x) ≡ q x)
      → count q (update_where p f xs) ≡ count q xs
  unfolding count update_where
  count-update_where p q f [] h = refl
  count-update_where p q f (x ∷ xs) h = ground (arith, h x, count-update_where p q f xs h)

  -- An update after which no more rows pass.
  pub count-update_where_le :
      (p q : A → Bool) (f : A → A) (xs : List A)
      → ((x : A) → q (f x) ≡ true → q x ≡ true)
      → count q (update_where p f xs) ≤ count q xs
  unfolding count update_where
  count-update_where_le p q f [] h = omega arith
  count-update_where_le p q f (x ∷ xs) h = ground (arith, h x, count-update_where_le p q f xs h)

  -- The rows of a narrower test, where a wider one finds none.
  pub exists-count_le :
      (p q : A → Bool) (xs : List A)
      → ((x : A) → q x ≡ true → p x ≡ true)
      → exists p xs ≡ false
      → count q xs ≡ 0
  unfolding exists count
  exists-count_le p q [] h e = refl
  exists-count_le p q (x ∷ xs) h e = ground (arith, h x, exists-count_le p q xs h)

  -- The first row that passes, after an update that keeps the test's answer.
  pub first-update_where :
      (p q : A → Bool) (f : A → A) (xs : List A)
      → ((x : A) → q (f x) ≡ q x)
      → first q (update_where p f xs)
        ≡ (elim (first q xs) [ none ↦ none | some x ↦ some (if p x then f x else x) ])
  unfolding first update_where
  first-update_where p q f [] h = refl
  first-update_where p q f (x ∷ xs) h = ground (arith, h x, first-update_where p q f xs h)

  pub exists-count : (p : A → Bool) (xs : List A) → exists p xs ≡ false → count p xs ≡ 0
  unfolding exists count
  exists-count p [] h = refl
  exists-count p (x ∷ xs) h = ground (arith, exists-count p xs)

  pub count_pos : (p : A → Bool) (xs : List A) (x : A) → first p xs ≡ some x → 1 ≤ count p xs
  unfolding first count
  count_pos p [] x h = cc
  count_pos p (y ∷ xs) x h = ground (arith, count_pos p xs x)

pub exists_last :
    {A : Type 0} (p : A → Bool) (xs : List A) (x : A) → p x ≡ true → exists p (xs ++ x ∷ []) ≡ true
unfolding exists
exists_last p [] x h = ground (arith, h)
exists_last p (y ∷ xs) x h = ground (arith, exists_last p xs x h)
