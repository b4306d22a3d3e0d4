-- ===== src/Store/Reorder.antt =====
-- `ORDER BY start_time DESC` of internal/storage/postgres/workflow.go: where no two rows have the same time, the order
-- in which the query meets the rows does not matter.
use mathlib.Core.Path.{ap₂, subst}
use mathlib.Core.List.Permᴰ.{Permᴰ, nil, cons, swap, trans, refl as perm_refl, symm as perm_symm}
use chronos_engine.Prelude.{
  List, [], ◌∷◌, All, select, Bool, true, leb_ℤ, ◌≡◌, refl, sym, ap, ◌∙◌, arith, Bool-cases, inl,
  inr,
}
use chronos_engine.Store.Tables.{Execution}
use chronos_engine.Store.Monad.{insert_by, order_by}

All-perm : {A : Type 0} (P : A → Type 0) {xs ys : List A} → Permᴰ xs ys → All P xs → All P ys
All-perm P nil h = h
All-perm P (cons e d) h = (subst P e h.0, All-perm P d h.1)
All-perm P (swap e f) h = (subst P f h.1.0, (subst P e h.0, h.1.1))
All-perm P (trans d d') h = All-perm P d' (All-perm P d h)

select_swap :
    {A : Type 0} (p : A → Bool) (a b : A) (l : List A)
    → Permᴰ (select p (a ∷ b ∷ l)) (select p (b ∷ a ∷ l))
unfolding select
select_swap p a b l = elim (Bool-cases (p a)) [
  | inl h ↦ elim (Bool-cases (p b)) [
    | inl k ↦ rw (h, k) (swap refl refl)
    | inr k ↦ rw (h, k) (perm_refl (a ∷ select p l))
  ]
  | inr h ↦ elim (Bool-cases (p b)) [
    | inl k ↦ rw (h, k) (perm_refl (b ∷ select p l))
    | inr k ↦ rw (h, k) (perm_refl (select p l))
  ]
]

select-perm :
    {A : Type 0} (p : A → Bool) {xs ys : List A} → Permᴰ xs ys → Permᴰ (select p xs) (select p ys)
unfolding select
select-perm p nil = nil
select-perm p (cons {a} {b} e d) = elim (Bool-cases (p a)) [
  | inl h ↦ rw (h, sym (ap p e) ∙ h) (cons e (select-perm p d))
  | inr h ↦ rw (h, sym (ap p e) ∙ h) (select-perm p d)
]
select-perm p (swap {a} {b} {a'} {b'} {l} e f) =
    subst (λ x. Permᴰ (select p (a ∷ b ∷ l)) (select p (x ∷ b' ∷ l))) f
      (subst (λ y. Permᴰ (select p (a ∷ b ∷ l)) (select p (b ∷ y ∷ l))) e (select_swap p a b l))
select-perm p (trans d d') = trans (select-perm p d) (select-perm p d')

-- The younger first, or the one that the query met first.
abbrev pub goes_first : Execution → Execution → Bool
goes_first a b = leb_ℤ b.start_time a.start_time

abbrev IsApart : Execution → Execution → Type 0
IsApart a b =
    (leb_ℤ a.start_time b.start_time ≡ true) → (leb_ℤ b.start_time a.start_time ≡ true) → ⊥

insert-insert :
    (x y : Execution) (zs : List Execution)
    → IsApart x y
    → insert_by goes_first x (insert_by goes_first y zs)
      ≡ insert_by goes_first y (insert_by goes_first x zs)
unfolding insert_by
insert-insert x y [] h = ground (arith, h)
insert-insert x y (z ∷ zs) h = ground (arith, h, insert-insert x y zs h)

-- No two rows have the same time.
unfoldable pub AreApart : List Execution → Type 0
AreApart [] = Unit
AreApart (x ∷ xs) = All (IsApart x) xs × AreApart xs

AreApart-perm : {xs ys : List Execution} → Permᴰ xs ys → AreApart xs → AreApart ys
unfolding AreApart
AreApart-perm nil h = tt
AreApart-perm (cons {a} {b} {l₂ = ys} e d) h =
    (subst (λ x. All (IsApart x) ys) e (All-perm (IsApart a) d h.0), AreApart-perm d h.1)
AreApart-perm (swap {a} {b} {a'} {b'} {l} e f) h = (
  (
    subst (λ x. IsApart x b') f (subst (IsApart b) e (λ u v. h.0.0 v u)),
    subst (λ x. All (IsApart x) l) f h.1.0,
  ),
  (subst (λ x. All (IsApart x) l) e h.0.1, h.1.1),
)
AreApart-perm (trans d d') h = AreApart-perm d' (AreApart-perm d h)

order_by-perm :
    {xs ys : List Execution}
    → Permᴰ xs ys
    → AreApart xs
    → order_by goes_first xs ≡ order_by goes_first ys
unfolding order_by AreApart
order_by-perm nil h = refl
order_by-perm (cons e d) h = ap₂ (insert_by goes_first) e (order_by-perm d h.1)
order_by-perm (swap {a} {b} {a'} {b'} {l} e f) h =
    insert-insert a b (order_by goes_first l) h.0.0
    ∙ ap₂ (λ x y. insert_by goes_first x (insert_by goes_first y (order_by goes_first l))) f e
order_by-perm (trans d d') h = order_by-perm d h ∙ order_by-perm d' (AreApart-perm d h)

-- So a query returns the same rows in whichever order it meets those of the table.
pub query-perm :
    (p : Execution → Bool) {xs ys : List Execution}
    → Permᴰ xs ys
    → AreApart (select p ys)
    → order_by goes_first (select p xs) ≡ order_by goes_first (select p ys)
query-perm p d h = sym (order_by-perm (perm_symm (select-perm p d)) h)
