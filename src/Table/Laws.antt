-- ===== src/Table/Laws.antt =====
-- What the statements of authsvc.Table do to the rows, one law for each predicate that the
-- components carry through them.
use authsvc.Prelude.{
  ◌≡◌, Bool, true, false, none, some, List, [], ◌∷◌, ◌++◌, arith, Bool-cases, inl, inr,
}
use authsvc.Prelude.Lists.{All, All-append, Holds}
use authsvc.Table.{select_row, select, update, delete, insert, place, order_by, first}

module _ {ℓ} {A : Type ℓ} (p : A → Bool) where
  pub select_row-matches : (xs : List A) (x : A) → select_row p xs ≡ some x → p x ≡ true
  unfolding select_row
  select_row-matches [] x e = cc
  select_row-matches (y ∷ xs) x e = ground (arith, select_row-matches xs x)

  -- no row fits
  pub select_row-none : (xs : List A) → select_row p xs ≡ none → All (λ x. p x ≡ false) xs
  unfolding select_row
  select_row-none [] e = tt
  select_row-none (y ∷ xs) e = ground (arith, select_row-none xs)

  pub none-select_row : (xs : List A) → All (λ x. p x ≡ false) xs → select_row p xs ≡ none
  unfolding select_row
  none-select_row [] h = ground arith
  none-select_row (y ∷ xs) h = ground (arith, none-select_row xs)

  -- a row that fits, behind rows that do not
  pub select_row-append :
      (x : A) (xs : List A)
      → All (λ y. p y ≡ false) xs
      → p x ≡ true
      → select_row p (xs ++ x ∷ []) ≡ some x
  unfolding select_row
  select_row-append x [] h e = rw e
  select_row-append x (y ∷ ys) h e = rw h.0 (select_row-append x ys h.1 e)

  pub insert-fresh :
      (x : A) (xs : List A) {ys : List A}
      → insert p x xs ≡ some ys
      → (ys ≡ xs ++ x ∷ []) × All (λ y. p y ≡ false) xs
  unfolding insert
  insert-fresh x xs e = ground (arith, select_row-none xs)

module _ {ℓ κ} {A : Type ℓ} (P : A → Type κ) (p : A → Bool) where
  pub All-select_row : (xs : List A) (x : A) → All P xs → select_row p xs ≡ some x → P x
  unfolding select_row
  All-select_row [] x h e = absurd (cc)
  All-select_row (y ∷ xs) x h e = ground (arith, All-select_row xs x)

  pub All-select : (xs : List A) → All P xs → All P (select p xs)
  unfolding select
  All-select [] h = tt
  All-select (y ∷ xs) h = ground (arith, All-select xs)

  -- the rows that a query returns fit its WHERE clause
  pub All-select_where : (xs : List A) → All (λ x. p x ≡ true → P x) xs → All P (select p xs)
  unfolding select
  All-select_where [] h = tt
  All-select_where (y ∷ xs) h = elim (Bool-cases (p y)) [
    | inl e ↦ rw e (h.0 e, All-select_where xs h.1)
    | inr e ↦ rw e (All-select_where xs h.1)
  ]

  pub All-delete : (xs : List A) → All P xs → All P (delete p xs)
  unfolding delete
  All-delete [] h = tt
  All-delete (y ∷ xs) h = ground (arith, All-delete xs)

  pub All-insert :
      (x : A) (xs : List A) {ys : List A} → All P xs → P x → insert p x xs ≡ some ys → All P ys
  unfolding insert
  All-insert x xs h hx e = ground (arith, All-append P xs (x ∷ []))

module _ {ℓ κ} {A : Type ℓ} (P : A → Type κ) where
  All-place : (le : A → A → Bool) (x : A) (xs : List A) → P x → All P xs → All P (place le x xs)
  unfolding place
  All-place le x [] hx h = (hx, tt)
  All-place le x (y ∷ ys) hx h = elim (Bool-cases (le x y)) [
    | inl e ↦ rw e (hx, h)
    | inr e ↦ rw e (h.0, All-place le x ys hx h.1)
  ]

  pub All-order_by : (le : A → A → Bool) (xs : List A) → All P xs → All P (order_by le xs)
  unfolding order_by
  All-order_by le [] h = tt
  All-order_by le (x ∷ xs) h = All-place le x (order_by le xs) h.0 (All-order_by le xs h.1)

  pub All-first : (xs : List A) (x : A) → All P xs → first xs ≡ some x → P x
  unfolding first
  All-first [] x h e = absurd (cc)
  All-first (y ∷ ys) x h e = let same : y ≡ x = cc in rw (← same) h.0

module _ {ℓ κ κ'} {A : Type ℓ} (P : A → Type κ) (Q : A → Type κ') (p : A → Bool) (f : A → A) where
  -- the rows that fit get Q by the update, the others have it already
  pub All-update :
      (xs : List A)
      → ((x : A) → P x → p x ≡ true → Q (f x))
      → ((x : A) → P x → p x ≡ false → Q x)
      → All P xs
      → All Q (update p f xs)
  unfolding update
  All-update [] hit miss h = tt
  All-update (y ∷ xs) hit miss h = elim (Bool-cases (p y)) [
    | inl e ↦ rw e (hit y h.0 e, All-update xs hit miss h.1)
    | inr e ↦ rw e (miss y h.0 e, All-update xs hit miss h.1)
  ]

-- what is found is in the table
pub select_row-Holds :
    {A : Type 0} (p : A → Bool) (xs : List A) (x : A) → select_row p xs ≡ some x → Holds x xs
unfolding select_row
select_row-Holds p [] x e = absurd (cc)
select_row-Holds p (y ∷ xs) x e = elim (Bool-cases (p y)) [
  | inl hit ↦ inl (cc (rw hit at e))
  | inr other ↦ inr (select_row-Holds p xs x (rw other at e))
]
