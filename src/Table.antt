-- ===== src/Table.antt =====
-- Tables, and the SQL statements that internal/store runs on them (SELECT, UPDATE, DELETE and
-- INSERT with a WHERE clause). A table is the list of its rows in the order of insertion; a WHERE
-- clause is a Boolean test of a row.
pub mod Laws
pub mod Pairwise
pub mod Unique
use authsvc.Prelude.{ℕ, ◌+◌, Bool, Option, none, some, List, [], ◌∷◌, ◌++◌, if◌then◌else◌}

module _ {ℓ} {A : Type ℓ} where
  -- SELECT … WHERE p, of at most one row
  unfoldable pub select_row : (A → Bool) → List A → Option A
  select_row p [] = none
  select_row p (x ∷ xs) = if p x then some x else select_row p xs

  -- SELECT … WHERE p
  unfoldable pub select : (A → Bool) → List A → List A
  select p [] = []
  select p (x ∷ xs) = let rest = select p xs in if p x then x ∷ rest else rest

  -- UPDATE … SET f WHERE p
  unfoldable pub update : (A → Bool) → (A → A) → List A → List A
  update p f [] = []
  update p f (x ∷ xs) = (if p x then f x else x) ∷ update p f xs

  -- DELETE … WHERE p
  unfoldable pub delete : (A → Bool) → List A → List A
  delete p [] = []
  delete p (x ∷ xs) = let rest = delete p xs in if p x then rest else x ∷ rest

  -- the rows that a WHERE clause fits, as a command's tag counts them
  unfoldable pub affected : (A → Bool) → List A → ℕ
  affected p [] = 0
  affected p (x ∷ xs) = (if p x then 1 else 0) + affected p xs

  -- INSERT, where `conflict` says which old rows a UNIQUE or PRIMARY KEY column keeps out
  unfoldable pub insert : (A → Bool) → A → List A → Option (List A)
  unfolding select_row
  insert conflict x xs = elim (select_row conflict xs) [
    | none ↦ some (xs ++ x ∷ [])
    | some old ↦ none
  ]

  -- ORDER BY: rows that `le` lets stand in either order keep theirs
  unfoldable pub place : (A → A → Bool) → A → List A → List A
  place le x [] = x ∷ []
  place le x (y ∷ ys) = if le x y then x ∷ y ∷ ys else y ∷ place le x ys

  unfoldable pub order_by : (A → A → Bool) → List A → List A
  unfolding place
  order_by le [] = []
  order_by le (x ∷ xs) = place le x (order_by le xs)

  -- LIMIT 1
  unfoldable pub first : List A → Option A
  first [] = none
  first (x ∷ xs) = some x
