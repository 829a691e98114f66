-- ===== src/Table/Pairwise.antt =====
-- Relations between every two rows of a table, and what the statements keep of them.
use authsvc.Prelude.{Bool, List, [], ◌∷◌, ◌++◌, Bool-cases, inl, inr}
use authsvc.Prelude.Lists.{All, All-append}
use authsvc.Table.{update, delete}
use authsvc.Table.Laws.{All-update, All-delete}

module _ {ℓ κ} {A : Type ℓ} (R : A → A → Type κ) where
  -- every row stands in R to every later one
  abbrev pub Pairwise : List A → Type κ
  Pairwise [] = Unit
  Pairwise (x ∷ xs) = All (R x) xs × Pairwise xs

  pub Pairwise-update :
      (p : A → Bool) (f : A → A) (xs : List A)
      → ((x y : A) → R x y → R (f x) y)
      → ((x y : A) → R x y → R x (f y))
      → Pairwise xs
      → Pairwise (update p f xs)
  unfolding update
  Pairwise-update p f [] left right h = tt
  Pairwise-update p f (x ∷ xs) left right h = elim (Bool-cases (p x)) [
    | inl e ↦ rw e (
      All-update _ _ p f xs (λ y r _. right (f x) y (left x y r)) (λ y r _. left x y r) h.0,
      Pairwise-update p f xs left right h.1,
    )
    | inr e ↦ rw e (
      All-update _ _ p f xs (λ y r _. right x y r) (λ y r _. r) h.0,
      Pairwise-update p f xs left right h.1,
    )
  ]

  pub Pairwise-delete : (p : A → Bool) (xs : List A) → Pairwise xs → Pairwise (delete p xs)
  unfolding delete
  Pairwise-delete p [] h = tt
  Pairwise-delete p (x ∷ xs) h = elim (Bool-cases (p x)) [
    | inl e ↦ rw e (Pairwise-delete p xs h.1)
    | inr e ↦ rw e (All-delete _ p xs h.0, Pairwise-delete p xs h.1)
  ]

  pub Pairwise-append :
      (s : A) (xs : List A) → All (λ y. R y s) xs → Pairwise xs → Pairwise (xs ++ s ∷ [])
  Pairwise-append s [] new h = (tt, tt)
  Pairwise-append s (x ∷ xs) new h =
      (All-append _ xs (s ∷ []) h.0 (new.0, tt), Pairwise-append s xs new.1 h.1)
