-- ===== src/Table/Unique.antt =====
-- A column with no value twice, which is what PRIMARY KEY and UNIQUE say of it.
use authsvc.Prelude.{
  ◌≡◌, refl, ◌==◌, eq_iff, eq_refl, String, Bool, true, false, some, List, [], ◌∷◌, arith,
  Bool-cases, inl, inr,
}
use authsvc.Prelude.Lists.{All, All-mono}
use authsvc.Table.Laws.{All-select_row}
use authsvc.Table.{select_row, update}
use authsvc.Table.Pairwise.{Pairwise, Pairwise-update}

module _ {ℓ} {A : Type ℓ} (key : A → String) where
  abbrev pub Distinct : List A → Type 0
  Distinct = Pairwise (λ x y. (key x == key y) ≡ false)

  pub Distinct-update :
      (p : A → Bool) (f : A → A) (xs : List A)
      → ((x : A) → key (f x) ≡ key x)
      → Distinct xs
      → Distinct (update p f xs)
  Distinct-update p f xs same h =
      Pairwise-update _ p f xs (λ x y e. rw (same x) e) (λ x y e. rw (same y) e) h

  -- The row that a query by such a column finds is the only one with that value.
  pub Distinct-select_row :
      (k : String) (xs : List A) (r : A)
      → Distinct xs
      → select_row (λ x. key x == k) xs ≡ some r
      → All (λ y. (key y == k) ≡ true → y ≡ r) xs
  unfolding select_row
  Distinct-select_row k [] r h e = tt
  Distinct-select_row k (x ∷ xs) r h e = elim (Bool-cases (key x == k)) [
    | inl hit ↦ (
      (λ _. cc (rw hit at e)),
      All-mono _ _ xs
          (λ y apart same.
            absurd (ground (arith, eq_iff (key x) k, eq_iff (key y) k, eq_iff (key x) (key y))))
          h.0,
    )
    | inr miss ↦ (λ hit. cc, Distinct-select_row k xs r h.1 (rw miss at e))
  ]

  -- a row that any query finds is the one that a query by its key finds
  pub Distinct-select_key :
      (q : A → Bool) (xs : List A) (r : A)
      → Distinct xs
      → select_row q xs ≡ some r
      → select_row (λ x. key x == key r) xs ≡ some r
  unfolding select_row
  Distinct-select_key q [] r h e = cc
  Distinct-select_key q (x ∷ xs) r h e = elim (Bool-cases (q x)) [
    | inl hit ↦ let same : x ≡ r = cc (rw hit at e) in rw (same, eq_refl (key r)) refl
    | inr miss ↦
        let found : select_row q xs ≡ some r = rw miss at e in
        rw (All-select_row _ q xs r h.0 found) (Distinct-select_key q xs r h.1 found)
  ]
