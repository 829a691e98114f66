-- ===== src/Prelude/Lists.antt =====
-- Lists measured by native numbers, and predicates on all of their items.
use Prim.Native.Nat.{ℕ, suc}
use mathlib.Core.List.{List, [], ◌∷◌, ◌++◌}
use mathlib.Core.Path.{◌≡◌, refl}
use mathlib.Core.Logic.{◌⊎◌, inl, inr}

abbrev pub length {ℓ} : {A : Type ℓ} → List A → ℕ
length [] = 0
length (x ∷ xs) = suc (length xs)

-- It computes to a tuple, which the tactics read and build.
abbrev pub All {ℓ κ} : {A : Type ℓ} → (A → Type κ) → List A → Type κ
All P [] = Unit
All P (x ∷ xs) = P x × All P xs

module _ {ℓ κ} {A : Type ℓ} (P : A → Type κ) where
  pub All-always : (xs : List A) → ((x : A) → P x) → All P xs
  All-always [] h = tt
  All-always (x ∷ xs) h = (h x, All-always xs h)

  pub All-append : (xs ys : List A) → All P xs → All P ys → All P (xs ++ ys)
  All-append [] ys hx hy = hy
  All-append (x ∷ xs) ys hx hy = (hx.0, All-append xs ys hx.1 hy)

module _ {ℓ κ κ'} {A : Type ℓ} (P : A → Type κ) (Q : A → Type κ') where
  pub All-mono : (xs : List A) → ((x : A) → P x → Q x) → All P xs → All Q xs
  All-mono [] f h = tt
  All-mono (x ∷ xs) f h = (f x h.0, All-mono xs f h.1)

-- x is in the list
abbrev pub Holds : {A : Type 0} → A → List A → Type 0
Holds x [] = ⊥
Holds x (y ∷ ys) = (x ≡ y) ⊎ Holds x ys

pub Holds-left : {A : Type 0} (x : A) (xs ys : List A) → Holds x xs → Holds x (xs ++ ys)
Holds-left x [] ys h = absurd h
Holds-left x (y ∷ xs) ys (inl e) = inl e
Holds-left x (y ∷ xs) ys (inr h) = inr (Holds-left x xs ys h)

pub Holds-last : {A : Type 0} (x : A) (xs : List A) → Holds x (xs ++ x ∷ [])
Holds-last x [] = inl refl
Holds-last x (y ∷ xs) = inr (Holds-last x xs)
