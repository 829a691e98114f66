-- ===== src/Web/Cases.antt =====
-- How a call and what follows it can go.
use authsvc.Prelude.{◌≡◌, refl, ◌⊎◌, inl, inr}
use authsvc.Exec.{World, Exec, Result, Error, ok, err}
use authsvc.Web.{Handler, Reply, checked}

pub Result-cases :
    {A : Type 0} (r : Result A) → ((e : Error) × (r ≡ err e)) ⊎ ((a : A) × (r ≡ ok a))
Result-cases (err e) = inl (e, refl)
Result-cases (ok a) = inr (a, refl)

module _ {A : Type 0} (m : Exec A) (bad : Error → Handler) (good : A → Handler) (w : World) where
  -- either the call fails and its error is handled, or what follows it runs
  pub checked-cases :
      ((e : Error) × (((m w).0 ≡ err e) × (checked m bad good w ≡ bad e (m w).1)))
      ⊎ ((a : A) × (((m w).0 ≡ ok a) × (checked m bad good w ≡ good a (m w).1)))
  unfolding checked
  checked-cases = elim (Result-cases (m w).0) [
    | inl (e, failing) ↦ inl (e, (failing, rw failing refl))
    | inr (a, done) ↦ inr (a, (done, rw done refl))
  ]

  -- what no error leads to is what follows the result
  pub checked_ok :
      (Q : Reply × World → Type 0)
      → ((e : Error) → Q (bad e (m w).1) → ⊥)
      → Q (checked m bad good w)
      → (a : A) × (((m w).0 ≡ ok a) × Q (good a (m w).1))
  checked_ok Q never q = elim checked-cases [
    | inl (e, (failing, same)) ↦ absurd (never e (rw same at q))
    | inr (a, (done, same)) ↦ (a, (done, rw same at q))
  ]

  -- what holds of both continuations
  pub checked_both :
      (Q : Reply × World → Type 0)
      → ((e : Error) → (m w).0 ≡ err e → Q (bad e (m w).1))
      → ((a : A) → (m w).0 ≡ ok a → Q (good a (m w).1))
      → Q (checked m bad good w)
  checked_both Q failing done = elim checked-cases [
    | inl (e, (eq, same)) ↦ rw same (failing e eq)
    | inr (a, (eq, same)) ↦ rw same (done a eq)
  ]
