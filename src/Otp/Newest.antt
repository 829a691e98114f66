-- ===== src/Otp/Newest.antt =====
-- The query of ConsumeCode finds the one code of its identifier and purpose that is still good.
use authsvc.Prelude.{
  ◌≡◌, refl, eq_iff, Bool, true, false, String, some, none, List, [], ◌∷◌, arith, Bool-cases, inl,
  inr,
}
use authsvc.Prelude.Lists.{All, All-mono}
use authsvc.Schema.{OtpCode, Purpose}
use authsvc.Table.{select, order_by, first}
use authsvc.Table.Laws.{All-select_where, All-order_by, All-first}
use authsvc.Table.Pairwise.{Pairwise}
use authsvc.Otp.{purpose_eq, outstanding, newest, newer}
use authsvc.Otp.Invariant.{OneGood}

select-nothing :
    (q : OtpCode → Bool) (rows : List OtpCode) → All (λ c. q c ≡ false) rows → select q rows ≡ []
unfolding select
select-nothing q [] h = refl
select-nothing q (x ∷ xs) h = rw h.0 (select-nothing q xs h.1)

purpose_eq_trans :
    (a b c : Purpose) → purpose_eq a c ≡ true → purpose_eq b c ≡ true → purpose_eq a b ≡ true
purpose_eq_trans a b c h k = ground arith

module _ (identifier : String) (p : Purpose) where
  others_consumed :
      (x y : OtpCode)
      → outstanding identifier p x ≡ true
      → OneGood x y
      → outstanding identifier p y ≡ false
  others_consumed x y out one = ground (
    arith,
    purpose_eq_trans x.purpose y.purpose p,
    eq_iff x.identifier identifier,
    eq_iff y.identifier identifier,
    eq_iff x.identifier y.identifier,
  )

  data Singled (rows : List OtpCode) : Type 0 where
    nothing : select (outstanding identifier p) rows ≡ [] → Singled rows
    only :
        (x : OtpCode)
        → select (outstanding identifier p) rows ≡ x ∷ []
        → All (λ c. outstanding identifier p c ≡ true → c ≡ x) rows
        → Singled rows

  Singled-tail :
      (x : OtpCode) (xs : List OtpCode)
      → outstanding identifier p x ≡ false
      → Singled xs
      → Singled (x ∷ xs)
  unfolding select
  Singled-tail x xs miss (nothing e) = nothing (rw miss e)
  Singled-tail x xs miss (only y e all) = only y (rw miss e) (λ hit. absurd (cc), all)

  singled : (rows : List OtpCode) → Pairwise OneGood rows → Singled rows
  unfolding select
  singled [] h = nothing refl
  singled (x ∷ xs) h = elim (Bool-cases (outstanding identifier p x)) [
    | inl hit ↦
        let rest = All-mono _ _ xs (λ y one. others_consumed x y hit one) h.0 in
        only x (rw (hit, select-nothing _ xs rest))
          (λ _. refl, All-mono _ _ xs (λ y miss hit'. absurd (cc)) rest)
    | inr miss ↦ Singled-tail x xs miss (singled xs h.1)
  ]

  newest_of :
      (rows : List OtpCode) (row : OtpCode)
      → Singled rows
      → newest identifier p rows ≡ some row
      → All (λ c. outstanding identifier p c ≡ true → c ≡ row) rows
  unfolding newest order_by first
  newest_of rows row (nothing e) found = absurd (cc (rw e at found))
  newest_of rows row (only x e all) found =
      let same : x ≡ row = cc (rw e at found) in rw (← same) all

  pub newest-only :
      (rows : List OtpCode) (row : OtpCode)
      → Pairwise OneGood rows
      → newest identifier p rows ≡ some row
      → All (λ c. outstanding identifier p c ≡ true → c ≡ row) rows
  newest-only rows row h found = newest_of rows row (singled rows h) found

  nothing_good :
      (rows : List OtpCode)
      → select (outstanding identifier p) rows ≡ []
      → All (λ c. outstanding identifier p c ≡ false) rows
  unfolding select
  nothing_good [] e = tt
  nothing_good (x ∷ xs) e = elim (Bool-cases (outstanding identifier p x)) [
    | inl hit ↦ absurd (cc (rw hit at e))
    | inr miss ↦ (miss, nothing_good xs (rw miss at e))
  ]

  newest-none_of :
      (rows : List OtpCode)
      → Singled rows
      → newest identifier p rows ≡ none
      → All (λ c. outstanding identifier p c ≡ false) rows
  unfolding newest order_by first
  newest-none_of rows (nothing e) found = nothing_good rows e
  newest-none_of rows (only x e all) found = absurd (cc (rw e at found))

  pub none-newest :
      (rows : List OtpCode)
      → Pairwise OneGood rows
      → newest identifier p rows ≡ none
      → All (λ c. outstanding identifier p c ≡ false) rows
  none-newest rows h found = newest-none_of rows (singled rows h) found

  pub newest-matches :
      (Q : OtpCode → Type 0) (rows : List OtpCode) (row : OtpCode)
      → newest identifier p rows ≡ some row
      → All (λ c. outstanding identifier p c ≡ true → Q c) rows
      → Q row
  unfolding newest
  newest-matches Q rows row found h =
      All-first _ _ row
        (All-order_by _ newer _ (All-select_where _ (outstanding identifier p) rows h)) found
