-- ===== src/Otp/Invariant.antt =====
-- What every operation on codes keeps: ids are distinct, a code that is still good has been guessed
-- at fewer than MaxOTPAttempts times, and of one identifier and purpose one code at most is good.
use authsvc.Prelude.{ℕ, ◌≤◌, ◌<◌, ◌≡◌, refl, ◌==◌, Bool, true, false, ◌&&◌, List, arith, is_none}
use authsvc.Prelude.Lists.{All}
use authsvc.Schema.{OtpCode}
use authsvc.Table.{update, delete}
use authsvc.Table.Laws.{All-update, All-delete}
use authsvc.Table.Pairwise.{Pairwise, Pairwise-update, Pairwise-delete}
use authsvc.Table.Unique.{Distinct, Distinct-update}
use authsvc.Otp.{max_otp_attempts, purpose_eq, consume, count_attempt, burn}

abbrev pub same_slot : OtpCode → OtpCode → Bool
same_slot x y = x.identifier == y.identifier && purpose_eq x.purpose y.purpose

-- Of two codes of one identifier and purpose, one at least is consumed.
abbrev pub OneGood : OtpCode → OtpCode → Type 0
OneGood x y = same_slot x y ≡ true → (is_none x.consumed_at && is_none y.consumed_at) ≡ false

abbrev pub Bounded : OtpCode → Type 0
Bounded c =
    (c.attempts ≤ max_otp_attempts) × (is_none c.consumed_at ≡ true → c.attempts < max_otp_attempts)

pub record CodesOk (rows : List OtpCode) : Type 0 where
  pub ids : Distinct (λ (c : OtpCode). c.id) rows
  pub bounded : All Bounded rows
  pub one_good : Pairwise OneGood rows

-- an update that changes neither the id nor the slot, and only consumes
pub record Spends (f : OtpCode → OtpCode) : Type 0 where
  pub id : (c : OtpCode) → (f c).id ≡ c.id
  pub identifier : (c : OtpCode) → (f c).identifier ≡ c.identifier
  pub purpose : (c : OtpCode) → (f c).purpose ≡ c.purpose
  pub hash : (c : OtpCode) → (f c).code_hash ≡ c.code_hash
  pub consumed : (c : OtpCode) → is_none (f c).consumed_at ≡ true → is_none c.consumed_at ≡ true

pub consume-Spends : (t : ℕ) → Spends (consume t)
consume-Spends t = record {
  id = λ c. refl;
  identifier = λ c. refl;
  purpose = λ c. refl;
  hash = λ c. refl;
  consumed = λ c e. cc;
}

pub count_attempt-Spends : (n : ℕ) → Spends (count_attempt n)
count_attempt-Spends n = record {
  id = λ c. refl;
  identifier = λ c. refl;
  purpose = λ c. refl;
  hash = λ c. refl;
  consumed = λ c e. e;
}

pub burn-Spends : (n t : ℕ) → Spends (burn n t)
burn-Spends n t = record {
  id = λ c. refl;
  identifier = λ c. refl;
  purpose = λ c. refl;
  hash = λ c. refl;
  consumed = λ c e. cc;
}

pub update-CodesOk :
    (p : OtpCode → Bool) (f : OtpCode → OtpCode) (rows : List OtpCode)
    → Spends f
    → ((c : OtpCode) → Bounded c → p c ≡ true → Bounded (f c))
    → CodesOk rows
    → CodesOk (update p f rows)
update-CodesOk p f rows s bound h = record {
  ids = Distinct-update _ p f rows s.id h.ids;
  bounded = All-update _ _ p f rows bound (λ c b _. b) h.bounded;
  one_good =
      Pairwise-update _ p f rows
        (λ x y one. ground (arith, s.identifier x, s.purpose x, s.consumed x))
        (λ x y one. ground (arith, s.identifier y, s.purpose y, s.consumed y)) h.one_good;
}

pub delete-CodesOk :
    (p : OtpCode → Bool) (rows : List OtpCode) → CodesOk rows → CodesOk (delete p rows)
delete-CodesOk p rows h = record {
  ids = Pairwise-delete _ p rows h.ids;
  bounded = All-delete _ p rows h.bounded;
  one_good = Pairwise-delete _ p rows h.one_good;
}
