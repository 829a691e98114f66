-- ===== src/Otp/Guess.antt =====
-- The cases that a guess at a code, consume_code, can end in.
use authsvc.Prelude.{
  ℕ, suc, ◌+◌, ◌≤◌, ◌<◌, ◌≡◌, refl, ◌==◌, true, false, String, none, some, arith, leb, ltb,
  Bool-cases, Option-cases, inl, inr, le_of_not_ltb,
}
use authsvc.Schema.{OtpCode, Purpose}
use authsvc.Exec.{
  Env, World, Result, Error, ok, err, failed, code_invalid, code_attempts, Outcome, ◌>>=◌, finish,
}
use authsvc.Table.{update}
use authsvc.Otp.{
  max_otp_attempts, has_id, consume, count_attempt, burn, set_codes, newest, wrong_guess,
  right_guess, judge, consume_code, consume_code_body,
}

-- what the table says of the row that a guess is held against
pub record Judged (env : Env) (identifier : String) (p : Purpose) (w : World) (row : OtpCode)
    (t : ℕ) : Type 0 where
  pub found : newest identifier p w.db.otp_codes ≡ some row
  pub read : (w.tick ≤ t) × (env.time t ≤ row.expires_at)
  pub allowed : row.attempts < max_otp_attempts

pub data Guess (env : Env) (identifier : String) (p : Purpose) (code : String) (w : World)
    (r : Result (Unit {0})) (w' : World) : Type 0 where
  faulty :
      (k : ℕ) (e : Error)
      → w.tick ≤ k
      → env.fails k ≡ true
      → r ≡ err e
      → w'.db ≡ w.db
      → Guess env identifier p code w r w'
  missing :
      newest identifier p w.db.otp_codes ≡ none
      → r ≡ err code_invalid
      → w'.db ≡ w.db
      → Guess env identifier p code w r w'
  late :
      (row : OtpCode) (k : ℕ)
      → newest identifier p w.db.otp_codes ≡ some row
      → (w.tick ≤ k) × (k ≤ w'.tick)
      → row.expires_at < env.time k
      → r ≡ err code_invalid
      → w'.db ≡ w.db
      → Guess env identifier p code w r w'
  exhausted :
      (row : OtpCode)
      → newest identifier p w.db.otp_codes ≡ some row
      → max_otp_attempts ≤ row.attempts
      → r ≡ err code_attempts
      → w'.db ≡ w.db
      → Guess env identifier p code w r w'
  counted :
      (row : OtpCode) (t : ℕ)
      → Judged env identifier p w row t
      → (row.code_hash == env.sha256 code) ≡ false
      → suc row.attempts < max_otp_attempts
      → r ≡ err code_invalid
      → w'.db ≡ set_codes (update (has_id row.id) (count_attempt (suc row.attempts))) w.db
      → Guess env identifier p code w r w'
  burnt :
      (row : OtpCode) (t k : ℕ)
      → Judged env identifier p w row t
      → (row.code_hash == env.sha256 code) ≡ false
      → suc row.attempts ≡ max_otp_attempts
      → r ≡ err code_attempts
      → w'.db ≡ set_codes (update (has_id row.id) (burn (suc row.attempts) (env.time k))) w.db
      → Guess env identifier p code w r w'
  right :
      (row : OtpCode) (t k : ℕ)
      → Judged env identifier p w row t
      → (row.code_hash == env.sha256 code) ≡ true
      → r ≡ ok tt
      → w'.db ≡ set_codes (update (has_id row.id) (consume (env.time k))) w.db
      → Guess env identifier p code w r w'

module _ (env : Env) (identifier : String) (p : Purpose) (code : String) (w : World) where
  ahead : ℕ → World
  ahead n = record { db = w.db; tick = n + w.tick }

  finished : Result (Outcome (Unit {0})) × World → Result (Unit {0}) × World
  finished out = finish env w.db out.0 out.1

  abbrev Ends : Result (Outcome (Unit {0})) × World → Type 0
  Ends out = Guess env identifier p code w (finished out).0 (finished out).1

  right_case :
      (row : OtpCode) (k t : ℕ)
      → w.tick ≤ k
      → Judged env identifier p w row t
      → (row.code_hash == env.sha256 code) ≡ true
      → Ends (right_guess env row (record { db = w.db; tick = k }))
  unfolding finished right_guess ◌>>=◌
  right_case row k t le j same = elim (Bool-cases (env.fails (suc k))) [
    | inl e ↦ rw e (faulty (suc k) failed (omega arith) e refl refl)
    | inr e ↦ rw e (elim (Bool-cases (env.fails (suc (suc k)))) [
      | inl e' ↦ rw e' (faulty (suc (suc k)) failed (omega arith) e' refl refl)
      | inr e' ↦ rw e' (right row t k j same refl refl)
    ])
  ]

  counted_case :
      (row : OtpCode) (k t : ℕ)
      → w.tick ≤ k
      → Judged env identifier p w row t
      → (row.code_hash == env.sha256 code) ≡ false
      → leb max_otp_attempts (suc row.attempts) ≡ false
      → Ends (wrong_guess env row (record { db = w.db; tick = k }))
  unfolding finished wrong_guess ◌>>=◌
  counted_case row k t le j other more = rw more (elim (Bool-cases (env.fails k)) [
    | inl e ↦ rw e (faulty k failed (omega arith) e refl refl)
    | inr e ↦ rw e (elim (Bool-cases (env.fails (suc k))) [
      | inl e' ↦ rw e' (faulty (suc k) failed (omega arith) e' refl refl)
      | inr e' ↦ rw e' (counted row t j other (ground arith) refl refl)
    ])
  ])

  burnt_case :
      (row : OtpCode) (k t : ℕ)
      → w.tick ≤ k
      → Judged env identifier p w row t
      → (row.code_hash == env.sha256 code) ≡ false
      → leb max_otp_attempts (suc row.attempts) ≡ true
      → Ends (wrong_guess env row (record { db = w.db; tick = k }))
  unfolding finished wrong_guess ◌>>=◌
  burnt_case row k t le j other last = rw last (elim (Bool-cases (env.fails (suc k))) [
    | inl e ↦ rw e (faulty (suc k) failed (omega arith) e refl refl)
    | inr e ↦ rw e (elim (Bool-cases (env.fails (suc (suc k)))) [
      | inl e' ↦ rw e' (faulty (suc (suc k)) failed (omega arith) e' refl refl)
      | inr e' ↦ rw e' (burnt row t k j other (ground (arith, j.allowed)) refl refl)
    ])
  ])

  judged_case :
      (row : OtpCode) (k t : ℕ)
      → (w.tick ≤ t) × (t ≤ k)
      → newest identifier p w.db.otp_codes ≡ some row
      → Ends (judge env code row (env.time t) (record { db = w.db; tick = k }))
  unfolding finished judge ◌>>=◌
  judged_case row k t range found = elim (Bool-cases (ltb row.expires_at (env.time t))) [
    | inl over ↦ rw over (late row t found range (ground arith) refl refl)
    | inr intime ↦ rw intime (elim (Bool-cases (leb max_otp_attempts row.attempts)) [
      | inl full ↦ rw full (exhausted row found (ground arith) refl refl)
      | inr free ↦ rw free (
          let j : Judged env identifier p w row t = record {
            found = found;
            read = (range.0, le_of_not_ltb _ _ intime);
            allowed = ground arith;
          } in
          elim (Bool-cases (row.code_hash == env.sha256 code)) [
            | inl same ↦ rw same (right_case row k t (omega arith) j same)
            | inr other ↦ rw other (elim (Bool-cases (leb max_otp_attempts (suc row.attempts))) [
              | inl last ↦ burnt_case row k t (omega arith) j other last
              | inr more ↦ counted_case row k t (omega arith) j other more
            ])
          ])
    ])
  ]

  pub consume_code-Guess :
      Guess env identifier p code w
        (consume_code env identifier p code w).0
        (consume_code env identifier p code w).1
  unfolding consume_code consume_code_body ◌>>=◌ finished
  consume_code-Guess = elim (Bool-cases (env.fails w.tick)) [
    | inl e ↦ rw e (faulty w.tick failed (omega arith) e refl refl)
    | inr e ↦ rw e (elim (Bool-cases (env.fails (suc w.tick))) [
      | inl e' ↦ rw e' (faulty (suc w.tick) code_invalid (omega arith) e' refl refl)
      | inr e' ↦ rw e' (elim (Option-cases (newest identifier p w.db.otp_codes)) [
        | inl none_there ↦ rw none_there (missing none_there refl refl)
        | inr (row, found) ↦ rw found (
            judged_case row (suc (suc (suc w.tick))) (suc (suc w.tick)) (omega arith, omega arith)
              found)
      ])
    ])
  ]
