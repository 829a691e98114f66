-- ===== src/Otp/BruteForce.antt =====
-- Five wrong guesses burn a code.
use authsvc.Prelude.{
  ℕ, suc, ◌+◌, ◌≤◌, ◌<◌, ◌≡◌, refl, ap, sym, ◌∙◌, ◌≢◌, ◌⊎◌, eq_iff, true, false, String, some, List,
  [], ◌∷◌, map, arith, inl, inr,
}
use authsvc.Prelude.Lists.{All, All-mono, length}
use authsvc.Schema.{OtpCode, Purpose}
use authsvc.Exec.{Env, World, Result, ok}
use authsvc.Exec.Steps.{Steps, steps_rules, Anything, anything, any_step}
use authsvc.Table.Laws.{All-update}
use authsvc.Otp.{
  max_otp_attempts, newest, outstanding, has_id, count_attempt, burn, consume_code,
  consume_code_body, judge, right_guess, wrong_guess,
}
use authsvc.Otp.Guess.{
  Guess, Judged, faulty, missing, late, exhausted, counted, burnt, right, consume_code-Guess,
}
use authsvc.Otp.Invariant.{CodesOk}
use authsvc.Otp.Trace.{guesses, apply, run}
use authsvc.Otp.Change.{apply-CodesOk}
use authsvc.Otp.Newest.{newest-only, newest-matches, none-newest}
use authsvc.Otp.SingleUse.{GoodHashes, run-GoodHashes}

module _ (env : Env) (identifier : String) (p : Purpose) where
  -- a code that is still good was guessed at n times at least, or is over for good
  abbrev Worn : ℕ → ℕ → OtpCode → Type 0
  Worn n tick c = (n ≤ c.attempts) ⊎ ((k : ℕ) → tick ≤ k → c.expires_at < env.time k)

  abbrev AllWorn : ℕ → World → Type 0
  AllWorn n w = All (λ c. outstanding identifier p c ≡ true → Worn n w.tick c) w.db.otp_codes

  good_row :
      (w : World) (row : OtpCode)
      → CodesOk w.db.otp_codes
      → newest identifier p w.db.otp_codes ≡ some row
      → row.attempts < max_otp_attempts
  good_row w row inv found =
      newest-matches identifier p (λ c. c.attempts < max_otp_attempts) _ row found
        (All-mono _ _ w.db.otp_codes (λ c b out. b.1 (ground arith)) inv.bounded)

  worn_row :
      (n : ℕ) (w : World) (row : OtpCode) (t : ℕ)
      → AllWorn n w
      → Judged env identifier p w row t
      → suc n ≤ suc row.attempts
  worn_row n w row t worn j =
      elim (newest-matches identifier p (Worn n w.tick) _ row j.found worn) [
        | inl guessed ↦ omega arith
        | inr over ↦ absurd (omega (arith, over t j.read.0, j.read.1))
      ]

  judge-Steps : (code : String) (row : OtpCode) (t : ℕ) → Steps Anything (judge env code row t)
  unfolding judge right_guess wrong_guess
  judge-Steps code row t = search (steps_rules, any_step, anything) depth 9

  consume_code-Steps : (code : String) → Steps Anything (consume_code env identifier p code)
  unfolding consume_code consume_code_body
  consume_code-Steps code = search (steps_rules, any_step, judge-Steps)

  module _ (forward : (i j : ℕ) → i ≤ j → env.time i ≤ env.time j) (h : String) where
    Guess-wears :
        (g : String) (n : ℕ) (w w' : World) (r : Result (Unit {0}))
        → ((k : ℕ) → w.tick ≤ k → env.fails k ≡ false)
        → w.tick ≤ w'.tick
        → CodesOk w.db.otp_codes
        → GoodHashes env identifier p (λ x. x ≡ h) w.db.otp_codes
        → env.sha256 g ≢ h
        → AllWorn n w
        → Guess env identifier p g w r w'
        → AllWorn (suc n) w'
    Guess-wears g n w w' r sound le inv hashes wrong worn (faulty k e hk bad eq same) =
        absurd (cc (sound k hk))
    Guess-wears g n w w' r sound le inv hashes wrong worn (missing e eq same) = rw same (
        All-mono _ _ w.db.otp_codes (λ c miss out. absurd (cc))
          (none-newest identifier p w.db.otp_codes inv.one_good e))
    Guess-wears g n w w' r sound le inv hashes wrong worn (late row k found range over eq same) =
        rw same (
          All-mono _ _ w.db.otp_codes
            (λ c only out. inr (λ k' le'.
              omega
                (arith, forward k k' (omega arith), ap (λ (x : OtpCode). x.expires_at) (only out))))
            (newest-only identifier p w.db.otp_codes row inv.one_good found))
    Guess-wears g n w w' r sound le inv hashes wrong worn (exhausted row found full eq same) =
        absurd (omega (arith, good_row w row inv found))
    Guess-wears g n w w' r sound le inv hashes wrong worn (counted row t j other more eq change) =
        rw change (
          All-update _ _ (has_id row.id) (count_attempt (suc row.attempts)) w.db.otp_codes
            (λ c only hit out. inl (worn_row n w row t worn j))
            (λ c only miss out.
              absurd (ground (arith, eq_iff c.id row.id, ap (λ (x : OtpCode). x.id) (only out))))
            (newest-only identifier p w.db.otp_codes row inv.one_good j.found))
    Guess-wears g n w w' r sound le inv hashes wrong worn (burnt row t k j other last eq change) =
        rw change (
          All-update _ _ (has_id row.id) (burn (suc row.attempts) (env.time k)) w.db.otp_codes
            (λ c only hit out. absurd (ground arith))
            (λ c only miss out.
              absurd (ground (arith, eq_iff c.id row.id, ap (λ (x : OtpCode). x.id) (only out))))
            (newest-only identifier p w.db.otp_codes row inv.one_good j.found))
    Guess-wears g n w w' r sound le inv hashes wrong worn (right row t k j same eq change) =
        absurd (
          wrong (
            sym ((eq_iff _ _).0 same)
            ∙ newest-matches identifier p (λ c. c.code_hash ≡ h) _ row j.found hashes))

    guesses_wear :
        (gs : List String) (n m : ℕ) (w : World)
        → ((k : ℕ) → w.tick ≤ k → env.fails k ≡ false)
        → CodesOk w.db.otp_codes
        → GoodHashes env identifier p (λ x. x ≡ h) w.db.otp_codes
        → All (λ g. env.sha256 g ≢ h) gs
        → AllWorn n w
        → m ≤ n + length gs
        → AllWorn m (run env (map (guesses identifier p) gs) w)
    unfolding run apply
    guesses_wear [] n m w sound inv hashes wrong worn le =
        All-mono _ _ w.db.otp_codes
          (λ c old out. elim (old out) [ inl guessed ↦ inl (omega arith) | inr over ↦ inr over ])
          worn
    guesses_wear (g ∷ gs) n m w sound inv hashes wrong worn le =
        let later = (consume_code-Steps g).later w in
        guesses_wear gs (suc n) m (consume_code env identifier p g w).1
          (λ k le. sound k (omega arith)) (apply-CodesOk env (guesses identifier p g) w inv)
          (run-GoodHashes env identifier p (λ x. x ≡ h) (guesses identifier p g ∷ []) w (refl, tt)
            hashes)
          wrong.1
          (Guess-wears g n w _ _ sound later inv hashes wrong.0 worn
            (consume_code-Guess env identifier p g w))
          (omega arith)

    worn_out :
        (code : String) (w w' : World) (r : Result (Unit {0}))
        → AllWorn max_otp_attempts w
        → Guess env identifier p code w r w'
        → r ≢ ok tt
    worn_out code w w' r worn (faulty k e hk bad eq same) good = cc
    worn_out code w w' r worn (missing e eq same) good = cc
    worn_out code w w' r worn (late row k found range over eq same) good = cc
    worn_out code w w' r worn (exhausted row found full eq same) good = cc
    worn_out code w w' r worn (counted row t j other more eq change) good = cc
    worn_out code w w' r worn (burnt row t k j other last eq change) good = cc
    worn_out code w w' r worn (right row t k j same eq change) good =
        omega (arith, worn_row max_otp_attempts w row t worn j, j.allowed)

    -- In a table that satisfies CodesOk and where every code of an identifier and purpose that
    -- is not consumed has one hash, five guesses or more that miss it leave no guess accepted,
    -- not even the right one, where nothing fails and the clock does not turn back.
    pub five_wrong_guesses :
        (gs : List String) (code : String) (w : World)
        → ((k : ℕ) → w.tick ≤ k → env.fails k ≡ false)
        → CodesOk w.db.otp_codes
        → GoodHashes env identifier p (λ x. x ≡ h) w.db.otp_codes
        → All (λ g. env.sha256 g ≢ h) gs
        → max_otp_attempts ≤ length gs
        → (consume_code env identifier p code (run env (map (guesses identifier p) gs) w)).0 ≢ ok tt
    five_wrong_guesses gs code w sound inv hashes wrong enough =
        worn_out code _ _ _
          (guesses_wear gs 0 max_otp_attempts w sound inv hashes wrong
            (All-mono _ _ w.db.otp_codes (λ c good out. inl (omega arith)) inv.bounded)
            (omega arith))
          (consume_code-Guess env identifier p code _)
