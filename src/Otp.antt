-- ===== src/Otp.antt =====
-- internal/store/otp.go: one-time codes and emailed tokens.
pub mod Guess
pub mod Redeem
pub mod Invariant
pub mod Issue
pub mod Numeric
pub mod Trace
pub mod Change
pub mod Newest
pub mod SingleUse
pub mod BruteForce
mod Examples
use authsvc.Prelude.{
  ℕ, suc, ◌+◌, ◌-◌, ◌==◌, Bool, true, false, ◌&&◌, String, Option, none, some, List, leb, ltb,
  is_none, if◌then◌else◌,
}
use authsvc.Schema.{Database, OtpCode, Purpose, login_otp, email_verify, password_reset}
use authsvc.Exec.{
  Env, Exec, Error, ok, err, code_invalid, code_attempts, ◌>>=◌, ◌>>◌, pure, or_else, now,
  make_ulid, query_row, exec, exec_returning, exec_checked, Outcome, commit, rollback, transaction,
}
use authsvc.Table.{select_row, select, update, delete, affected, insert, order_by, first}

-- MaxOTPAttempts
abbrev pub max_otp_attempts : ℕ
max_otp_attempts = 5

abbrev pub purpose_eq : Purpose → Purpose → Bool
purpose_eq login_otp login_otp = true
purpose_eq email_verify email_verify = true
purpose_eq password_reset password_reset = true
purpose_eq _ _ = false

-- WHERE identifier = $1 AND purpose = $2 AND consumed_at IS NULL
abbrev pub outstanding : String → Purpose → OtpCode → Bool
outstanding identifier p c =
    c.identifier == identifier && purpose_eq c.purpose p && is_none c.consumed_at

-- WHERE code_hash = $1 AND purpose = $2 AND consumed_at IS NULL
abbrev pub outstanding_token : String → Purpose → OtpCode → Bool
outstanding_token h p c = c.code_hash == h && purpose_eq c.purpose p && is_none c.consumed_at

abbrev pub has_id : String → OtpCode → Bool
has_id i c = c.id == i

abbrev pub consume : ℕ → OtpCode → OtpCode
consume t c = record c { consumed_at = some t }

abbrev pub count_attempt : ℕ → OtpCode → OtpCode
count_attempt n c = record c { attempts = n }

abbrev pub burn : ℕ → ℕ → OtpCode → OtpCode
burn n t c = record c { attempts = n; consumed_at = some t }

abbrev pub set_codes : (List OtpCode → List OtpCode) → Database → Database
set_codes f d = record d { otp_codes = f d.otp_codes }

abbrev with_codes : Database → Option (List OtpCode) → Option Database
with_codes d none = none
with_codes d (some rows) = some (record d { otp_codes = rows })

unfoldable pub insert_code : OtpCode → Database → Option Database
insert_code c d = with_codes d (insert (has_id c.id) c d.otp_codes)

-- ORDER BY created_at DESC
abbrev pub newer : OtpCode → OtpCode → Bool
newer a b = leb b.created_at a.created_at

unfoldable pub newest : String → Purpose → List OtpCode → Option OtpCode
newest identifier p rows = first (order_by newer (select (outstanding identifier p) rows))

module _ (env : Env) where
  unfoldable pub issue_body : String → Purpose → String → ℕ → Exec (Outcome (Unit {0}))
  issue_body identifier p code ttl = do
    t ← now env
    exec env (set_codes (update (outstanding identifier p) (consume t)))
    id ← make_ulid env
    exec_checked env (
        insert_code (record {
          id = id;
          identifier = identifier;
          code_hash = env.sha256 code;
          purpose = p;
          attempts = 0;
          expires_at = t + ttl;
          consumed_at = none;
          created_at = t;
        }))
    pure (commit (ok tt))

  -- The transaction takes no lock: that no other issue for the identifier runs at the same time is an
  -- assumption.
  unfoldable pub issue_code : String → Purpose → String → ℕ → Exec (Unit {0})
  issue_code identifier p code ttl = transaction env (issue_body identifier p code ttl)

  -- the last allowed guess burns the code; Postgres reads its own clock for it
  unfoldable pub wrong_guess : OtpCode → Exec (Outcome (Unit {0}))
  wrong_guess row =
      if leb max_otp_attempts (suc row.attempts)
      then (do
        t ← now env
        exec env (set_codes (update (has_id row.id) (burn (suc row.attempts) t)))
        pure (commit (err code_attempts)))
      else (do
        exec env (set_codes (update (has_id row.id) (count_attempt (suc row.attempts))))
        pure (commit (err code_invalid)))

  unfoldable pub right_guess : OtpCode → Exec (Outcome (Unit {0}))
  right_guess row = do
    t ← now env
    exec env (set_codes (update (has_id row.id) (consume t)))
    pure (commit (ok tt))

  unfoldable pub judge : String → OtpCode → ℕ → Exec (Outcome (Unit {0}))
  judge code row t =
      if ltb row.expires_at t
      then pure (rollback code_invalid)
      else if leb max_otp_attempts row.attempts
      then pure (rollback code_attempts)
      else if row.code_hash == env.sha256 code
      then right_guess row
      else wrong_guess row

  unfoldable pub consume_code_body : String → Purpose → String → Exec (Outcome (Unit {0}))
  consume_code_body identifier p code = do
    row ← or_else (query_row env (λ d. newest identifier p d.otp_codes)) (λ e. code_invalid)
    t ← now env
    judge code row t

  unfoldable pub consume_code : String → Purpose → String → Exec (Unit {0})
  consume_code identifier p code = transaction env (consume_code_body identifier p code)

  unfoldable pub redeem : OtpCode → ℕ → Exec (Outcome String)
  redeem row t = if ltb row.expires_at t then pure (rollback code_invalid) else (do
    t' ← now env
    exec env (set_codes (update (has_id row.id) (consume t')))
    pure (commit (ok row.identifier)))

  unfoldable pub consume_token_body : Purpose → String → Exec (Outcome String)
  consume_token_body p tok = do
    row ←
        or_else (query_row env (λ d. select_row (outstanding_token (env.sha256 tok) p) d.otp_codes))
          (λ e. code_invalid)
    t ← now env
    redeem row t

  unfoldable pub consume_token : Purpose → String → Exec String
  consume_token p tok = transaction env (consume_token_body p tok)

  unfoldable pub prune_codes : ℕ → Exec ℕ
  prune_codes grace = do
    t ← now env
    let old = λ (c : OtpCode). ltb c.expires_at (t - grace)
    exec_returning env (λ d. (affected old d.otp_codes, set_codes (delete old) d))
