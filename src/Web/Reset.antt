-- ===== src/Web/Reset.antt =====
-- What a password reset leaves, and what a password login needs.
use Prim.Native.String.{◌++◌}
use authsvc.Prelude.{
  ℕ, suc, ◌≤◌, ◌≡◌, ◌≢◌, ◌==◌, String, true, ◌&&◌, some, List, arith, is_some, is_none,
  le_of_not_ltb, Bool-cases, inl, inr,
}
use authsvc.Prelude.Lists.{All, All-always}
use authsvc.RateLimit.{allow}
use authsvc.Schema.{RateLimit, Session, OtpCode, password_reset}
use authsvc.Exec.{Env, World, Result, Error, ok, code_invalid, ◌>>=◌}
use authsvc.Table.{select_row}
use authsvc.Table.Laws.{All-update}
use authsvc.Otp.{outstanding_token, consume_token}
use authsvc.Otp.Redeem.{Redemption, refused, redeemed, consume_token-Redemption}
use authsvc.Sessions.{SessionMeta, revoke, revoke_all_for_user}
use authsvc.Users.{set_password_hash}
use authsvc.Web.{Site, Reply, done, checked, ask, limit, hour, answer}
use authsvc.Web.Cases.{checked_both}
use authsvc.Web.Reads.{allow-db}
use authsvc.Web.Login.{handle_password_reset, set_password, is_weak, min_password_len, link_refused}

abbrev IsReset : Reply × World → Type 0
IsReset out = out.0.body ≡ done "password_reset"

abbrev pub AllRevoked : String → List Session → Type 0
AllRevoked user_id = All (λ s. (s.user_id == user_id) ≡ true → is_some s.revoked_at ≡ true)

-- the link was stored for the user and not consumed, the password is long enough, and no session is left
pub record PasswordReset (env : Env) (tok : String) (len : ℕ) (w w' : World) : Type 0 where
  pub row : OtpCode
  pub stored :
      select_row (outstanding_token (env.sha256 tok) password_reset) w.db.otp_codes ≡ some row
  pub long_enough : min_password_len ≤ len
  pub ended : AllRevoked row.identifier w'.db.sessions

revoke_all-AllRevoked :
    (env : Env) (user_id : String) (w : World)
    → (revoke_all_for_user env user_id w).0 ≡ ok tt
    → AllRevoked user_id (revoke_all_for_user env user_id w).1.db.sessions
unfolding revoke_all_for_user ◌>>=◌
revoke_all-AllRevoked env user_id w good = elim (Bool-cases (env.fails (suc w.tick))) [
  | inl e ↦ absurd (cc (rw e at good))
  | inr e ↦ rw e (
      All-update (λ s. Unit {0}) _ (λ s. s.user_id == user_id && is_none s.revoked_at)
        (revoke (env.time w.tick)) w.db.sessions (λ s _ _ _. ground arith)
        (λ s _ miss hit. ground arith) (All-always _ w.db.sessions (λ s. tt)))
]

set_password-AllRevoked :
    (site : Site) (user_id password : String) (w : World)
    → IsReset (set_password site user_id password w)
    → AllRevoked user_id (set_password site user_id password w).1.db.sessions
unfolding set_password
set_password-AllRevoked site user_id password w =
    checked_both (ask (λ k. site.hash_password k password)) _ _ w Q (λ e failing h. cc)
      (λ hash salted.
        checked_both (set_password_hash site.env user_id hash) _ _ _ Q (λ e failing h. cc)
          (λ _ stored.
            checked_both (revoke_all_for_user site.env user_id) _ _ _ Q (λ e failing h. cc)
              (λ _ good h. revoke_all-AllRevoked site.env user_id _ good)))
  where
    Q : Reply × World → Type 0
    Q out = IsReset out → AllRevoked user_id out.1.db.sessions

link_not_reset : (e : Error) → (link_refused e).body ≢ done "password_reset"
link_not_reset code_invalid h = cc
link_not_reset e h = cc

link_row :
    {env : Env} {tok user_id : String} {w w' : World} {r : Result String}
    → Redemption env password_reset tok w r w'
    → r ≡ ok user_id
    → (row : OtpCode) × ((select_row
            (outstanding_token (env.sha256 tok) password_reset)
            w.db.otp_codes
          ≡ some row)
        × (row.identifier ≡ user_id))
link_row (refused e eq same) good = absurd (cc)
link_row (redeemed row k t found le early eq change) good = (row, (found, cc))

module _ (site : Site) (bytes : String → ℕ) (tok password : String) (m : SessionMeta)
    (w : World) where
  abbrev Q : Reply × World → Type 0
  Q out = IsReset out → PasswordReset site.env tok (bytes password) w out.1

  link_followed :
      (w1 : World) (rows : List RateLimit)
      → min_password_len ≤ bytes password
      → w1.db ≡ record w.db { rate_limits = rows }
      → Q (
          checked
            (consume_token site.env password_reset tok)
            (λ e. answer (link_refused e))
            (λ user_id. set_password site user_id password)
            w1)
  link_followed w1 rows long kept =
      checked_both (consume_token site.env password_reset tok) _ _ w1 Q
        (λ e failing h. absurd (link_not_reset e h))
        (λ user_id got h.
          let (row, (found, same)) =
            link_row (consume_token-Redemption site.env password_reset tok w1) got in
          record {
            row = row;
            stored = rw kept at found;
            long_enough = long;
            ended = rw same (set_password-AllRevoked site user_id password _ h);
          })

  -- Where a password reset answers that it was done, its link was stored and not consumed, the new
  -- password has ten bytes at least, and every session of the user of the link is revoked.
  pub handle_password_reset-PasswordReset :
      (handle_password_reset site bytes tok password m w).0.body ≡ done "password_reset"
      → PasswordReset site.env tok
          (bytes password)
          w
          (handle_password_reset site bytes tok password m w).1
  unfolding handle_password_reset limit
  handle_password_reset-PasswordReset = elim (Bool-cases (is_weak bytes password)) [
    | inl weak ↦ rw weak (λ h. cc)
    | inr strong ↦ rw strong (
        checked_both (allow site.env ("reset:ip:" ++ m.ip) 20 hour) _ _ w Q (λ e failing h. cc)
          (λ fine let_in. elim (Bool-cases fine) [
            | inr full ↦ rw full (λ h. cc)
            | inl room ↦ rw room (
                let (rows, kept) = allow-db site.env ("reset:ip:" ++ m.ip) 20 hour w in
                link_followed _ rows (le_of_not_ltb _ _ strong) kept)
          ]))
  ]
