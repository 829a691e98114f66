-- ===== src/Web/Register.antt =====
-- internal/httpapi/auth.go, otp.go and respond.go: registration, and the mailing of links and codes.
mod Examples
use Prim.Native.String.{◌++◌}
use Prim.Native.Char.{Char, code}
use authsvc.Prelude.{
  ℕ, ◌+◌, ◌*◌, ◌==◌, Bool, true, false, not, ◌&&◌, ◌||◌, String, Option, none, some, eqb,
  if◌then◌else◌,
}
use authsvc.Text.{cut}
use authsvc.Schema.{User, Client, email_verified, login_otp, email_verify, password_reset}
use authsvc.Exec.{Exec, random, ◌>>=◌, ◌>>◌}
use authsvc.Users.{user_by_email, create_user}
use authsvc.Sessions.{SessionMeta}
use authsvc.Otp.{issue_code}
use authsvc.Otp.Numeric.{pow10, numeric_code}
use authsvc.Web.{
  Site, Reply, Handler, answer, write_err, internal, checked, or_internal, ask, limit, minute, hour,
  lookup_client, issue_session, unset, done,
}
use authsvc.Web.Login.{is_weak, otp_identifier}

-- a space, a carriage return, a line feed or a tab
abbrev has_blank : String → Bool
has_blank String.[] = false
has_blank (String.◌∷◌ c s) =
    (eqb (code c) 32 || (eqb (code c) 13 || (eqb (code c) 10 || eqb (code c) 9))) || has_blank s

abbrev has_dot : String → Bool
has_dot String.[] = false
has_dot (String.◌∷◌ c s) = eqb (code c) 46 || has_dot s

abbrev fine_parts : String → Option (String × String) → Bool
fine_parts s none = false
fine_parts s (some (before, rest)) =
    not (before == "") && (not (rest == "") && (not (has_blank s) && has_dot rest))

-- `@` is character 64
unfoldable pub valid_email : String → Bool
valid_email s = fine_parts s (cut 64 s)

-- PasswordResetTTL, EmailVerifyTTL and OTPTTL
abbrev pub password_reset_ttl : ℕ
password_reset_ttl = hour

abbrev pub email_verify_ttl : ℕ
email_verify_ttl = 24 * hour

abbrev pub otp_ttl : ℕ
otp_ttl = 10 * minute

abbrev pub accepted : String → Reply
accepted what = record { status = 202; cookie = unset; background = none; body = done what }

-- sendEmailVerification: where the address is not verified, deliver_email_verification is left running
unfoldable pub send_email_verification : User → Handler → Handler
send_email_verification u proceed w =
    let (r, w') = proceed w in
    if email_verified u then (r, w') else (record r { background = some u }, w')

module _ (site : Site) where
  -- runs at any later time, on its own
  unfoldable pub deliver_email_verification : User → Exec (Unit {0})
  deliver_email_verification u = do
    tok ← random site.env
    issue_code site.env u.id email_verify tok email_verify_ttl
    ask (λ k. site.send_code k u.email email_verify tok)

  unfoldable pub mail_reset : String → Exec (Unit {0})
  mail_reset email = do
    u ← user_by_email site.env email
    tok ← random site.env
    issue_code site.env u.id password_reset tok password_reset_ttl
    ask (λ k. site.send_code k u.email password_reset tok)

  -- the deferred answer comes after any error
  unfoldable pub handle_password_forgot : String → SessionMeta → Handler
  handle_password_forgot address m =
      let email = site.normalize_email address in
      limit site ("forgot:ip:" ++ m.ip) 10 hour (
        limit site ("forgot:id:" ++ email) 3 hour (
          checked (mail_reset email) (λ e. answer (accepted "sent_if_registered"))
            (λ _. answer (accepted "sent_if_registered"))))

  -- the address is taken, or the call failed
  unfoldable pub taken_or_internal : String → Handler
  taken_or_internal email =
      checked (user_by_email site.env email) (λ e. answer internal)
        (λ existing. send_email_verification existing (answer (accepted "verification_sent")))

  unfoldable pub create_account : String → String → SessionMeta → Client → Handler
  create_account email password m client =
      or_internal (ask (λ k. site.hash_password k password)) (λ hash.
        checked (create_user site.env email (some hash)) (λ e. taken_or_internal email)
          (λ u. send_email_verification u (issue_session site 201 m u client)))

  unfoldable pub handle_register : (String → ℕ) → String → String → String → SessionMeta → Handler
  handle_register bytes client_id address password m =
      let email = site.normalize_email address in
      if not (valid_email email)
      then answer (write_err 400 "invalid_email")
      else if is_weak bytes password
      then answer (write_err 400 "weak_password")
      else limit site ("register:ip:" ++ m.ip) 10 hour
          (lookup_client site client_id (create_account email password m))

  abbrev drawn : Option ℕ → Option String
  drawn none = none
  drawn (some v) = numeric_code 6 v

  -- NewNumericCode of six digits
  unfoldable pub new_numeric_code : Exec String
  new_numeric_code = ask (λ k. drawn (site.rand_int k (pow10 6)))

  unfoldable pub mail_code : String → String → Handler
  mail_code email otp =
      checked (ask (λ k. site.send_code k email login_otp otp))
        (λ e. answer (write_err 502 "delivery_failed")) (λ _. answer (accepted "sent"))

  unfoldable pub mint_code : String → Client → Handler
  mint_code email client = or_internal new_numeric_code (λ otp.
      or_internal (issue_code site.env (otp_identifier client.id email) login_otp otp otp_ttl)
        (λ _. mail_code email otp))

  unfoldable pub handle_otp_request : String → String → SessionMeta → Handler
  handle_otp_request client_id address m =
      let email = site.normalize_email address in
      if not (valid_email email)
      then answer (write_err 400 "invalid_email")
      else limit site ("otp:ip:" ++ m.ip) 20 hour
          (limit site ("otp:id:" ++ email) 5 hour (lookup_client site client_id (mint_code email)))
