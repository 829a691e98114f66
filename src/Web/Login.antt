-- ===== src/Web/Login.antt =====
-- internal/httpapi/auth.go and otp.go: the password login, the emailed links and the one-time code.
use Prim.Native.String.{◌++◌}
use authsvc.Prelude.{ℕ, ◌*◌, Bool, ◌&&◌, String, Option, none, some, is_some, ltb, if◌then◌else◌}
use authsvc.Schema.{User, Client, email_verified, login_otp, email_verify, password_reset}
use authsvc.Exec.{
  Exec, Result, Error, ok, err, not_found, code_invalid, code_attempts, ◌>>=◌, pure, raise, attempt,
}
use authsvc.Users.{user_by_email, user_by_id, create_user, mark_email_verified, set_password_hash}
use authsvc.Sessions.{SessionMeta, revoke_all_for_user}
use authsvc.Otp.{consume_code, consume_token}
use authsvc.Web.{
  Site, Reply, Handler, answer, write_err, internal, checked, or_internal, ask, limit, minute, hour,
  lookup_client, issue_session, unset, cleared, done,
}

-- otpIdentifier scopes a code to one client
abbrev pub otp_identifier : String → String → String
otp_identifier client_id email = client_id ++ "|" ++ email

abbrev pub min_password_len : ℕ
min_password_len = 10

abbrev pub link_refused : Error → Reply
link_refused code_invalid = write_err 400 "invalid_token"
link_refused e = internal

abbrev pub code_refused : Error → Reply
code_refused code_attempts = write_err 429 "too_many_attempts"
code_refused code_invalid = write_err 401 "invalid_code"
code_refused e = internal

-- the account of an address, if there is one
unfoldable pub may_find : Result User → Exec (Option User)
may_find (ok u) = pure (some u)
may_find (err not_found) = pure none
may_find (err e) = raise e

-- the hash of an account, if it has a password
abbrev pub hash_of : Option User → Option String
hash_of none = none
hash_of (some u) = u.password_hash

abbrev pub or_dummy : String → Option String → String
or_dummy dummy none = dummy
or_dummy dummy (some hash) = hash

-- len of a Go string counts its bytes: `bytes` measures it outside this model
abbrev pub is_weak : (String → ℕ) → String → Bool
is_weak bytes password = ltb (bytes password) min_password_len

module _ (site : Site) where
  abbrev pub start_session : SessionMeta → User → Client → Handler
  start_session m u c =
      if is_some u.disabled_at
      then answer (write_err 403 "account_disabled")
      else issue_session site 200 m u c

  abbrev pub bad_credentials : Reply
  bad_credentials = write_err 401 "invalid_credentials"

  -- the cases of `u == nil || u.PasswordHash == nil || !match`
  abbrev pub judge_login : SessionMeta → Client → Bool → Option User → Handler
  judge_login m c match none = answer bad_credentials
  judge_login m c match (some u) =
      if is_some u.password_hash && match then start_session m u c else answer bad_credentials

  -- `dummy` is dummyHash, which is verified where there is nothing else
  unfoldable pub handle_login : String → String → String → String → SessionMeta → Handler
  unfolding may_find
  handle_login dummy client_id address password m =
      let email = site.normalize_email address in
      limit site ("login:ip:" ++ m.ip) 30 (15 * minute) (
        limit site ("login:id:" ++ email) 10 (15 * minute) (
          lookup_client site client_id (λ client.
            or_internal (attempt (user_by_email site.env email) >>= may_find) (λ u.
              or_internal (ask (λ k. site.verify_password (or_dummy dummy (hash_of u)) password))
                (λ match. judge_login m client match u)))))

  unfoldable pub handle_email_verify : String → SessionMeta → Handler
  handle_email_verify tok m = limit site ("verify:ip:" ++ m.ip) 30 hour (
      checked (consume_token site.env email_verify tok) (λ e. answer (link_refused e))
        (λ user_id. or_internal (mark_email_verified site.env user_id) (λ _. answer (record {
          status = 200;
          cookie = unset;
          background = none;
          body = done "email_verified";
        }))))

  unfoldable pub set_password : String → String → Handler
  set_password user_id password = or_internal (ask (λ k. site.hash_password k password)) (λ hash.
      or_internal (set_password_hash site.env user_id hash) (λ _.
        or_internal (revoke_all_for_user site.env user_id) (λ _. answer (record {
          status = 200;
          cookie = cleared;
          background = none;
          body = done "password_reset";
        }))))

  unfoldable pub handle_password_reset : (String → ℕ) → String → String → SessionMeta → Handler
  handle_password_reset bytes tok password m =
      if is_weak bytes password
      then answer (write_err 400 "weak_password")
      else limit site ("reset:ip:" ++ m.ip) 20 hour (
          checked (consume_token site.env password_reset tok) (λ e. answer (link_refused e))
            (λ user_id. set_password user_id password))

  -- the account of an address whose owner proved it
  unfoldable pub found_or_created : String → Result User → Exec User
  found_or_created email (ok u) = pure u
  found_or_created email (err not_found) = create_user site.env email none
  found_or_created email (err e) = raise e

  unfoldable pub owner_of_inbox : String → Exec User
  owner_of_inbox email = do r ← attempt (user_by_email site.env email); found_or_created email r

  unfoldable pub with_verified : User → (User → Handler) → Handler
  with_verified u proceed =
      if email_verified u
      then proceed u
      else or_internal (mark_email_verified site.env u.id)
          (λ _. or_internal (user_by_id site.env u.id) proceed)

  unfoldable pub handle_otp_verify : String → String → String → SessionMeta → Handler
  handle_otp_verify client_id address code m =
      let email = site.normalize_email address in
      limit site ("otpv:ip:" ++ m.ip) 30 hour (
        lookup_client site client_id (λ client.
          checked (consume_code site.env (otp_identifier client.id email) login_otp code)
            (λ e. answer (code_refused e))
            (λ _.
              or_internal (owner_of_inbox email)
                (λ u. with_verified u (λ v. start_session m v client)))))
