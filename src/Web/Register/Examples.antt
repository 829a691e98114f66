-- ===== src/Web/Register/Examples.antt =====
-- The theorems on registration and mail at a concrete site, and tests.
use authsvc.Prelude.{◌≡◌, refl, true, false, some, none, []}
use authsvc.Schema.{User}
use authsvc.Exec.{World, ◌>>=◌}
use authsvc.Table.{select_row, insert}
use authsvc.RateLimit.{truncate, count_up, allow}
use authsvc.Users.{create_user, insert_user, user_by_email, client_by_id}
use authsvc.Sessions.{create_session, insert_session, insert_row}
use authsvc.Web.{
  Reply, TokenResponse, done, tokens, user_json, checked, ask, limit, lookup_client, issue_session,
  respond_with_tokens,
}
use authsvc.Web.Fixtures.{site, browser}
use authsvc.Web.Blind.{other_users}
use authsvc.Web.Register.{
  handle_password_forgot, handle_otp_request, handle_register, create_account, taken_or_internal,
  send_email_verification, valid_email,
}
use authsvc.Web.Enumeration.{mail_requests_alike}
use authsvc.Web.Signup.{Signup, handle_register-Signup}
use authsvc.Fixtures.{env, world, tables}

plain_address : valid_email "ann@example.org" ≡ true
unfolding valid_email
plain_address = refl

no_local_part : valid_email "@example.org" ≡ false
unfolding valid_email
no_local_part = refl

spaced : valid_email "ann @example.org" ≡ false
unfolding valid_email
spaced = refl

mail_requests_alike_example :
    ((handle_password_forgot site "ann@example.org" browser (other_users [] world)).0
      ≡ (handle_password_forgot site "ann@example.org" browser world).0)
    × ((handle_otp_request site "app" "ann@example.org" browser (other_users [] world)).0
        ≡ (handle_otp_request site "app" "ann@example.org" browser world).0)
mail_requests_alike_example = mail_requests_alike site "app" "ann@example.org" browser [] world

taken_address :
    (handle_register site (λ s. 12) "app" "ann@example.org" "correct horse" browser world).0.body
    ≡ done "verification_sent"
unfolding handle_register create_account taken_or_internal send_email_verification valid_email limit
    lookup_client checked ask allow truncate count_up client_by_id create_user insert_user
    user_by_email select_row insert ◌>>=◌
taken_address = refl

abbrev bob : User
bob = record {
  id = env.ulid 4;
  email = "bob@example.org";
  email_verified_at = none;
  password_hash = some "correct horse";
  created_at = 5;
  updated_at = 5;
  disabled_at = none;
}

abbrev welcomed : TokenResponse
welcomed = record { access_token = env.ulid 4; refresh_token = env.secret 8; user = user_json bob }

abbrev bob_registers : Reply × World
bob_registers = handle_register site (λ s. 12) "app" "bob@example.org" "correct horse" browser world

fresh_address : bob_registers.0.body ≡ tokens welcomed
unfolding handle_register create_account taken_or_internal send_email_verification valid_email limit
    lookup_client checked ask allow truncate count_up client_by_id create_user insert_user
    user_by_email issue_session respond_with_tokens create_session insert_session insert_row
    select_row insert ◌>>=◌
fresh_address = refl

handle_register-Signup_example :
    Signup site "app" "bob@example.org" "correct horse" tables.users bob_registers.1.db welcomed
handle_register-Signup_example =
    handle_register-Signup site welcomed (λ s. 12) "app" "bob@example.org" "correct horse" browser
      world fresh_address
