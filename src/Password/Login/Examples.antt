-- ===== src/Password/Login/Examples.antt =====
-- A login with the password that was hashed.
use authsvc.Prelude.{ℕ, ◌≡◌, refl, Option, some, [], ◌∷◌, arith}
use authsvc.Schema.{User}
use authsvc.Exec.{World, ◌>>=◌}
use authsvc.Table.{select_row}
use authsvc.RateLimit.{truncate, count_up, allow}
use authsvc.Users.{client_by_id, user_by_email}
use authsvc.Sessions.{create_session, insert_session, insert_row}
use authsvc.Table.{insert}
use authsvc.Web.{
  TokenResponse, tokens, user_json, limit, lookup_client, checked, ask, respond_with_tokens,
  issue_session,
}
use authsvc.Web.Login.{handle_login, may_find}
use authsvc.Web.Fixtures.{site, browser}
use authsvc.Base64.{Bytes, encode}
use authsvc.Scan.{print}
use authsvc.Password.{hashed, hash, verify_hash}
use authsvc.Password.Examples.{toy, toy-Argon2Laws, stretch, stretch-bytes, default_text}
use authsvc.Password.Login.{with_passwords, default_key, handle_login-default_key}
use authsvc.Fixtures.{env, tables, ann}

abbrev draw : ℕ → ℕ → Option Bytes
draw k n = some (stretch n 255)

abbrev anns_login : User
anns_login = record ann { password_hash = some default_text }

abbrev with_hash : World
with_hash = record { db = record tables { users = anns_login ∷ [] }; tick = 0 }

abbrev granted : TokenResponse
granted = record { access_token = "ann"; refresh_token = env.secret 8; user = user_json anns_login }

logged_in :
    (handle_login
      (with_passwords toy draw site)
      "dummy"
      "app"
      "ann@example.org"
      "a"
      browser
      with_hash).0.body
    ≡ tokens granted
unfolding handle_login may_find limit lookup_client checked ask respond_with_tokens issue_session
    allow truncate count_up client_by_id user_by_email create_session insert_session insert_row
    insert select_row verify_hash ◌>>=◌
logged_in = refl

made : hash toy (draw 0) "a" ≡ hashed default_text
unfolding hash print encode
made = refl

handle_login-default_key_example :
    default_key toy (stretch 16 255) "a" ≡ default_key toy (stretch 16 255) "a"
unfolding select_row
handle_login-default_key_example =
    handle_login-default_key toy toy-Argon2Laws draw site "dummy" "app" "ann@example.org" "a" "a"
      default_text browser with_hash granted 0 (stretch 16 255) anns_login refl
      (stretch-bytes 16 255 (omega arith)) made refl refl logged_in
