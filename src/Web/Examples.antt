-- ===== src/Web/Examples.antt =====
-- The theorems on the handlers at a concrete site, and tests.
use authsvc.Prelude.{String, Option, ◌≡◌, refl, ◌==◌, some, none, [], ◌∷◌, if◌then◌else◌}
use authsvc.Schema.{OtpCode, password_reset}
use authsvc.Exec.{World, ◌>>=◌}
use authsvc.Table.{select_row, select, order_by, place, first, update, insert}
use authsvc.RateLimit.{truncate, count_up, allow}
use authsvc.Ticket.{consume_ticket, consume_body, check_expiry, take}
use authsvc.Oauth.{new_auth_code, consume_auth_code}
use authsvc.Otp.{
  consume_code, consume_code_body, judge, right_guess, newest, consume_token, consume_token_body,
  redeem,
}
use authsvc.Users.{
  create_client, insert_client, user_by_email, client_by_id, user_by_id, set_password_hash,
}
use authsvc.Sessions.{
  rotate, rotate_row, rotate_unrevoked, rotate_live, create_session, insert_session, insert_row,
  revoke_all_for_user,
}
use authsvc.Web.{
  AppView, app_created, lookup_client, issue_session, TokenResponse, done, tokens, user_json,
  checked, ask, limit, respond_with_tokens,
}
use authsvc.Web.Account.{handle_refresh, refresh_for, handle_delete_session}
use authsvc.Web.Login.{
  handle_otp_verify, owner_of_inbox, found_or_created, with_verified, handle_login, may_find,
  handle_password_reset, set_password,
}
use authsvc.Web.Roundtrip.{handle_token_exchange, redeem_code, exchange_for}
use authsvc.Web.CodeLogin.{CodeLogin, handle_otp_verify-CodeLogin}
use authsvc.Web.Exchange.{Exchangeable, handle_token_exchange-Exchangeable}
use authsvc.Web.Guard.{Deletion, handle_delete_session-Deletion}
use authsvc.Web.Reset.{PasswordReset, handle_password_reset-PasswordReset}
use authsvc.Web.Grant.{Refreshes, handle_refresh-Refreshes}
use authsvc.Web.Password.{Verified, handle_login-Verified}
use authsvc.Web.Redirect.{Url, all_valid}
use authsvc.Web.Admin.{
  ClientReq, register_client, handle_create_client, Registered, handle_create_client-Registered,
}
use authsvc.Web.Fixtures.{site, browser, anns_claims}
use authsvc.Fixtures.{env, world, tables, ann, otp}

abbrev with_grant : World
with_grant = record {
  db = record tables {
    auth_codes =
        new_auth_code "code"
          (record { user_id = "ann"; client_id = "app"; redirect_uri = "https://app.example" }) 0
        ∷ [];
  };
  tick = 0;
}

abbrev granted : TokenResponse
granted = record { access_token = "ann"; refresh_token = env.secret 12; user = user_json ann }

code_exchanged :
    (handle_token_exchange site "code" "app" "h" browser with_grant).0.body ≡ tokens granted
unfolding handle_token_exchange redeem_code exchange_for limit checked ask respond_with_tokens allow
    truncate count_up client_by_id user_by_id consume_auth_code consume_ticket consume_body
    check_expiry take create_session insert_session insert_row select_row update insert ◌>>=◌
code_exchanged = refl

handle_token_exchange-Exchangeable_example :
    Exchangeable site "code" "app" "h" with_grant.db
      (handle_token_exchange site "code" "app" "h" browser with_grant).1.db
      granted
handle_token_exchange-Exchangeable_example =
    handle_token_exchange-Exchangeable site granted "code" "app" "h" browser with_grant
      code_exchanged

handle_delete_session-Deletion_example :
    Deletion anns_claims "first" world (handle_delete_session site anns_claims "first" world)
handle_delete_session-Deletion_example =
    handle_delete_session-Deletion site anns_claims "first" world

abbrev reset_link : OtpCode
reset_link = record otp { identifier = "ann"; code_hash = "link"; purpose = password_reset }

abbrev with_link : World
with_link = record { db = record tables { otp_codes = reset_link ∷ [] }; tick = 0 }

password_reset_done :
    (handle_password_reset site (λ s. 12) "link" "correct horse" browser with_link).0.body
    ≡ done "password_reset"
unfolding handle_password_reset set_password limit checked ask allow truncate count_up consume_token
    consume_token_body redeem set_password_hash revoke_all_for_user select_row update ◌>>=◌
password_reset_done = refl

handle_password_reset-PasswordReset_example :
    PasswordReset env "link" 12 with_link
      (handle_password_reset site (λ s. 12) "link" "correct horse" browser with_link).1
handle_password_reset-PasswordReset_example =
    handle_password_reset-PasswordReset site (λ s. 12) "link" "correct horse" browser with_link
      password_reset_done

abbrev logged_in : TokenResponse
logged_in = record { access_token = "ann"; refresh_token = env.secret 8; user = user_json ann }

password_accepted :
    (handle_login site "dummy" "app" "ann@example.org" "h" browser world).0.body ≡ tokens logged_in
unfolding handle_login may_find issue_session limit lookup_client checked ask respond_with_tokens
    allow truncate count_up client_by_id user_by_email create_session insert_session insert_row
    select_row update insert ◌>>=◌
password_accepted = refl

handle_login-Verified_example :
    Verified site "app" "ann@example.org" "h" tables
      (handle_login site "dummy" "app" "ann@example.org" "h" browser world).1.db
      logged_in
handle_login-Verified_example =
    handle_login-Verified site logged_in "dummy" "app" "ann@example.org" "h" browser world
      password_accepted

token_refreshed : (handle_refresh site "token" browser world).0.body ≡ tokens logged_in
unfolding handle_refresh refresh_for limit checked ask respond_with_tokens allow truncate count_up
    client_by_id user_by_id rotate rotate_row rotate_unrevoked rotate_live insert_session insert_row
    select_row update insert ◌>>=◌
token_refreshed = refl

handle_refresh-Refreshes_example :
    Refreshes site "token" tables (handle_refresh site "token" browser world).1.db logged_in
handle_refresh-Refreshes_example =
    handle_refresh-Refreshes site logged_in "token" browser world token_refreshed

abbrev parse : String → Option Url
parse raw =
    if raw == "https://new.example/cb"
    then some
        (record { scheme = "https"; host = "new.example"; hostname = "new.example"; fragment = "" })
    else none

abbrev new_app : ClientReq
new_app = record {
  id = "new";
  name = "New";
  redirect_uris = "https://new.example/cb" ∷ [];
  audience = "";
}

abbrev new_app_view : AppView
new_app_view = record {
  id = "new";
  name = "New";
  audience = "new";
  redirect_uris = "https://new.example/cb" ∷ [];
}

app_registered :
    (handle_create_client site parse new_app world).0.body ≡ app_created new_app_view (env.secret 0)
unfolding handle_create_client register_client all_valid checked ask create_client insert_client
    select_row insert ◌>>=◌
app_registered = refl

handle_create_client-Registered_example :
    Registered site parse new_app new_app_view
      (env.secret 0)
      world
      (handle_create_client site parse new_app world).1
handle_create_client-Registered_example =
    handle_create_client-Registered site parse new_app new_app_view (env.secret 0) world
      app_registered

abbrev by_code : TokenResponse
by_code = record { access_token = "ann"; refresh_token = env.secret 11; user = user_json ann }

code_accepted :
    (handle_otp_verify site "app" "ann@example.org" "123456" browser world).0.body ≡ tokens by_code
unfolding handle_otp_verify owner_of_inbox found_or_created with_verified issue_session limit
    lookup_client checked ask respond_with_tokens allow truncate count_up client_by_id user_by_email
    consume_code consume_code_body judge right_guess newest order_by place first select
    create_session insert_session insert_row select_row update insert ◌>>=◌
code_accepted = refl

handle_otp_verify-CodeLogin_example :
    CodeLogin site "app" "ann@example.org" "123456" tables
      (handle_otp_verify site "app" "ann@example.org" "123456" browser world).1.db
      by_code
handle_otp_verify-CodeLogin_example =
    handle_otp_verify-CodeLogin site by_code "app" "ann@example.org" "123456" browser world
      code_accepted
