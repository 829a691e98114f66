-- ===== src/Sdk/Examples.antt =====
-- The theorems on the client at concrete settings, and tests.
use authsvc.Prelude.{
  ℕ, ◌≤◌, ◌≡◌, ◌≢◌, refl, ◌==◌, false, String, Option, some, none, List, [], ◌∷◌, if◌then◌else◌,
}
use authsvc.Exec.{◌>>=◌}
use authsvc.Table.{select_row, update, insert}
use authsvc.RateLimit.{truncate, count_up, allow}
use authsvc.Users.{client_by_id, user_by_id}
use authsvc.Sessions.{
  rotate, rotate_row, rotate_spent, rotate_unrevoked, rotate_live, insert_session, insert_row,
}
use authsvc.Sessions.WellFormed.{WellFormed}
use authsvc.Fixtures.{env, world, tables, ann, no_secret}
use authsvc.Text.{bearer_token, trim_space, trim_left, trim_right, after_fold}
use authsvc.Web.{TokenResponse, tokens, user_json, limit, checked, ask, respond_with_tokens}
use authsvc.Web.Fixtures.{site, browser}
use authsvc.Web.Account.{handle_refresh, refresh_for}
use authsvc.Sdk.{
  Config, completed, new_client, status, transport, Got, got, fault, refresh, post_with_fallback,
  with_fallback, send, should_fail_over,
}
use authsvc.Prelude.Int.{pos}
use authsvc.Sdk.Keys.{
  KeyCache, Reached, warmed, locked, ended, get, warm, lock_refresh, end_refresh, store_fetched,
}
use authsvc.Sdk.Keys.Refinement.{served, last_good, get-served}
use authsvc.Sdk.Middleware.{Token, text, user_of, passed, require_user, verify}
use authsvc.Sdk.Middleware.Admission.{Admitted, require_user-Admitted}
use authsvc.Sdk.Retry.{lossy, parse_tokens, refresh-lost}

abbrev settings : Config
settings = record {
  base_url = "https://a.example";
  fallback_url = "https://b.example";
  client_id = "app";
  client_secret = "s";
  audience = "app";
  issuer = "https://a.example";
  jwks_refresh = pos 10;
  jwks_max_stale = pos 100;
}

-- slashes at the end go, and what is not set has its default
filled_in :
    new_client (record settings {
      base_url = "https://a.example/";
      audience = "";
      issuer = "";
      fallback_url = "https://b.example//";
    })
    ≡ some settings
unfolding new_client completed trim_right
filled_in = refl

bearer_in_any_case : bearer_token "BEARER  abc " ≡ "abc"
unfolding bearer_token after_fold trim_space trim_left trim_right
bearer_in_any_case = refl

abbrev parse_keys : String → Option ℕ
parse_keys body = if body == "keys" then some 3 else none

abbrev size : ℕ → ℕ
size n = n

abbrev anns_token : Token
anns_token = record {
  subject = "ann";
  expiration = 50;
  claim = λ name. if name == "email" then some (text "ann@example.org") else none;
}

abbrev parse_jwt : ℕ → String → String → String → Option Token
parse_jwt keys issuer audience raw =
    if raw == "abc" then if audience == "app" then some anns_token else none else none

abbrev log : List (ℕ × Got String)
log = (20, fault transport) ∷ (5, got "keys") ∷ []

-- the keys of the warm-up, and a refresh that failed
abbrev cache : KeyCache ℕ
cache = record { set = some 3; fetched_at = 5; last_err = some transport; refreshing = false }

cache-Reached : Reached parse_keys size log cache 0
unfolding warm lock_refresh end_refresh store_fetched
cache-Reached = ended 20 (fault transport) (locked (warmed 5 (got "keys")) refl)

get-served_example :
    (get settings 30 cache ≡ served settings 30 (last_good parse_keys size log)) × (0 ≤ 1)
get-served_example = get-served parse_keys size settings 30 cache-Reached

passes : require_user parse_jwt settings 30 cache "Bearer abc" ≡ passed (user_of anns_token)
unfolding require_user verify get bearer_token after_fold trim_space trim_left trim_right
passes = refl

require_user-Admitted_example :
    Admitted parse_keys size parse_jwt settings log 30 "Bearer abc" (user_of anns_token)
require_user-Admitted_example =
    require_user-Admitted parse_keys size parse_jwt settings cache-Reached 30 "Bearer abc"
      (user_of anns_token) passes

abbrev refreshed : TokenResponse
refreshed = record { access_token = "ann"; refresh_token = env.secret 8; user = user_json ann }

carried_out : (handle_refresh site "token" browser world).0.body ≡ tokens refreshed
unfolding handle_refresh refresh_for limit checked ask respond_with_tokens allow truncate count_up
    client_by_id user_by_id rotate rotate_row rotate_unrevoked rotate_live insert_session insert_row
    select_row update insert ◌>>=◌
carried_out = refl

tables-WellFormed : WellFormed tables
unfolding select_row
tables-WellFormed = record { ids = (tt, tt); tokens = (tt, tt); refer = (refl, tt) }

refresh-lost_example :
    (refresh (lossy site browser settings) parse_tokens settings "token" world).0 ≢ got refreshed
refresh-lost_example =
    refresh-lost site browser settings "token" world refreshed refreshed tables-WellFormed
      (λ k le. no_secret "oken" k) carried_out

-- the client is told that its token was stolen
signed_out :
    (refresh (lossy site browser settings) parse_tokens settings "token" world).0
    ≡ fault (status 401)
unfolding refresh post_with_fallback with_fallback send should_fail_over lossy handle_refresh
    refresh_for limit checked ask respond_with_tokens allow truncate count_up client_by_id
    user_by_id rotate rotate_row rotate_spent rotate_unrevoked rotate_live insert_session insert_row
    select_row update insert ◌>>=◌
signed_out = refl
