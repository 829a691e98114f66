-- ===== src/Oauth/Examples.antt =====
-- The theorems on OAuth states and authorization codes at concrete tables, and tests.
use authsvc.Prelude.{◌≡◌, ◌≢◌, refl, [], ◌∷◌, none}
use authsvc.Exec.{World, ok, ◌>>=◌}
use authsvc.Table.{select_row, update, insert}
use authsvc.Ticket.{
  consumes, deletes, run, insert_ticket, create_ticket, consume_ticket, consume_body, check_expiry,
  take,
}
use authsvc.Oauth.{
  codes, FlowData, CodeData, new_flow, new_auth_code, create_oauth_flow, consume_oauth_flow,
  create_auth_code, consume_auth_code,
}
use authsvc.Oauth.Once.{auth_code_once}
use authsvc.Fixtures.{env, world}

abbrev github : FlowData
github = record {
  provider = "github";
  client_id = "app";
  redirect_uri = "https://app.example";
  app_state = "xyz";
  code_verifier = "verifier";
  link_user_id = none;
}

abbrev grant : CodeData
grant = record { user_id = "ann"; client_id = "app"; redirect_uri = "https://app.example" }

abbrev with_flow : World
with_flow = (create_oauth_flow env "state" github world).1

abbrev with_code : World
with_code = (create_auth_code env "code" grant world).1

flow_created : (create_oauth_flow env "state" github world).0 ≡ ok tt
unfolding create_oauth_flow create_ticket insert_ticket select_row insert ◌>>=◌
flow_created = refl

flow_consumed : (consume_oauth_flow env "state" with_flow).0 ≡ ok (new_flow "state" github 0)
unfolding create_oauth_flow create_ticket insert_ticket consume_oauth_flow consume_ticket
    consume_body check_expiry take select_row insert update ◌>>=◌
flow_consumed = refl

code_created : (create_auth_code env "code" grant world).0 ≡ ok tt
unfolding create_auth_code create_ticket insert_ticket select_row insert ◌>>=◌
code_created = refl

code_consumed : (consume_auth_code env "code" with_code).0 ≡ ok (new_auth_code "code" grant 0)
unfolding create_auth_code create_ticket insert_ticket consume_auth_code consume_ticket consume_body
    check_expiry take select_row insert update ◌>>=◌
code_consumed = refl

auth_code_once_example :
    (consume_auth_code env "code" (
      run codes env
        (consumes "other" ∷ deletes 0 ∷ [])
        (consume_auth_code env "code" with_code).1)).0
    ≢ ok (new_auth_code "code" grant 0)
auth_code_once_example =
    auth_code_once env "code" (new_auth_code "code" grant 0) (new_auth_code "code" grant 0)
      with_code (consumes "other" ∷ deletes 0 ∷ []) (tt, (tt, tt)) code_consumed
