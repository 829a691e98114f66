-- ===== src/Web/Delivery/Examples.antt =====
-- The callback of a concrete round trip.
use authsvc.Prelude.{◌≡◌, refl, ◌==◌, true, some, none, [], ◌∷◌, if◌then◌else◌}
use authsvc.Schema.{OauthFlow}
use authsvc.Exec.{World, ◌>>=◌}
use authsvc.Table.{select_row, insert, update}
use authsvc.Ticket.{consume_ticket, consume_body, check_expiry, take, create_ticket, insert_ticket}
use authsvc.Oauth.{new_flow, consume_oauth_flow, create_auth_code}
use authsvc.Users.{user_by_email}
use authsvc.Identities.{identity_by_subject, create_identity, insert_identity}
use authsvc.Linking.{Profile, resolve, resolve_known, resolve_owner, owner_of, owner_found}
use authsvc.Web.{Site, to_app, checked, ask}
use authsvc.Web.Roundtrip.{handle_oauth_callback, fetch_profile, sign_in, hand_over}
use authsvc.Web.Delivery.{Delivery, handle_oauth_callback-Delivery}
use authsvc.Web.Fixtures.{site}
use authsvc.Fixtures.{env, tables}

abbrev octocat : Profile
octocat = record {
  subject = "42";
  email = "ann@example.org";
  email_verified = true;
  name = "Ann";
  avatar = "";
  raw = none;
}

-- GitHub gives the profile for its code and the verifier of the flow
abbrev with_github : Site
with_github = record site {
  exchange = λ k provider code verifier.
      if verifier == "verifier" then if code == "granted" then some octocat else none else none;
}

abbrev flow : OauthFlow
flow =
    new_flow "state"
      (record {
        provider = "github";
        client_id = "app";
        redirect_uri = "https://app.example";
        app_state = "page";
        code_verifier = "verifier";
        link_user_id = none;
      })
      0

abbrev returning : World
returning = record { db = record tables { oauth_flows = flow ∷ [] }; tick = 0 }

delivered :
    (handle_oauth_callback with_github "github" "state" "" "granted" returning).0.body
    ≡ to_app "https://app.example" "code" (env.secret 11) "page"
unfolding handle_oauth_callback fetch_profile sign_in hand_over checked ask consume_oauth_flow
    consume_ticket consume_body check_expiry take create_auth_code create_ticket insert_ticket
    resolve resolve_known resolve_owner owner_of owner_found user_by_email identity_by_subject
    create_identity insert_identity select_row insert update ◌>>=◌
delivered = refl

handle_oauth_callback-Delivery_example :
    Delivery with_github "github" "state" "granted" "https://app.example"
      (env.secret 11)
      "page"
      returning.db
      (handle_oauth_callback with_github "github" "state" "" "granted" returning).1.db
handle_oauth_callback-Delivery_example =
    handle_oauth_callback-Delivery with_github "github" "state" "" "granted" "https://app.example"
      (env.secret 11) "page" returning delivered
