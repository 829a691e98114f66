-- ===== src/Web/Roundtrip.antt =====
-- internal/httpapi/oauth.go: the start of an OAuth round trip, its callback, and the exchange of the
-- authorization code that it ends in.
use Prim.Native.String.{◌++◌}
use authsvc.Prelude.{◌==◌, not, String, Option, none, some, List, [], ◌∷◌, is_some, if◌then◌else◌}
use authsvc.Schema.{User, Client, OauthFlow}
use authsvc.Exec.{Error, manual_link_required, already_linked_elsewhere, random}
use authsvc.Users.{client_by_id, user_by_id, allows_redirect}
use authsvc.Sessions.{SessionMeta, create_session}
use authsvc.Oauth.{create_oauth_flow, consume_oauth_flow, create_auth_code, consume_auth_code}
use authsvc.Linking.{Profile, resolve, link_to_user}
use authsvc.Web.{
  Site, Claims, Reply, Handler, answer, write_err, checked, or_internal, ask, limit, hour,
  lookup_client, respond_with_tokens, unset, to_provider, to_app,
}

-- a client with one registered URI need not send it
abbrev pub redirect_of : Client → String → String
redirect_of c uri = if uri == "" then only c.redirect_uris else uri
  where
    only : List String → String
    only [] = ""
    only (u ∷ []) = u
    only (u ∷ v ∷ us) = ""

abbrev pub redirect_with_error : OauthFlow → String → Reply
redirect_with_error flow code = record {
  status = 302;
  cookie = unset;
  background = none;
  body = to_app flow.redirect_uri "error" code flow.app_state;
}

abbrev pub link_error : Error → String
link_error already_linked_elsewhere = "already_linked"
link_error e = "link_failed"

abbrev pub login_error : Error → String
login_error manual_link_required = "manual_link_required"
login_error e = "login_failed"

module _ (site : Site) where
  -- two draws of random bytes: the state and the PKCE verifier
  unfoldable pub begin_flow : String → Client → String → String → Option String → Handler
  begin_flow provider client uri app_state link_user_id = or_internal (random site.env) (λ state.
      or_internal (random site.env) (λ verifier.
        or_internal
          (create_oauth_flow site.env state (record {
            provider = provider;
            client_id = client.id;
            redirect_uri = uri;
            app_state = app_state;
            code_verifier = verifier;
            link_user_id = link_user_id;
          }))
          (λ _. answer (record {
            status = 302;
            cookie = unset;
            background = none;
            body = to_provider state verifier;
          }))))

  abbrev pub checked_flow : String → String → String → Option String → Client → Handler
  checked_flow provider uri app_state link_user_id client =
      let target = redirect_of client uri in
      if allows_redirect client target
      then begin_flow provider client target app_state link_user_id
      else answer (write_err 400 "invalid_redirect_uri")

  -- `provider` is a configured one: the router answers 404 for the others
  unfoldable pub handle_oauth_start : String → String → String → String → SessionMeta → Handler
  handle_oauth_start provider client_id uri app_state m =
      limit site ("oauth:ip:" ++ m.ip) 60 hour
        (lookup_client site client_id (checked_flow provider uri app_state none))

  unfoldable pub handle_link_start : Claims → String → String → String → String → Handler
  handle_link_start claims provider client_id uri app_state =
      lookup_client site client_id (checked_flow provider uri app_state (some claims.subject))

  unfoldable pub hand_over : OauthFlow → String → Handler
  hand_over flow user_id = or_internal (random site.env) (λ code.
      or_internal
        (create_auth_code site.env code (record {
          user_id = user_id;
          client_id = flow.client_id;
          redirect_uri = flow.redirect_uri;
        }))
        (λ _. answer (record {
          status = 302;
          cookie = unset;
          background = none;
          body = to_app flow.redirect_uri "code" code flow.app_state;
        })))

  -- to link, or to sign in
  unfoldable pub sign_in : OauthFlow → String → Profile → Option String → Handler
  sign_in flow provider p (some user_id) =
      checked (link_to_user site.env user_id provider p)
        (λ e. answer (redirect_with_error flow (link_error e))) (λ _. hand_over flow user_id)
  sign_in flow provider p none =
      checked (resolve site.env provider p) (λ e. answer (redirect_with_error flow (login_error e)))
        (λ res.
          if is_some res.user.disabled_at
          then answer (redirect_with_error flow "account_disabled")
          else hand_over flow res.user.id)

  unfoldable pub fetch_profile : OauthFlow → String → String → Handler
  fetch_profile flow provider code =
      checked (ask (λ k. site.exchange k provider code flow.code_verifier))
        (λ e. answer (redirect_with_error flow "exchange_failed"))
        (λ p.
          sign_in flow provider (record p { email = site.normalize_email p.email })
            flow.link_user_id)

  unfoldable pub handle_oauth_callback : String → String → String → String → Handler
  handle_oauth_callback provider state error code =
      checked (consume_oauth_flow site.env state) (λ e. answer (write_err 400 "invalid_state"))
        (λ flow.
          if not (flow.provider == provider)
          then answer (write_err 400 "invalid_state")
          else if not (error == "")
          then answer (redirect_with_error flow error)
          else if code == ""
          then answer (redirect_with_error flow "missing_code")
          else fetch_profile flow provider code)

  unfoldable pub exchange_for : Client → User → SessionMeta → Handler
  exchange_for client u m =
      if is_some u.disabled_at
      then answer (write_err 403 "account_disabled")
      else or_internal (create_session site.env u.id client.id m)
          (respond_with_tokens site 200 u client.audience)

  unfoldable pub redeem_code : Client → String → SessionMeta → Handler
  redeem_code client code m =
      checked (consume_auth_code site.env code) (λ e. answer (write_err 400 "invalid_code"))
        (λ ac.
          if not (ac.client_id == client.id)
          then answer (write_err 400 "invalid_code")
          else or_internal (user_by_id site.env ac.user_id) (λ u. exchange_for client u m))

  unfoldable pub handle_token_exchange : String → String → String → SessionMeta → Handler
  handle_token_exchange code client_id secret m = limit site ("exchange:ip:" ++ m.ip) 120 hour (
      checked (client_by_id site.env client_id) (λ e. answer (write_err 401 "invalid_client"))
        (λ client.
          checked (ask (λ k. site.verify_password client.secret_hash secret))
            (λ e. answer (write_err 401 "invalid_client"))
            (λ match.
              if match
              then redeem_code client code m
              else answer (write_err 401 "invalid_client"))))
