-- ===== src/Api.antt =====
-- internal/httpapi: the routes of api.go with their guards, decode of respond.go, and the pages of
-- wellknown.go and legal.go.
pub mod Guarded
mod Examples
use authsvc.Prelude.{
  ℕ, ◌*◌, ◌==◌, Bool, true, false, not, ◌&&◌, ◌||◌, String, Option, none, some, List, [], ◌∷◌, ◌++◌,
  ltb, if◌then◌else◌,
}
use authsvc.Text.{cut, cut_last, trim_space, bearer_token}
use authsvc.Exec.{World, query}
use authsvc.Sessions.{SessionMeta}
use authsvc.Web.{
  Site, Claims, Handler, Reply, Body, Cookie, unset, cleared, refresh, key_set, page, health,
  method_not_allowed, answer, write_err, checked, or_internal, ask, require_user,
}
use authsvc.Web.Account.{
  handle_refresh, handle_logout, handle_logout_all, handle_me, handle_list_sessions,
  handle_delete_session,
}
use authsvc.Web.Login.{handle_login, handle_email_verify, handle_password_reset, handle_otp_verify}
use authsvc.Web.Register.{handle_register, handle_password_forgot, handle_otp_request}
use authsvc.Web.Roundtrip.{
  handle_oauth_start, handle_link_start, handle_oauth_callback, handle_token_exchange,
}
use authsvc.Web.Redirect.{Url}
use authsvc.Web.Admin.{handle_create_client, handle_list_clients, require_admin}
use authsvc.Http.{
  Request, Segment, lit, wild, Pattern, captures, fits_method, matched, client_ip, meta, bearer,
  max_body,
}

-- the fields that a JSON object sets in a struct
pub record Fields : Type 0 where
  pub text : String → String
  pub texts : String → List String

-- httpapi.Server: its parts, and what it calls outside this model
pub record Server : Type 0 where
  pub site : Site
  pub admin_api_key : String
  -- the configured providers, and strings.ToLower
  pub providers : List String
  pub to_lower : String → String
  -- len, of a text
  pub bytes : String → ℕ
  pub parse_url : String → Option Url
  -- the hash that a login without an account is compared with
  pub dummy_hash : String
  -- Decode of a json.Decoder into a struct with these fields that disallows others, with what is left,
  -- whether the rest gives io.EOF, and the refresh token that a Decode of
  -- what the limit lets through leaves, whether it fails or not
  pub decode_fields : List String → String → Option (Fields × String)
  pub is_eof : String → Bool
  pub decode_quiet : String → String
  -- Signer.JWKS, marshalled
  pub jwks : ℕ → Option String

abbrev malformed_body : Handler
malformed_body = answer (write_err 400 "invalid_request")

module _ (server : Server) where
  abbrev single : Option (Fields × String) → (Fields → Handler) → Handler
  single none proceed = malformed_body
  single (some (fields, rest)) proceed =
      if server.is_eof rest then proceed fields else malformed_body

  -- a body over the limit ends in an error of the reader, before the value or after it
  unfoldable pub decode : List String → Request → (Fields → Handler) → Handler
  decode names r proceed =
      if ltb max_body (server.bytes r.body)
      then malformed_body
      else single (server.decode_fields names r.body) proceed

  abbrev member : String → List String → Bool
  member name [] = false
  member name (p ∷ ps) = let rest = member name ps in p == name || rest

  -- Server.provider
  unfoldable pub with_provider : String → (String → Handler) → Handler
  unfolding member
  with_provider value proceed =
      let name = server.to_lower value in
      if member name server.providers
      then proceed name
      else answer (write_err 404 "unknown_provider")

  abbrev pub guard_user : Request → (Claims → Handler) → Handler
  guard_user r = require_user server.site (bearer r)

  abbrev pub guard_admin : Request → Handler → Handler
  guard_admin r = require_admin server.admin_api_key (bearer r) r.x_admin_key

  abbrev refresh_token_from : Request → String
  refresh_token_from r =
      if r.refresh_cookie == "" then server.decode_quiet r.body else r.refresh_cookie

  abbrev shown : Body → Reply
  shown body = record { status = 200; cookie = unset; background = none; body = body }

  unfoldable pub handle_jwks : Handler
  handle_jwks = or_internal (ask server.jwks) (λ set. answer (shown (key_set set)))

  -- DB.Health: SELECT 1
  unfoldable pub handle_health : Handler
  handle_health =
      checked (query server.site.env (λ d. tt))
        (λ e.
          answer (record { status = 503; cookie = unset; background = none; body = health false }))
        (λ one. answer (shown (health true)))

  abbrev handle_home : Request → Handler
  handle_home r = home r.path
    where
      home : List String → Handler
      home [] = answer (shown (page "grindlog auth"))
      home (s ∷ ss) = answer (write_err 404 "not_found")

  abbrev one_of : List String → (String → Handler) → Handler
  one_of [] f = answer (write_err 404 "not_found")
  one_of (v ∷ vs) f = f v

  -- the handlers of the paths with a body
  abbrev pub register_route : Request → Handler
  register_route r = decode ("client_id" ∷ "email" ∷ "password" ∷ []) r (λ f.
      handle_register server.site server.bytes (f.text "client_id") (f.text "email")
        (f.text "password") (meta r))

  abbrev pub login_route : Request → Handler
  login_route r = decode ("client_id" ∷ "email" ∷ "password" ∷ []) r (λ f.
      handle_login server.site server.dummy_hash (f.text "client_id") (f.text "email")
        (f.text "password") (meta r))

  abbrev pub verify_route : Request → Handler
  verify_route r =
      decode ("token" ∷ []) r (λ f. handle_email_verify server.site (f.text "token") (meta r))

  abbrev pub forgot_route : Request → Handler
  forgot_route r =
      decode ("email" ∷ []) r (λ f. handle_password_forgot server.site (f.text "email") (meta r))

  abbrev pub reset_route : Request → Handler
  reset_route r = decode ("token" ∷ "new_password" ∷ []) r (λ f.
      handle_password_reset server.site server.bytes (f.text "token") (f.text "new_password")
        (meta r))

  abbrev pub otp_request_route : Request → Handler
  otp_request_route r =
      decode ("client_id" ∷ "email" ∷ []) r
        (λ f. handle_otp_request server.site (f.text "client_id") (f.text "email") (meta r))

  abbrev pub otp_verify_route : Request → Handler
  otp_verify_route r = decode ("client_id" ∷ "email" ∷ "code" ∷ []) r (λ f.
      handle_otp_verify server.site (f.text "client_id") (f.text "email") (f.text "code") (meta r))

  abbrev pub exchange_route : Request → Handler
  exchange_route r = decode ("code" ∷ "client_id" ∷ "client_secret" ∷ []) r (λ f.
      handle_token_exchange server.site (f.text "code") (f.text "client_id")
        (f.text "client_secret") (meta r))

  abbrev pub create_client_route : Request → Handler
  create_client_route r = decode ("id" ∷ "name" ∷ "redirect_uris" ∷ "audience" ∷ []) r (λ f.
      handle_create_client server.site server.parse_url (record {
        id = f.text "id";
        name = f.text "name";
        redirect_uris = f.texts "redirect_uris";
        audience = f.text "audience";
      }))

  -- the handlers of an OAuth round trip, which read the query
  abbrev pub start_route : String → Request → Handler
  start_route value r = with_provider value (λ provider.
      handle_oauth_start server.site provider (r.query "client_id") (r.query "redirect_uri")
        (r.query "state") (meta r))

  abbrev pub callback_route : String → Request → Handler
  callback_route value r = with_provider value (λ provider.
      handle_oauth_callback server.site provider (r.query "state") (r.query "error")
        (r.query "code"))

  abbrev pub link_route : String → Request → Claims → Handler
  link_route value r claims = with_provider value (λ provider.
      handle_link_start server.site claims provider (r.query "client_id") (r.query "redirect_uri")
        (r.query "state"))

-- a pattern, and its handler on the values of the wildcards
pub record Route : Type 0 where
  pub pattern : Pattern
  pub handler : List String → Request → Handler

abbrev pub on : String → List Segment → (List String → Request → Handler) → Route
on method segments handler = record { pattern = (method, segments); handler = handler }

-- Server.Routes. The pattern "GET /" fits every path, and the others are more specific than it.
unfoldable pub routes : Server → List Route
routes server =
    on "GET" (lit ".well-known" ∷ lit "jwks.json" ∷ []) (λ vs r. handle_jwks server)
    ∷ on "GET" (lit "healthz" ∷ []) (λ vs r. handle_health server)
    ∷ on "GET" (lit "privacy" ∷ []) (λ vs r. answer (shown server (page "Privacy policy")))
    ∷ on "GET" (lit "terms" ∷ []) (λ vs r. answer (shown server (page "Terms of service")))
    ∷ on "POST" (lit "v1" ∷ lit "auth" ∷ lit "register" ∷ []) (λ vs r. register_route server r)
    ∷ on "POST" (lit "v1" ∷ lit "auth" ∷ lit "login" ∷ []) (λ vs r. login_route server r)
    ∷ on "POST" (lit "v1" ∷ lit "auth" ∷ lit "email" ∷ lit "verify" ∷ [])
        (λ vs r. verify_route server r)
    ∷ on "POST" (lit "v1" ∷ lit "auth" ∷ lit "password" ∷ lit "forgot" ∷ [])
        (λ vs r. forgot_route server r)
    ∷ on "POST" (lit "v1" ∷ lit "auth" ∷ lit "password" ∷ lit "reset" ∷ [])
        (λ vs r. reset_route server r)
    ∷ on "POST" (lit "v1" ∷ lit "auth" ∷ lit "otp" ∷ lit "request" ∷ [])
        (λ vs r. otp_request_route server r)
    ∷ on "POST" (lit "v1" ∷ lit "auth" ∷ lit "otp" ∷ lit "verify" ∷ [])
        (λ vs r. otp_verify_route server r)
    ∷ on "GET" (lit "v1" ∷ lit "oauth" ∷ wild ∷ lit "start" ∷ [])
        (λ vs r. one_of server vs (λ v. start_route server v r))
    ∷ on "GET" (lit "v1" ∷ lit "oauth" ∷ wild ∷ lit "callback" ∷ [])
        (λ vs r. one_of server vs (λ v. callback_route server v r))
    ∷ on "GET" (lit "v1" ∷ lit "me" ∷ lit "link" ∷ wild ∷ lit "start" ∷ [])
        (λ vs r. guard_user server r (λ c. one_of server vs (λ v. link_route server v r c)))
    ∷ on "POST" (lit "v1" ∷ lit "token" ∷ lit "exchange" ∷ []) (λ vs r. exchange_route server r)
    ∷ on "POST" (lit "v1" ∷ lit "token" ∷ lit "refresh" ∷ [])
        (λ vs r. handle_refresh server.site (refresh_token_from server r) (meta r))
    ∷ on "POST" (lit "v1" ∷ lit "auth" ∷ lit "logout" ∷ [])
        (λ vs r. guard_user server r (handle_logout server.site))
    ∷ on "POST" (lit "v1" ∷ lit "auth" ∷ lit "logout-all" ∷ [])
        (λ vs r. guard_user server r (handle_logout_all server.site))
    ∷ on "GET" (lit "v1" ∷ lit "me" ∷ []) (λ vs r. guard_user server r (handle_me server.site))
    ∷ on "GET" (lit "v1" ∷ lit "sessions" ∷ [])
        (λ vs r. guard_user server r (handle_list_sessions server.site))
    ∷ on "DELETE" (lit "v1" ∷ lit "sessions" ∷ wild ∷ [])
        (λ vs r. guard_user server r (λ c. one_of server vs (handle_delete_session server.site c)))
    ∷ on "POST" (lit "v1" ∷ lit "admin" ∷ lit "clients" ∷ [])
        (λ vs r. guard_admin server r (create_client_route server r))
    ∷ on "GET" (lit "v1" ∷ lit "admin" ∷ lit "clients" ∷ [])
        (λ vs r. guard_admin server r (handle_list_clients server.site))
    ∷ []

-- what no other pattern fits: "GET /", or a method that no pattern has for the path
abbrev pub otherwise : Server → Request → Handler
otherwise server r =
    if fits_method "GET" r.method
    then handle_home server r
    else answer
        (record { status = 405; cookie = unset; background = none; body = method_not_allowed })

abbrev dispatch : Option (List String) → Route → Request → Handler → Handler
dispatch none route r rest = rest
dispatch (some vs) route r rest = route.handler vs r

-- http.ServeMux
unfoldable pub mux : List Route → Request → Handler → Handler
unfolding matched
mux [] r rest = rest
mux (route ∷ routes) r rest =
    let after = mux routes r rest in dispatch (matched route.pattern r) route r after

unfoldable pub serve : Server → Request → Handler
unfolding routes mux
serve server r = mux (routes server) r (otherwise server r)
