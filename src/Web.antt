-- ===== src/Web.antt =====
-- internal/httpapi/respond.go, api.go and middleware.go: what the handlers share. A handler takes a
-- world to a reply and to the next world. Each takes the request as its decoded parts, the address
-- of the client among them.
pub mod Cases
pub mod Reads
pub mod Exchange
pub mod Guard
pub mod Reset
pub mod Grant
pub mod Spent
pub mod Minted
pub mod Password
pub mod Redirect
pub mod Admin
pub mod Fixtures
mod Examples
pub mod Account
pub mod Login
pub mod Inbox
pub mod CodeLogin
pub mod Register
pub mod Through
pub mod Blind
pub mod Enumeration
pub mod Registration
pub mod Signup
pub mod Roundtrip
pub mod Issue
pub mod Recipient
pub mod Delivery
use authsvc.Prelude.{
  ℕ, ◌+◌, ◌*◌, Bool, String, Option, none, some, List, if◌then◌else◌, ◌==◌, is_some,
}
use authsvc.Schema.{User, Client, Session, Purpose, email_verified}
use authsvc.Exec.{Env, World, Exec, Result, Error, ok, err, failed, not_found, next}
use authsvc.RateLimit.{allow}
use authsvc.Users.{client_by_id}
use authsvc.Sessions.{SessionMeta, IssuedSession, create_session, session_by_id}
use authsvc.Linking.{Profile}

-- internal/token: the claims that the handlers read and set
pub record Claims : Type 0 where
  pub subject : String
  pub audience : String
  pub session_id : String
  pub email : String
  pub email_verified : Bool

-- What the handlers call outside this model. A draw of salt, a signature with its times and a call to
-- a provider may differ from event to event, and end in an error, `none`.
pub record Site : Type 0 where
  pub env : Env
  pub hash_password : ℕ → String → Option String
  pub verify_password : String → String → Option Bool
  pub sign_access : ℕ → Claims → Option String
  pub verify_access : ℕ → String → Option Claims
  pub exchange : ℕ → String → String → String → Option Profile
  pub normalize_email : String → String
  pub rand_int : ℕ → ℕ → Option ℕ
  pub send_code : ℕ → String → Purpose → String → Option (Unit {0})

pub data Cookie : Type 0 where
  unset cleared : Cookie
  refresh : (token : String) (expires : ℕ) → Cookie

pub record UserView : Type 0 where
  pub id : String
  pub email : String
  pub email_verified : Bool

pub record TokenResponse : Type 0 where
  pub access_token : String
  pub refresh_token : String
  pub user : UserView

pub record SessionView : Type 0 where
  pub id : String
  pub client_id : String
  pub issued_at : ℕ
  pub expires_at : ℕ
  pub user_agent : String
  pub ip : String
  pub current : Bool

-- admin.go: createClientResp and the items of handleListClients
pub record AppView : Type 0 where
  pub id : String
  pub name : String
  pub audience : String
  pub redirect_uris : List String

pub data Body : Type 0 where
  nothing : Body
  failure : (code : String) → Body
  done : (what : String) → Body
  tokens : TokenResponse → Body
  me : UserView → Body
  sessions : List SessionView → Body
  app_created : AppView → (secret : String) → Body
  apps : List AppView → Body
  to_provider : (state verifier : String) → Body
  to_app : (uri parameter value state : String) → Body
  key_set : (json : String) → Body
  page : (title : String) → Body
  health : Bool → Body
  method_not_allowed : Body

pub record Reply : Type 0 where
  pub status : ℕ
  pub cookie : Cookie
  pub body : Body
  -- the user whom the request leaves a verification mail running for
  pub background : Option User

abbrev pub Handler : Type 0
Handler = World → Reply × World

abbrev pub answer : Reply → Handler
answer r w = (r, w)

-- writeErr, and Server.internal
abbrev pub write_err : ℕ → String → Reply
write_err status code = record {
  status = status;
  cookie = unset;
  background = none;
  body = failure code;
}

abbrev pub internal : Reply
internal = write_err 500 "internal"

abbrev pub user_json : User → UserView
user_json u = record { id = u.id; email = u.email; email_verified = email_verified u }

abbrev split : {A : Type 0} → Result A → World → (Error → Handler) → (A → Handler) → Reply × World
split (ok a) w bad good = good a w
split (err e) w bad good = bad e w

-- a call, what follows its error and what follows its result
unfoldable pub checked : {A : Type 0} → Exec A → (Error → Handler) → (A → Handler) → Handler
checked m bad good w = let (r, w') = m w in split r w' bad good

abbrev pub or_internal : {A : Type 0} → Exec A → (A → Handler) → Handler
or_internal m = checked m (λ e. answer internal)

abbrev told : {A : Type 0} → Option A → World → Result A × World
told none w = (err failed, next w)
told (some a) w = (ok a, next w)

-- a call outside the model, as an event
unfoldable pub ask : {A : Type 0} → (ℕ → Option A) → Exec A
ask f w = told (f w.tick) w

abbrev pub minute : ℕ
minute = 60 * 1000000000

abbrev pub hour : ℕ
hour = 60 * minute

abbrev pub no_client : Error → Reply
no_client not_found = write_err 400 "unknown_client"
no_client e = internal

-- the claims of Server.respondWithTokens
abbrev pub claims_of : User → String → IssuedSession → Claims
claims_of u audience iss = record {
  subject = u.id;
  audience = audience;
  session_id = iss.session.id;
  email = u.email;
  email_verified = email_verified u;
}

abbrev pub no_session : Error → Reply
no_session not_found = write_err 401 "unauthorized"
no_session e = internal

module _ (site : Site) where
  unfoldable pub limit : String → ℕ → ℕ → Handler → Handler
  limit bucket n window proceed =
      or_internal (allow site.env bucket n window)
        (λ fine. if fine then proceed else answer (write_err 429 "rate_limited"))

  unfoldable pub lookup_client : String → (Client → Handler) → Handler
  lookup_client id proceed =
      if id == ""
      then answer (write_err 400 "invalid_request")
      else checked (client_by_id site.env id) (λ e. answer (no_client e)) proceed

  unfoldable pub respond_with_tokens : ℕ → User → String → IssuedSession → Handler
  respond_with_tokens status u audience iss =
      or_internal (ask (λ k. site.sign_access k (claims_of u audience iss))) (λ access.
        answer (record {
          status = status;
          cookie = refresh iss.refresh_token iss.session.expires_at;
          background = none;
          body = tokens (record {
            access_token = access;
            refresh_token = iss.refresh_token;
            user = user_json u;
          });
        }))

  unfoldable pub issue_session : ℕ → SessionMeta → User → Client → Handler
  issue_session status m u c =
      or_internal (create_session site.env u.id c.id m) (respond_with_tokens status u c.audience)

  -- the session behind a token is checked where the token names one
  unfoldable pub require_live : Claims → (Claims → Handler) → Handler
  require_live claims proceed =
      if claims.session_id == ""
      then proceed claims
      else checked (session_by_id site.env claims.session_id) (λ e. answer (no_session e))
          (λ s.
            if is_some s.revoked_at
            then answer (write_err 401 "session_revoked")
            else proceed claims)

  unfoldable pub require_user : String → (Claims → Handler) → Handler
  require_user bearer proceed =
      if bearer == ""
      then answer (write_err 401 "unauthorized")
      else checked (ask (λ k. site.verify_access k bearer))
          (λ e. answer (write_err 401 "unauthorized")) (λ claims. require_live claims proceed)
