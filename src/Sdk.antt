-- ===== src/Sdk.antt =====
-- sdk/go/authsdk.go and client.go: the client of the service that an app uses, over a network that
-- takes a request and its own state to a response, if there is one, and to its next state.
pub mod Keys
pub mod Middleware
pub mod Retry
pub mod Callback
mod Examples
use Prim.Native.String.{◌++◌}
use Prim.Native.Char.{Char, code}
use authsvc.Prelude.{
  ℕ, ◌*◌, ◌==◌, not, Bool, true, false, ◌&&◌, ◌||◌, String, Option, none, some, List, [], ◌∷◌, leb,
  ltb, eqb, if◌then◌else◌,
}
use authsvc.Prelude.Int.{ℤ, pos, negsuc}
use authsvc.Text.{trim_right}
use authsvc.Web.{hour, minute}

abbrev pub is_positive : ℤ → Bool
is_positive (pos n) = ltb 0 n
is_positive (negsuc n) = false

abbrev pub is_zero : ℤ → Bool
is_zero (pos n) = eqb n 0
is_zero (negsuc n) = false

pub record Config : Type 0 where
  pub base_url : String
  pub fallback_url : String
  pub client_id : String
  pub client_secret : String
  pub audience : String
  pub issuer : String
  pub jwks_refresh : ℤ
  pub jwks_max_stale : ℤ

abbrev pub default_jwks_max_stale : ℤ
default_jwks_max_stale = pos (7 * (24 * hour))

abbrev pub default_jwks_refresh : ℤ
default_jwks_refresh = pos (15 * minute)

abbrev pub is_slash : Char → Bool
is_slash c = eqb (code c) 47

-- the settings that New fills in
unfoldable pub completed : Config → Config
unfolding trim_right
completed cfg =
    let base = trim_right is_slash cfg.base_url in
    record {
      base_url = base;
      fallback_url = trim_right is_slash cfg.fallback_url;
      client_id = cfg.client_id;
      client_secret = cfg.client_secret;
      audience = if cfg.audience == "" then cfg.client_id else cfg.audience;
      issuer = if cfg.issuer == "" then base else cfg.issuer;
      jwks_refresh =
          if is_positive cfg.jwks_refresh then cfg.jwks_refresh else default_jwks_refresh;
      jwks_max_stale =
          if is_zero cfg.jwks_max_stale then default_jwks_max_stale else cfg.jwks_max_stale;
    }

-- New, up to the first fetch; `none` is ErrNoBaseURL
unfoldable pub new_client : Config → Option Config
unfolding completed
new_client cfg = if cfg.base_url == "" then none else some (completed cfg)

-- an answer with no 2xx status, any other failure of a call, and a body that does not parse
pub data Fault : Type 0 where
  status : (code : ℕ) → Fault
  transport : Fault
  malformed : Fault
  no_secret : Fault

pub data Got (A : Type 0) : Type 0 where
  got : A → Got A
  fault : Fault → Got A

pub record Response (B : Type 0) : Type 0 where
  pub code : ℕ
  pub content : B

-- what is sent to a URL
pub data Payload : Type 0 where
  nothing : Payload
  fields : List (String × String) → Payload

-- the network, with the services behind it
abbrev pub Network : Type 0 → Type 0 → Type 0
Network W B = String → Payload → W → Option (Response B) × W

unfoldable pub should_fail_over : Fault → Bool
should_fail_over (status n) = leb 500 n
should_fail_over transport = true
should_fail_over malformed = true
should_fail_over no_secret = true

abbrev pub judged : {B : Type 0} → Option (Response B) → Got B
judged none = fault transport
judged (some r) = if ltb r.code 200 || ltb 299 r.code then fault (status r.code) else got r.content

module _ {W B : Type 0} (net : Network W B) (cfg : Config) where
  -- Client.do
  unfoldable pub send : String → Payload → W → Got B × W
  send url body w = let (r, w') = net url body w in (judged r, w')

  abbrev fall_back : String → Payload → Got B → W → Got B × W
  fall_back path body (got b) w = (got b, w)
  fall_back path body (fault e) w =
      if not (cfg.fallback_url == "") && should_fail_over e
      then send (cfg.fallback_url ++ path) body w
      else (fault e, w)

  -- getWithFallback, and postWithFallback up to the decoding
  unfoldable pub with_fallback : String → Payload → W → Got B × W
  unfolding send should_fail_over
  with_fallback path body w =
      let (r, w') = send (cfg.base_url ++ path) body w in fall_back path body r w'

-- json.Unmarshal
abbrev unmarshalled : {A : Type 0} → Option A → Got A
unmarshalled none = fault malformed
unmarshalled (some a) = got a

abbrev pub decoded : {A B : Type 0} → (B → Option A) → Got B → Got A
decoded parse (fault e) = fault e
decoded parse (got b) = unmarshalled (parse b)

module _ {W B S : Type 0} (net : Network W B) (parse : B → Option S) (cfg : Config) where
  unfoldable pub post_with_fallback : String → List (String × String) → W → Got S × W
  post_with_fallback path payload w =
      let (r, w') = with_fallback net cfg path (fields payload) w in (decoded parse r, w')

  unfoldable pub exchange : String → W → Got S × W
  exchange code w =
      if cfg.client_secret == ""
      then (fault no_secret, w)
      else post_with_fallback "/v1/token/exchange"
          (("code", code)
            ∷ ("client_id", cfg.client_id)
            ∷ ("client_secret", cfg.client_secret)
            ∷ [])
          w

  unfoldable pub refresh : String → W → Got S × W
  refresh refresh_token =
      post_with_fallback "/v1/token/refresh" (("refresh_token", refresh_token) ∷ [])

  unfoldable pub login : String → String → W → Got S × W
  login email password =
      post_with_fallback "/v1/auth/login"
        (("client_id", cfg.client_id) ∷ ("email", email) ∷ ("password", password) ∷ [])
