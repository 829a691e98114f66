-- ===== src/Http.antt =====
-- internal/httpapi: what the handlers take of a request and give back over HTTP: the patterns of
-- http.ServeMux, clientIP of respond.go, bearer of middleware.go, and the cookies of api.go.
use authsvc.Prelude.{
  ℕ, ◌*◌, ◌==◌, Bool, true, false, ◌&&◌, ◌||◌, String, Option, none, some, List, [], ◌∷◌,
  if◌then◌else◌,
}
use authsvc.Text.{cut, cut_last, trim_space, bearer_token}
use authsvc.Sessions.{SessionMeta}
use authsvc.Web.{Cookie, unset, cleared, refresh}

-- a request, with the segments of its clean path and the first value of each parameter of its query
pub record Request : Type 0 where
  pub method : String
  pub path : List String
  pub query : String → String
  pub authorization : String
  pub x_admin_key : String
  pub x_forwarded_for : String
  pub remote_addr : String
  pub user_agent : String
  pub refresh_cookie : String
  pub body : String

-- a segment of a pattern of http.ServeMux
pub data Segment : Type 0 where
  lit : String → Segment
  wild : Segment

abbrev pub Pattern : Type 0
Pattern = String × List Segment

-- the values of the wildcards, which no empty segment fits
unfoldable pub captures : List Segment → List String → Option (List String)
captures [] [] = some []
captures [] (v ∷ vs) = none
captures (seg ∷ segs) [] = none
captures (lit s ∷ segs) (v ∷ vs) = let rest = captures segs vs in if s == v then rest else none
captures (wild ∷ segs) (v ∷ vs) =
    let rest = captures segs vs in if v == "" then none else capture v rest
  where
    capture : String → Option (List String) → Option (List String)
    capture v none = none
    capture v (some vs) = some (v ∷ vs)

-- a pattern for GET matches HEAD too
abbrev pub fits_method : String → String → Bool
fits_method pattern m = pattern == m || (pattern == "GET" && m == "HEAD")

unfoldable pub matched : Pattern → Request → Option (List String)
unfolding captures
matched p r = if fits_method p.0 r.method then captures p.1 r.path else none

-- clientIP; a comma is character 44, a colon 58
abbrev before_comma : String → Option (String × String) → String
before_comma f none = trim_space f
before_comma f (some (first, rest)) = if first == "" then trim_space f else trim_space first

abbrev before_colon : String → Option (String × String) → String
before_colon host none = host
before_colon host (some (name, port)) = if name == "" then host else name

unfoldable pub client_ip : Request → String
client_ip r =
    if r.x_forwarded_for == ""
    then before_colon r.remote_addr (cut_last 58 r.remote_addr)
    else before_comma r.x_forwarded_for (cut 44 r.x_forwarded_for)

abbrev pub meta : Request → SessionMeta
meta r = record { user_agent = r.user_agent; ip = client_ip r }

-- bearer
abbrev pub bearer : Request → String
bearer r = bearer_token r.authorization

abbrev pub max_body : ℕ
max_body = 64 * 1024

-- an http.Cookie whose HttpOnly is set and whose SameSite is Lax; a MaxAge below 0 deletes it
pub record SetCookie : Type 0 where
  pub name : String
  pub value : String
  pub path : String
  pub expires : Option ℕ
  pub deletes : Bool
  pub secure : Bool

-- setRefreshCookie and clearRefreshCookie, where `secure` is Options.Secure
abbrev pub set_cookie : Bool → Cookie → Option SetCookie
set_cookie secure unset = none
set_cookie secure cleared = some (record {
  name = "authsvc_refresh";
  value = "";
  path = "/v1/token";
  expires = none;
  deletes = true;
  secure = secure;
})
set_cookie secure (refresh token expires) = some (record {
  name = "authsvc_refresh";
  value = token;
  path = "/v1/token";
  expires = some expires;
  deletes = false;
  secure = secure;
})
