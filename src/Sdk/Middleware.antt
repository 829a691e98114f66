-- ===== src/Sdk/Middleware.antt =====
-- sdk/go/middleware.go, callback.go and errors.go: what an app puts before its handlers. `parse_jwt` is
-- jwt.Parse with a key set, an issuer and an audience to validate.
pub mod Admission
use authsvc.Prelude.{
  ℕ, ◌==◌, Bool, true, false, String, Option, none, some, List, [], ◌∷◌, is_none, if◌then◌else◌,
}
use authsvc.Text.{bearer_token}
use authsvc.Sdk.{Config, Fault, Got, got, fault, Network, exchange}
use authsvc.Sdk.Keys.{KeyCache, KeyProblem, Lookup, found, missing, get}

pub data Item : Type 0 where
  name : String → Item
  misc : Item

-- the claims that a token may carry: a string, a Boolean, an array or anything else
pub data Value : Type 0 where
  text : String → Value
  flag : Bool → Value
  items : List Item → Value
  other : Value

pub record Token : Type 0 where
  pub subject : String
  pub expiration : ℕ
  pub claim : String → Option Value

pub record User : Type 0 where
  pub id : String
  pub email : String
  pub email_verified : Bool
  pub roles : List String
  pub session_id : String
  pub expires_at : ℕ

abbrev pub text_of : Option Value → String
text_of (some (text s)) = s
text_of _ = ""

abbrev pub flag_of : Option Value → Bool
flag_of (some (flag b)) = b
flag_of _ = false

-- the items that are strings
unfoldable pub names : List Item → List String
names [] = []
names (name s ∷ is) = s ∷ names is
names (misc ∷ is) = names is

abbrev names_of : Option Value → List String
names_of (some (items is)) = names is
names_of _ = []

abbrev pub user_of : Token → User
user_of tok = record {
  id = tok.subject;
  email = text_of (tok.claim "email");
  email_verified = flag_of (tok.claim "email_verified");
  roles = names_of (tok.claim "roles");
  session_id = text_of (tok.claim "sid");
  expires_at = tok.expiration;
}

-- User.HasRole
unfoldable pub has_role : String → List String → Bool
has_role role [] = false
has_role role (r ∷ rs) = let rest = has_role role rs in if r == role then true else rest

pub data Verified : Type 0 where
  user : User → Verified
  unverified : Verified
  key_problem : KeyProblem → Verified

-- a request that is answered here, or handed to the next handler
pub data Guarded : Type 0 where
  refused : (status : ℕ) (code : String) → Guarded
  passed : User → Guarded

module _ {K : Type 0} (parse_jwt : K → String → String → String → Option Token) (cfg : Config) where
  abbrev parsed : Option Token → Verified
  parsed none = unverified
  parsed (some tok) = user (user_of tok)

  abbrev verify_with : Lookup K → String → Verified
  verify_with (missing p) raw = key_problem p
  verify_with (found set) raw = parsed (parse_jwt set cfg.issuer cfg.audience raw)

  -- Client.Verify, at a time
  unfoldable pub verify : ℕ → KeyCache K → String → Verified
  unfolding get
  verify now k raw = verify_with (get cfg now k).0 raw

  abbrev guard_verified : Verified → Guarded
  guard_verified (user u) = passed u
  guard_verified unverified = refused 401 "unauthorized"
  guard_verified (key_problem p) = refused 503 "keys_unavailable"

  -- Client.RequireUser, on the Authorization header
  unfoldable pub require_user : ℕ → KeyCache K → String → Guarded
  unfolding verify bearer_token
  require_user now k header =
      let raw = bearer_token header in
      if raw == "" then refused 401 "unauthorized" else guard_verified (verify now k raw)

unfoldable pub any_role : List String → List String → Bool
unfolding has_role
any_role [] rs = false
any_role (want ∷ wants) rs = let rest = any_role wants rs in if has_role want rs then true else rest

-- Client.RequireRole, inside RequireUser
unfoldable pub require_role : List String → Guarded → Guarded
unfolding any_role
require_role wants (refused status code) = refused status code
require_role wants (passed u) = if any_role wants u.roles then passed u else refused 403 "forbidden"
