-- ===== src/Tokens.antt =====
-- internal/token/token.go: access tokens, over the calls of jwx, ed25519, base64 and sha256 as parameters.
-- `Raw` is the text of a signed token.
pub mod Keys
pub mod Rotation
pub mod Admission
pub mod Toy
pub mod Fixtures
mod Examples
use authsvc.Prelude.{
  and_then, ℕ, ◌+◌, ◌*◌, ◌/◌, ◌==◌, Bool, true, false, ◌&&◌, String, Option, none, some, List, [],
  ◌∷◌, map, eqb, leb, ltb, if◌then◌else◌,
}
use authsvc.Prelude.Lists.{length}
use authsvc.Users.{contains}
use authsvc.Web.{hour}
use authsvc.Prelude.Int.{ℤ, pos, negsuc}
use authsvc.Sdk.Middleware.{Value, text, flag, items, name, text_of, flag_of, names}

abbrev pub Bytes : Type 0
Bytes = List ℕ

pub record Config : Type 0 where
  pub issuer : String
  pub access_ttl : ℤ
  pub private_key : String
  pub next_key : String

-- a nil slice of roles is `none`
pub record Claims : Type 0 where
  pub subject : String
  pub audience : String
  pub session_id : String
  pub jti : String
  pub email : String
  pub email_verified : Bool
  pub roles : Option (List String)
  pub issued_at : ℕ
  pub expires_at : ℕ

-- jwk.Key, private and public
pub record Key : Type 0 where
  pub secret : Bytes
  pub kid : String
  pub algorithm : String

pub record PublicKey : Type 0 where
  pub point : Bytes
  pub kid : String
  pub usage : String

-- jwt.Token
pub record Jwt : Type 0 where
  pub issuer : String
  pub subject : String
  pub audience : List String
  pub jti : String
  pub issued_at : ℕ
  pub expiration : ℕ
  pub private_claims : List (String × Value)

pub record Signer : Type 0 where
  pub issuer : String
  pub ttl : ℕ
  pub sign_key : Key
  pub pub_set : List PublicKey

-- the libraries
pub record Jwx (Raw : Type 0) : Type 0 where
  pub std_decode : String → Option Bytes
  pub url_decode : String → Option Bytes
  pub url_encode : Bytes → String
  pub from_seed : Bytes → Bytes
  pub public : Bytes → Bytes
  pub digest : Bytes → Bytes
  pub public_key : Key → Option PublicKey
  pub add_key : List PublicKey → PublicKey → Option (List PublicKey)
  pub sign : Key → Jwt → Option Raw
  -- jwt.Parse with a key set, and the issuer, the audience and the time to validate
  pub parse : List PublicKey → String → String → ℕ → Raw → Option Jwt
  pub parse_insecure : Raw → Option Jwt

abbrev ttl_of : ℤ → ℕ
ttl_of (pos n) = if ltb 0 n then n else hour
ttl_of (negsuc n) = hour

-- sum[:8]
abbrev pub first_eight : Bytes → Bytes
first_eight (a ∷ b ∷ c ∷ d ∷ e ∷ f ∷ g ∷ h ∷ rest) = a ∷ b ∷ c ∷ d ∷ e ∷ f ∷ g ∷ h ∷ []
first_eight bytes = bytes

-- Token.Get of a claim that is not registered
unfoldable pub get_claim : String → List (String × Value) → Option Value
get_claim key [] = none
get_claim key ((k, v) ∷ rest) = let later = get_claim key rest in if k == key then some v else later

abbrev pub or_empty : Option (List String) → List String
or_empty none = []
or_empty (some roles) = roles

-- the roles of a claim, nil where it is no array
abbrev pub roles_of : Option Value → Option (List String)
roles_of (some (items is)) = some (names is)
roles_of _ = none

abbrev first_of : List String → String
first_of [] = ""
first_of (a ∷ rest) = a

abbrev some_first : List String → Option String
some_first [] = none
some_first (a ∷ rest) = some a

-- the token of SignAccess, at a time, with a fresh ULID
abbrev pub token_of : Signer → ℕ → String → Claims → Jwt
token_of s now fresh c = record {
  issuer = s.issuer;
  subject = c.subject;
  audience = c.audience ∷ [];
  jti = if c.jti == "" then fresh else c.jti;
  issued_at = now;
  expiration = now + s.ttl;
  private_claims =
      ("sid", text c.session_id)
      ∷ ("email", text c.email)
      ∷ ("email_verified", flag c.email_verified)
      ∷ ("roles", items (map name (or_empty c.roles)))
      ∷ [];
}

-- the claims of VerifyAccess
abbrev pub claims_in : Jwt → Claims
claims_in tok = record {
  subject = tok.subject;
  audience = first_of tok.audience;
  session_id = text_of (get_claim "sid" tok.private_claims);
  jti = tok.jti;
  email = text_of (get_claim "email" tok.private_claims);
  email_verified = flag_of (get_claim "email_verified" tok.private_claims);
  roles = roles_of (get_claim "roles" tok.private_claims);
  issued_at = tok.issued_at;
  expires_at = tok.expiration;
}

module _ {Raw : Type 0} (jwx : Jwx Raw) where
  abbrev or_decode : Option Bytes → String → Option Bytes
  or_decode (some raw) s = some raw
  or_decode none s = jwx.url_decode s

  -- ed25519.SeedSize and ed25519.PrivateKeySize
  abbrev private_of : Bytes → Option Bytes
  private_of raw =
      if eqb (length raw) 32
      then some (jwx.from_seed raw)
      else if eqb (length raw) 64
      then some raw
      else none

  abbrev with_kid : Bytes → Key
  with_kid priv = record {
    secret = priv;
    kid = jwx.url_encode (first_eight (jwx.digest (jwx.public priv)));
    algorithm = "EdDSA";
  }

  unfoldable pub parse_key : String → Option Key
  parse_key s =
      and_then (or_decode (jwx.std_decode s) s)
        (λ raw. and_then (private_of raw) (λ priv. some (with_kid priv)))

  unfoldable pub add_public : List PublicKey → Key → Option (List PublicKey)
  add_public set priv =
      and_then (jwx.public_key priv) (λ p. jwx.add_key set (record p { usage = "sig" }))

  abbrev signer_of : Config → Key → List PublicKey → Option Signer
  signer_of c key set =
      some (record { issuer = c.issuer; ttl = ttl_of c.access_ttl; sign_key = key; pub_set = set })

  -- NewSigner; every error is `none`
  unfoldable pub new_signer : Config → Option Signer
  unfolding parse_key add_public
  new_signer c =
      if c.private_key == ""
      then none
      else and_then (parse_key c.private_key) (λ key. and_then (add_public [] key) (λ set.
        if c.next_key == ""
        then signer_of c key set
        else and_then (parse_key c.next_key)
            (λ after. and_then (add_public set after) (signer_of c key))))

  unfoldable pub sign_access : Signer → ℕ → String → Claims → Option Raw
  sign_access s now fresh c = jwx.sign s.sign_key (token_of s now fresh c)

  unfoldable pub verify_access : Signer → ℕ → Raw → String → Option Claims
  verify_access s now raw audience =
      and_then (jwx.parse s.pub_set s.issuer audience now raw) (λ tok. some (claims_in tok))

  unfoldable pub peek_audience : Raw → Option String
  peek_audience raw = and_then (jwx.parse_insecure raw) (λ tok. some_first tok.audience)
