-- ===== src/Tokens/Fixtures.antt =====
-- Concrete libraries for the witnesses of the theorems on access tokens. A signed token is its key and its
-- claims, and the two keys are "a" and "b".
use authsvc.Prelude.{
  ℕ, zero, suc, ◌==◌, Bool, false, ◌&&◌, ◌||◌, String, Option, none, some, List, [], ◌∷◌, ◌++◌,
  if◌then◌else◌, eqb, ◌≡◌, refl, true, ap, eq_refl, arith, inl, inr,
}
use authsvc.Prelude.Lists.{Holds}
use authsvc.Tokens.{Bytes, Key, PublicKey, Jwt, Jwx}
use authsvc.Tokens.Rotation.{stored, is_valid}

abbrev pub bytes : ℕ → ℕ → Bytes
bytes zero b = []
bytes (suc n) b = b ∷ bytes n b

abbrev pub decode : String → Option Bytes
decode s = if s == "a" then some (bytes 32 1) else if s == "b" then some (bytes 64 2) else none

abbrev pub encode : Bytes → String
encode [] = ""
encode (b ∷ bs) = if eqb b 1 then "ka" else "kb"

abbrev pub half_of : Key → PublicKey
half_of k = record { point = k.secret; kid = k.kid; usage = "" }

unfoldable pub has_kid : String → List PublicKey → Bool
has_kid kid [] = false
has_kid kid (p ∷ ps) = p.kid == kid || has_kid kid ps

pub Holds-has_kid : (p : PublicKey) (set : List PublicKey) → Holds p set → has_kid p.kid set ≡ true
unfolding has_kid
Holds-has_kid p [] h = absurd h
Holds-has_kid p (q ∷ qs) (inl e) = rw (← ap (λ (x : PublicKey). x.kid) e, eq_refl p.kid) refl
Holds-has_kid p (q ∷ qs) (inr h) = ground (arith, Holds-has_kid p qs h)

abbrev pub parsed : List PublicKey → String → String → ℕ → Key × Jwt → Option Jwt
parsed set issuer audience now (k, tok) =
    if has_kid k.kid set && is_valid issuer audience now (stored tok)
    then some (stored tok)
    else none

abbrev pub jwx : Jwx (Key × Jwt)
jwx = record {
  std_decode = decode;
  url_decode = λ s. none;
  url_encode = encode;
  from_seed = λ b. b;
  public = λ b. b;
  digest = λ b. b;
  public_key = λ k. some (half_of k);
  add_key = λ set p. some (set ++ p ∷ []);
  sign = λ k tok. some (k, tok);
  parse = parsed;
  parse_insecure = λ raw. some raw.1;
}
