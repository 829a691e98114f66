-- ===== src/Tokens/Admission.antt =====
-- internal/httpapi's access tokens over those of internal/token: verifyAnyAudience of middleware.go, and
-- the tokens that the handlers mint.
mod Examples
use authsvc.Prelude.{
  ℕ, ◌+◌, ◌≤◌, ◌<◌, ◌≡◌, refl, ◌∙◌, ◌==◌, eq_iff, Bool, false, String, Option, some, and_then, List,
  [], ◌∷◌, inl, inr, is_some, Bool-cases, Option-cases,
}
use authsvc.Web.{Site, Claims as WebClaims}
use authsvc.Tokens.{
  Config, Claims, Key, Jwt, Jwx, Signer, new_signer, sign_access, verify_access, peek_audience,
  token_of,
}
use authsvc.Tokens.Keys.{AddsKeys}
use authsvc.Tokens.Rotation.{seconds, stored, Verifies, completed, sign_access-verifies}

-- the token.Claims that Server.respondWithTokens signs
abbrev pub signed_claims : WebClaims → Claims
signed_claims c = record {
  subject = c.subject;
  audience = c.audience;
  session_id = c.session_id;
  jti = "";
  email = c.email;
  email_verified = c.email_verified;
  roles = some [];
  issued_at = 0;
  expires_at = 0;
}

-- what the handlers read of the claims
abbrev pub read_claims : Claims → WebClaims
read_claims c = record {
  subject = c.subject;
  audience = c.audience;
  session_id = c.session_id;
  email = c.email;
  email_verified = c.email_verified;
}

module _ (jwx : Jwx String) (s : Signer) where
  -- Server.verifyAnyAudience, at a time
  unfoldable pub verify_any_audience : ℕ → String → Option WebClaims
  verify_any_audience now raw =
      and_then (peek_audience jwx raw)
        (λ audience. and_then (verify_access jwx s now raw audience) (λ c. some (read_claims c)))

  -- a site whose tokens are the signer's
  abbrev pub signing_site : Site → Site
  signing_site site = record site {
    sign_access = λ k c. sign_access jwx s (site.env.time k) (site.env.ulid k) (signed_claims c);
    verify_access = λ k raw. verify_any_audience (site.env.time k) raw;
  }

-- jwt.ParseInsecure reads what jwt.Sign wrote, which is no empty text
pub record Reads (jwx : Jwx String) : Type 0 where
  pub peeks :
      (k : Key) (tok : Jwt) (raw : String)
      → jwx.sign k tok ≡ some raw
      → jwx.parse_insecure raw ≡ some (stored tok)
  pub present :
      (k : Key) (tok : Jwt) (raw : String) → jwx.sign k tok ≡ some raw → (raw == "") ≡ false

module _ (jwx : Jwx String) (adds : AddsKeys jwx) (verifies : Verifies jwx) (reads : Reads jwx)
    (c : Config) (s : Signer) (made : new_signer jwx c ≡ some s) where
  pub verify_any_audience-sign :
      (now later : ℕ) (fresh raw : String) (claims : WebClaims)
      → sign_access jwx s now fresh (signed_claims claims) ≡ some raw
      → seconds now ≤ seconds later
      → seconds later < seconds (now + s.ttl)
      → verify_any_audience jwx s later raw ≡ some claims
  unfolding verify_any_audience peek_audience sign_access
  verify_any_audience-sign now later fresh raw claims signed from_now to_end =
      rw
        (
          reads.peeks s.sign_key (token_of s now fresh (signed_claims claims)) raw signed,
          sign_access-verifies jwx adds verifies c c s s made made refl (inl refl) now later fresh
              (signed_claims claims) raw signed from_now to_end,
        )
        refl
