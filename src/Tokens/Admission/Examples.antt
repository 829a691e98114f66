-- ===== src/Tokens/Admission/Examples.antt =====
-- The token of a concrete session is let through.
use authsvc.Prelude.{[], ◌∷◌}
use authsvc.Prelude.Int.{pos}
use authsvc.Sessions.{IssuedSession}
use authsvc.Web.{TokenResponse, user_json, claims_of}
use authsvc.Tokens.{Config, Jwt, Signer, token_of}
use authsvc.Tokens.Admission.{signed_claims}
use authsvc.Tokens.Fixtures.{bytes, half_of}
use authsvc.Fixtures.{env, ann, phone}

abbrev config : Config
config = record {
  issuer = "https://a.example";
  access_ttl = pos 0;
  private_key = "a";
  next_key = "";
}

abbrev signer : Signer
signer = record {
  issuer = "https://a.example";
  ttl = 3600000000000;
  sign_key = record { secret = bytes 32 1; kid = "ka"; algorithm = "EdDSA" };
  pub_set =
      record (half_of (record { secret = bytes 32 1; kid = "ka"; algorithm = "EdDSA" })) {
        usage = "sig";
      }
      ∷ [];
}

abbrev issued : IssuedSession
issued = record { session = phone; refresh_token = "token" }

abbrev known : Jwt
known = token_of signer 0 (env.ulid 0) (signed_claims (claims_of ann "app" issued))

abbrev granted : TokenResponse
granted = record { access_token = "signed"; refresh_token = "token"; user = user_json ann }
