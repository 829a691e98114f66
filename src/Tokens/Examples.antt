-- ===== src/Tokens/Examples.antt =====
-- The theorem on rotation at concrete libraries, and tests.
use authsvc.Prelude.{ℕ, true, none, [], ◌∷◌}
use authsvc.Prelude.Int.{pos}
use authsvc.Tokens.{Config, Claims, Key, PublicKey, Jwt, Signer, token_of}
use authsvc.Tokens.Fixtures.{bytes, half_of}

abbrev before : Config
before = record {
  issuer = "https://a.example";
  access_ttl = pos 0;
  private_key = "a";
  next_key = "b";
}

-- "b" signs now
abbrev after : Config
after = record before { private_key = "b"; next_key = "" }

abbrev key_a : Key
key_a = record { secret = bytes 32 1; kid = "ka"; algorithm = "EdDSA" }

abbrev key_b : Key
key_b = record { secret = bytes 64 2; kid = "kb"; algorithm = "EdDSA" }

abbrev published : Key → PublicKey
published k = record (half_of k) { usage = "sig" }

abbrev an_hour : ℕ
an_hour = 3600000000000

abbrev signer_before : Signer
signer_before = record {
  issuer = "https://a.example";
  ttl = an_hour;
  sign_key = key_a;
  pub_set = published key_a ∷ published key_b ∷ [];
}

abbrev signer_after : Signer
signer_after = record signer_before { sign_key = key_b; pub_set = published key_b ∷ [] }

abbrev anns_claims : Claims
anns_claims = record {
  subject = "ann";
  audience = "app";
  session_id = "first";
  jti = "";
  email = "ann@example.org";
  email_verified = true;
  roles = none;
  issued_at = 0;
  expires_at = 0;
}

abbrev raw : Key × Jwt
raw = (key_b, token_of signer_after 5000000001 "fresh" anns_claims)
