-- ===== src/Tokens/Rotation.antt =====
-- That an access token is verified with its claims across a rotation of keys.
use mathlib.Core.Path.{subst}
use authsvc.Prelude.{
  ℕ, ◌+◌, ◌*◌, ◌/◌, ◌≤◌, ◌<◌, ◌≡◌, refl, sym, ◌∙◌, ap, ◌==◌, eq_refl, Bool, true, false, ◌&&◌,
  String, some, List, [], ◌∷◌, ◌⊎◌, inl, inr, map, leb, ltb, arith, if◌then◌else◌,
}
use authsvc.Users.{contains}
use authsvc.Sdk.Middleware.{names, name}
use authsvc.Tokens.{
  PublicKey, Config, Claims, Key, Jwt, Signer, Jwx, parse_key, new_signer, sign_access,
  verify_access, token_of, claims_in, or_empty, get_claim,
}
use authsvc.Tokens.Keys.{AddsKeys, Publishes, SignerOf, new_signer-SignerOf}
use authsvc.Providers.Email.{some-injective}

-- a JWT counts its times in seconds
abbrev pub seconds : ℕ → ℕ
seconds t = t / 1000000000 * 1000000000

-- a token as it is read back
abbrev pub stored : Jwt → Jwt
stored tok = record tok { issued_at = seconds tok.issued_at; expiration = seconds tok.expiration }

-- what jwt.WithValidate, WithIssuer and WithAudience ask of a token at a time
abbrev pub is_valid : String → String → ℕ → Jwt → Bool
is_valid issuer audience now tok =
    tok.issuer == issuer
    && (contains tok.audience audience
        && (leb tok.issued_at (seconds now) && ltb (seconds now) tok.expiration))

-- jwt.Parse reads what jwt.Sign wrote, where the set has the key and the token is valid.
abbrev pub Verifies : {Raw : Type 0} → Jwx Raw → Type 0
Verifies {Raw} jwx =
    (set : List PublicKey) (k : Key) (tok : Jwt) (raw : Raw) (issuer audience : String) (now : ℕ)
    → Publishes jwx k set
    → jwx.sign k tok ≡ some raw
    → is_valid issuer audience now (stored tok) ≡ true
    → jwx.parse set issuer audience now raw ≡ some (stored tok)

-- the claims that are read back: with an id, with roles, and with their times
abbrev pub completed : Signer → ℕ → String → Claims → Claims
completed s now fresh c = record c {
  jti = if c.jti == "" then fresh else c.jti;
  roles = some (or_empty c.roles);
  issued_at = seconds now;
  expires_at = seconds (now + s.ttl);
}

names-map : (roles : List String) → names (map name roles) ≡ roles
unfolding names
names-map [] = refl
names-map (r ∷ rs) = ap (λ xs. r ∷ xs) (names-map rs)

claims_in-token_of :
    (s : Signer) (now : ℕ) (fresh : String) (c : Claims)
    → claims_in (stored (token_of s now fresh c)) ≡ completed s now fresh c
unfolding get_claim
claims_in-token_of s now fresh c =
    ap (λ rs. record (completed s now fresh c) { roles = some rs }) (names-map (or_empty c.roles))

valid :
    (s : Signer) (now later : ℕ) (fresh : String) (c : Claims) (issuer : String)
    → s.issuer ≡ issuer
    → seconds now ≤ seconds later
    → seconds later < seconds (now + s.ttl)
    → is_valid issuer c.audience later (stored (token_of s now fresh c)) ≡ true
unfolding contains
valid s now later fresh c issuer same from_now to_end =
    rw (same, eq_refl issuer, eq_refl c.audience) (ground arith)

module _ {Raw : Type 0} (jwx : Jwx Raw) (adds : AddsKeys jwx) (verifies : Verifies jwx) where
  -- the key of the first signer is one of the second's
  abbrev pub Known : Config → Config → Type 0
  Known c d =
      (c.private_key ≡ d.private_key)
      ⊎ (((d.next_key == "") ≡ false) × (c.private_key ≡ d.next_key))

  published :
      (c d : Config) (s s' : Signer)
      → SignerOf jwx adds c s
      → SignerOf jwx adds d s'
      → Known c d
      → Publishes jwx s.sign_key s'.pub_set
  published c d s s' x y (inl same) =
      let key : s'.sign_key ≡ s.sign_key =
        some-injective (sym y.signs ∙ (ap (parse_key jwx) (sym same) ∙ x.signs)) in
      subst (λ k. Publishes jwx k s'.pub_set) key y.current
  published c d s s' x y (inr (given, same)) =
      y.next s.sign_key given (ap (parse_key jwx) (sym same) ∙ x.signs)

  pub sign_access-verifies :
      (c d : Config) (s s' : Signer)
      → new_signer jwx c ≡ some s
      → new_signer jwx d ≡ some s'
      → c.issuer ≡ d.issuer
      → Known c d
      → (now later : ℕ) (fresh : String) (claims : Claims) (raw : Raw)
      → sign_access jwx s now fresh claims ≡ some raw
      → seconds now ≤ seconds later
      → seconds later < seconds (now + s.ttl)
      → verify_access jwx s' later raw claims.audience ≡ some (completed s now fresh claims)
  unfolding sign_access verify_access
  sign_access-verifies c d s s' made made' same known now later fresh claims raw signed from_now
        to_end =
      let x = new_signer-SignerOf jwx adds c s made in
      let y = new_signer-SignerOf jwx adds d s' made' in
      let parsed =
        verifies s'.pub_set s.sign_key (token_of s now fresh claims) raw s'.issuer claims.audience
          later (published c d s s' x y known) signed
          (valid s now later fresh claims s'.issuer (x.issuer ∙ (same ∙ sym y.issuer)) from_now
            to_end) in
      rw (parsed, claims_in-token_of s now fresh claims) refl
