-- ===== src/Tokens/Toy.antt =====
-- A signing library for the witness of Tokens/Admission: it signs one token only, which it knows.
use authsvc.Prelude.{
  ℕ, ◌≡◌, refl, ap, ◌==◌, eq_iff, Bool, true, false, ◌&&◌, String, Option, none, some, List, [],
  ◌∷◌, ◌++◌, eqb, arith, if◌then◌else◌, Bool-cases, inl, inr, sym,
}
use authsvc.Sdk.Middleware.{Value, text, flag, items, other}
use authsvc.Tokens.{Key, PublicKey, Jwt, Jwx}
use authsvc.Tokens.Keys.{AddsKeys}
use authsvc.Tokens.Rotation.{stored, is_valid, Verifies}
use authsvc.Tokens.Admission.{Reads}
use authsvc.Tokens.Fixtures.{decode, encode, half_of, has_kid, Holds-has_kid}
use authsvc.Providers.Email.{some-injective}

abbrev same_flag : Bool → Bool → Bool
same_flag true b = b
same_flag false true = false
same_flag false false = true

same_flag-eq : (a b : Bool) → same_flag a b ≡ true → a ≡ b
same_flag-eq true true h = refl
same_flag-eq true false h = cc
same_flag-eq false true h = cc
same_flag-eq false false h = refl

-- arrays are the same here just if both are empty
abbrev same_value : Value → Value → Bool
same_value (text a) (text b) = a == b
same_value (flag a) (flag b) = same_flag a b
same_value (items []) (items []) = true
same_value a b = false

same_value-eq : (a b : Value) → same_value a b ≡ true → a ≡ b
same_value-eq (text a) (text b) h = ap text ((eq_iff a b).0 h)
same_value-eq (flag a) (flag b) h = ap flag (same_flag-eq a b h)
same_value-eq (items []) (items []) h = refl
same_value-eq (text a) (flag b) h = cc
same_value-eq (text a) (items b) h = cc
same_value-eq (text a) other h = cc
same_value-eq (flag a) (text b) h = cc
same_value-eq (flag a) (items b) h = cc
same_value-eq (flag a) other h = cc
same_value-eq (items []) (text b) h = cc
same_value-eq (items []) (flag b) h = cc
same_value-eq (items []) (items (b ∷ bs)) h = cc
same_value-eq (items []) other h = cc
same_value-eq (items (a ∷ as1)) b h = cc
same_value-eq other b h = cc

abbrev same_list : {A : Type 0} → (A → A → Bool) → List A → List A → Bool
same_list same [] [] = true
same_list same [] (y ∷ ys) = false
same_list same (x ∷ xs) [] = false
same_list same (x ∷ xs) (y ∷ ys) = let rest = same_list same xs ys in same x y && rest

same_list-eq :
    {A : Type 0} (same : A → A → Bool)
    → ((x y : A) → same x y ≡ true → x ≡ y)
    → (xs ys : List A) → same_list same xs ys ≡ true
    → xs ≡ ys
same_list-eq same sound [] [] h = refl
same_list-eq same sound [] (y ∷ ys) h = cc
same_list-eq same sound (x ∷ xs) [] h = cc
same_list-eq same sound (x ∷ xs) (y ∷ ys) h =
    let head : x ≡ y = sound x y (ground arith) in
    let tail : xs ≡ ys = same_list-eq same sound xs ys (ground arith) in cc (head, tail)

abbrev same_claim : String × Value → String × Value → Bool
same_claim (k, v) (l, u) = k == l && same_value v u

same_claim-eq : (a b : String × Value) → same_claim a b ≡ true → a ≡ b
same_claim-eq (k, v) (l, u) h =
    let key : k ≡ l = (eq_iff k l).0 (ground arith) in
    let value : v ≡ u = same_value-eq v u (ground arith) in cc (key, value)

abbrev same_text : String → String → Bool
same_text a b = a == b

abbrev pub same_jwt : Jwt → Jwt → Bool
same_jwt a b =
    a.issuer == b.issuer
    && (a.subject == b.subject
        && (same_list same_text a.audience b.audience
            && (a.jti == b.jti
                && (eqb a.issued_at b.issued_at
                    && (eqb a.expiration b.expiration
                        && same_list same_claim a.private_claims b.private_claims)))))

same_jwt-eq : (a b : Jwt) → same_jwt a b ≡ true → a ≡ b
same_jwt-eq a b h =
    let issuer : a.issuer ≡ b.issuer = (eq_iff _ _).0 (ground arith) in
    let subject : a.subject ≡ b.subject = (eq_iff _ _).0 (ground arith) in
    let audience : a.audience ≡ b.audience =
      same_list-eq same_text (λ x y. (eq_iff x y).0) a.audience b.audience (ground arith) in
    let jti : a.jti ≡ b.jti = (eq_iff _ _).0 (ground arith) in
    let issued : a.issued_at ≡ b.issued_at = ground arith in
    let expires : a.expiration ≡ b.expiration = ground arith in
    let claims : a.private_claims ≡ b.private_claims =
      same_list-eq same_claim same_claim-eq a.private_claims b.private_claims (ground arith) in
    λ i. record {
      issuer = issuer i;
      subject = subject i;
      audience = audience i;
      jti = jti i;
      issued_at = issued i;
      expiration = expires i;
      private_claims = claims i;
    }

-- `known` is signed by the key "ka" as the text "signed"
module _ (known : Jwt) where
  abbrev read : List PublicKey → String → String → ℕ → String → Option Jwt
  read set issuer audience now raw =
      if raw == "signed" && (has_kid "ka" set && is_valid issuer audience now (stored known))
      then some (stored known)
      else none

  abbrev pub toy : Jwx String
  toy = record {
    std_decode = decode;
    url_decode = λ s. none;
    url_encode = encode;
    from_seed = λ b. b;
    public = λ b. b;
    digest = λ b. b;
    public_key = λ k. some (half_of k);
    add_key = λ set p. some (set ++ p ∷ []);
    sign = λ k tok. if k.kid == "ka" && same_jwt tok known then some "signed" else none;
    parse = read;
    parse_insecure = λ raw. if raw == "signed" then some (stored known) else none;
  }

  signed_known :
      (k : Key) (tok : Jwt) (raw : String)
      → toy.sign k tok ≡ some raw
      → (k.kid ≡ "ka") × ((tok ≡ known) × (raw ≡ "signed"))
  signed_known k tok raw h = elim (Bool-cases (k.kid == "ka" && same_jwt tok known)) [
    | inr unknown ↦ absurd (cc (rw unknown at h))
    | inl right ↦ (
      (eq_iff k.kid "ka").0 (ground arith),
      (same_jwt-eq tok known (ground arith), sym (some-injective (rw right at h))),
    )
  ]

  pub toy-AddsKeys : AddsKeys toy
  toy-AddsKeys set set' p h = sym (some-injective h)

  pub toy-Reads : Reads toy
  toy-Reads = record {
    peeks =
        λ k tok raw h. let (kid, (same, shown)) = signed_known k tok raw h in rw (shown, same) refl;
    present = λ k tok raw h. let (kid, (same, shown)) = signed_known k tok raw h in rw shown refl;
  }

  pub toy-Verifies : Verifies toy
  toy-Verifies set k tok raw issuer audience now (p, (half, here)) signed valid =
      let (kid, (same, shown)) = signed_known k tok raw signed in
      let p_kid : p.kid ≡ k.kid = sym (ap (λ (x : PublicKey). x.kid) (some-injective half)) in
      let has : has_kid "ka" set ≡ true =
        rw (p_kid, kid) at (Holds-has_kid (record p { usage = "sig" }) set here) in
      let fine : is_valid issuer audience now (stored known) ≡ true = rw same at valid in
      rw (shown, same, has, fine) refl
