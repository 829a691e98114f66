-- ===== src/Tokens/Keys.antt =====
-- The keys of a signer that NewSigner makes.
use mathlib.Core.Path.{subst}
use authsvc.Prelude.{
  ◌≡◌, refl, sym, ◌∙◌, ◌==◌, false, some, List, [], ◌∷◌, ◌++◌, inl, inr, Bool-cases, Option-cases,
}
use authsvc.Prelude.Lists.{Holds, Holds-left, Holds-last}
use authsvc.Providers.Email.{and_then-some, some-injective}
use authsvc.Tokens.{Config, Key, PublicKey, Signer, Jwx, parse_key, add_public, new_signer}

module _ {Raw : Type 0} (jwx : Jwx Raw) where
  -- jwk.Set.AddKey puts the key behind those that are there.
  abbrev pub AddsKeys : Type 0
  AddsKeys =
      (set set' : List PublicKey) (p : PublicKey)
      → jwx.add_key set p ≡ some set'
      → set' ≡ set ++ p ∷ []

  -- the set has the public half of the key, for signatures
  abbrev pub Publishes : Key → List PublicKey → Type 0
  Publishes k set =
      (p : PublicKey) × ((jwx.public_key k ≡ some p) × Holds (record p { usage = "sig" }) set)

  module _ (adds : AddsKeys) where
    add_public-Publishes :
        (set set' : List PublicKey) (k : Key) → add_public jwx set k ≡ some set' → Publishes k set'
    unfolding add_public
    add_public-Publishes set set' k h =
        let (p, (half, added)) = and_then-some (jwx.public_key k) _ set' h in
        (p, (half, rw (adds set set' _ added) (Holds-last _ set)))

    add_public-keeps :
        (set set' : List PublicKey) (k k' : Key)
        → add_public jwx set k ≡ some set'
        → Publishes k' set
        → Publishes k' set'
    unfolding add_public
    add_public-keeps set set' k k' h (p', (half', here)) =
        let (p, (half, added)) = and_then-some (jwx.public_key k) _ set' h in
        (p', (half', rw (adds set set' _ added) (Holds-left _ set _ here)))

    -- a signer has the key that it signs with, and publishes that key and the next one
    pub record SignerOf (c : Config) (s : Signer) : Type 0 where
      pub issuer : s.issuer ≡ c.issuer
      pub signs : parse_key jwx c.private_key ≡ some s.sign_key
      pub current : Publishes s.sign_key s.pub_set
      pub next :
          (k : Key)
          → (c.next_key == "") ≡ false
          → parse_key jwx c.next_key ≡ some k
          → Publishes k s.pub_set

    pub new_signer-SignerOf : (c : Config) (s : Signer) → new_signer jwx c ≡ some s → SignerOf c s
    unfolding new_signer
    new_signer-SignerOf c s h = elim (Bool-cases (c.private_key == "")) [
      | inl blank ↦ absurd (cc (rw blank at h))
      | inr given ↦ elim (Option-cases (parse_key jwx c.private_key)) [
        | inl odd ↦ absurd (cc (rw (given, odd) at h))
        | inr (key, parsed) ↦ elim (Option-cases (add_public jwx [] key)) [
          | inl refused ↦ absurd (cc (rw (given, parsed, refused) at h))
          | inr (set, added) ↦ elim (Bool-cases (c.next_key == "")) [
            | inl alone ↦
                subst (SignerOf c) (some-injective (rw (given, parsed, added, alone) at h))
                  (record {
                    issuer = refl;
                    signs = parsed;
                    current = add_public-Publishes [] set key added;
                    next = λ k rotating _. absurd (cc (alone, rotating));
                  })
            | inr rotating ↦ elim (Option-cases (parse_key jwx c.next_key)) [
              | inl odd ↦ absurd (cc (rw (given, parsed, added, rotating, odd) at h))
              | inr (after, parsed') ↦ elim (Option-cases (add_public jwx set after)) [
                | inl refused ↦
                    absurd (cc (rw (given, parsed, added, rotating, parsed', refused) at h))
                | inr (set', added') ↦
                    subst (SignerOf c)
                      (some-injective (rw (given, parsed, added, rotating, parsed', added') at h))
                      (record {
                        issuer = refl;
                        signs = parsed;
                        current =
                            add_public-keeps set set' after key added'
                              (add_public-Publishes [] set key added);
                        next = λ k _ named.
                            subst (λ (x : Key). Publishes x set')
                              (some-injective (sym parsed' ∙ named))
                              (add_public-Publishes set set' after added');
                      })
              ]
            ]
          ]
        ]
      ]
    ]
