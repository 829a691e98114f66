-- ===== src/Password/Examples.antt =====
-- Hashes of a concrete key derivation.
use Prim.Native.Char.{code}
use authsvc.Prelude.{
  ℕ, zero, suc, ◌+◌, ◌%◌, ◌<◌, ◌≡◌, ◌↔◌, refl, ap, true, ◌||◌, String, Option, none, some, [], ◌∷◌,
  arith, eqb, Bool-cases, inl, inr, sym, if◌then◌else◌,
}
use authsvc.Prelude.Lists.{All, length}
use authsvc.Base64.{Bytes, encode}
use authsvc.Scan.{print}
use authsvc.Password.{
  Params, Argon2, hashed, told, invalid_hash, verify_panicked, hash, hash_with_params, verify_hash,
}
use authsvc.Password.Roundtrip.{Argon2Laws, Fits, verify_hash-hash}

abbrev pub stretch : ℕ → ℕ → Bytes
stretch zero b = []
stretch (suc n) b = b ∷ stretch n b

abbrev sum : String → ℕ
sum String.[] = 0
sum (String.◌∷◌ c s) = code c + sum s

-- a byte that depends on the password, as often as asked for
abbrev pub toy : Argon2
toy = record {
  version = 19;
  id_key = λ plain salt time memory threads n.
      if eqb time 0 || eqb threads 0 then none else some (stretch n (sum plain % 256));
}

length-stretch : (n b : ℕ) → length (stretch n b) ≡ n
length-stretch zero b = refl
length-stretch (suc n) b = ap suc (length-stretch n b)

pub stretch-bytes : (n b : ℕ) → b < 256 → All (λ x. x < 256) (stretch n b)
stretch-bytes zero b h = tt
stretch-bytes (suc n) b h = (h, stretch-bytes n b h)

toy_key :
    (plain : String) (time threads n : ℕ) (key : Bytes)
    → (if eqb time 0 || eqb threads 0 then none else some (stretch n (sum plain % 256))) ≡ some key
    → stretch n (sum plain % 256) ≡ key
toy_key plain time threads n key h = elim (Bool-cases (eqb time 0 || eqb threads 0)) [
  | inl crash ↦ absurd (cc (rw crash at h))
  | inr fine ↦ cc (rw fine at h)
]

pub toy-Argon2Laws : Argon2Laws toy
toy-Argon2Laws = record {
  version_fits = omega arith;
  key_len = λ plain salt time memory threads n key h.
      rw (sym (toy_key plain time threads n key h)) (length-stretch n (sum plain % 256));
  key_bytes = λ plain salt time memory threads n key h.
      rw (sym (toy_key plain time threads n key h))
        (stretch-bytes n (sum plain % 256) (omega arith));
}

abbrev params : Params
params = record { memory = 8; time = 1; parallelism = 1; salt_len = 2; key_len = 4 }

params-Fits : Fits params
params-Fits = record {
  memory = omega arith;
  time = omega arith;
  parallelism = omega arith;
  key_len = omega arith;
}

abbrev draw : ℕ → Option Bytes
draw n = some (stretch n 255)

abbrev text : String
text = "$argon2id$v=19$m=8,t=1,p=1$//8$YWFhYQ"

abbrev pub default_text : String
default_text =
    "$argon2id$v=19$m=65536,t=3,p=2$/////////////////////w$YWFhYWFhYWFhYWFhYWFhYWFhYWFhYWFhYWFhYWFhYWE"

hash_test : hash toy draw "a" ≡ hashed default_text
unfolding hash print encode
hash_test = refl

-- trailing zero bits, a missing part and a time of 0
strict_test :
    (verify_hash toy "$argon2id$v=19$m=8,t=1,p=1$//9$YWFhYQ" "a" ≡ invalid_hash)
    × ((verify_hash toy "$argon2id$v=19$m=8,t=1,p=1$//8" "a" ≡ invalid_hash)
        × (verify_hash toy "$argon2id$v=19$m=8,t=0,p=1$//8$YWFhYQ" "a" ≡ verify_panicked))
unfolding verify_hash
strict_test = (refl, (refl, refl))

verify_hash-hash_example :
    ((verify_hash toy text "b" ≡ told true)
      ↔ (toy.id_key "b" (255 ∷ 255 ∷ []) 1 8 1 4 ≡ toy.id_key "a" (255 ∷ 255 ∷ []) 1 8 1 4))
    × (verify_hash toy text "a" ≡ told true)
unfolding hash_with_params print encode
verify_hash-hash_example =
    verify_hash-hash toy toy-Argon2Laws params params-Fits (255 ∷ 255 ∷ [])
      (omega arith, (omega arith, tt)) draw "a" text "b" refl refl
