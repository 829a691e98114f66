-- ===== src/Password/Roundtrip.antt =====
-- A hash accepts the passwords that have its key, and no others.
use Prim.Native.Char.{code}
use Prim.Native.String.{◌++◌}
use text.Mathlib.TextLemmas.{append-nil, nil-append, cons-append}
use authsvc.Prelude.{
  ℕ, ◌^◌, ◌%◌, ◌<◌, ◌≡◌, ◌↔◌, refl, sym, ap, Bool, true, not, String, Option, none, some, [], ◌∷◌,
  arith, eqb, Option-cases, inl, inr,
}
use authsvc.Prelude.Int.{pos}
use authsvc.Prelude.Lists.{All, length}
use authsvc.Text.{every}
use authsvc.Base64.{Bytes, encode}
use authsvc.Base64.Laws.{is_plain, decode-encode, every-encode}
use authsvc.Scan.{print, is_digit, split_at}
use authsvc.Scan.Laws.{
  scan_uint-print, scan_int-print, literal-append, split_at-append, split_at-lacks, every-append,
  every_mono, every-print,
}
use authsvc.Password.{
  Params, Argon2, hashed, told, params_text, version_text, phc_text, scan_version, scan_params,
  parse_parts, same_bytes, compared, hash_with_params, verify_hash,
}

-- What is documented of argon2: its version is an int, and a key has the length that is asked for.
pub record Argon2Laws (argon : Argon2) : Type 0 where
  pub version_fits : argon.version < 2 ^ 63
  pub key_len :
      (plain : String) (salt : Bytes) (time memory threads n : ℕ) (key : Bytes)
      → argon.id_key plain salt time memory threads n ≡ some key
      → length key ≡ n
  pub key_bytes :
      (plain : String) (salt : Bytes) (time memory threads n : ℕ) (key : Bytes)
      → argon.id_key plain salt time memory threads n ≡ some key
      → All (λ b. b < 256) key

-- the types of the fields of Params
pub record Fits (p : Params) : Type 0 where
  pub memory : p.memory < 2 ^ 32
  pub time : p.time < 2 ^ 32
  pub parallelism : p.parallelism < 2 ^ 8
  pub key_len : p.key_len < 2 ^ 32

abbrev lacks_dollar : String → Bool
lacks_dollar s = every (λ c. not (eqb (code c) 36)) s

last_print : (v : ℕ) → print v ++ "" ≡ print v
last_print v = append-nil (print v)

scan_version-text : (v : ℕ) → v < 2 ^ 63 → scan_version (version_text v) ≡ some (pos v)
unfolding scan_version
scan_version-text v fits =
    rw (literal-append "v=" (print v), sym (last_print v), scan_int-print v "" refl fits) refl

scan_params-text :
    (p : Params) → Fits p → scan_params (params_text p) ≡ some (p.memory, (p.time, p.parallelism))
unfolding scan_params
scan_params-text p fits =
    let after_t : String = ",p=" ++ print p.parallelism in
    let after_m : String = ",t=" ++ (print p.time ++ after_t) in
    rw
      (
        literal-append "m=" (print p.memory ++ after_m),
        scan_uint-print p.memory after_m (rw (cons-append "," "t=" (print p.time ++ after_t)) refl)
            32 fits.memory,
        literal-append ",t=" (print p.time ++ after_t),
        scan_uint-print p.time after_t (rw (cons-append "," "p=" (print p.parallelism)) refl) 32
            fits.time,
        literal-append ",p=" (print p.parallelism),
        sym (last_print p.parallelism),
        scan_uint-print p.parallelism "" refl 8 fits.parallelism,
      )
      refl

digits-lack : (s : String) → every is_digit s ≡ true → lacks_dollar s ≡ true
digits-lack s h = every_mono is_digit _ (λ c digit. ground arith) s h

encode-lacks : (bs : Bytes) → All (λ b. b < 256) bs → lacks_dollar (encode bs) ≡ true
encode-lacks bs h = every_mono is_plain _ (λ c plain. ground arith) (encode bs) (every-encode bs h)

literal-lacks :
    (s t : String) → lacks_dollar s ≡ true → lacks_dollar t ≡ true → lacks_dollar (s ++ t) ≡ true
literal-lacks s t hs ht = every-append _ s t hs ht

print-lacks : (v : ℕ) → lacks_dollar (print v) ≡ true
print-lacks v = digits-lack (print v) (every-print v)

dollar_parts :
    (s t : String) → lacks_dollar s ≡ true → split_at 36 (s ++ ("$" ++ t)) ≡ s ∷ split_at 36 t
dollar_parts s t h = rw (cons-append "$" "" t, nil-append t) (split_at-append "$" s t h)

version-lacks : (v : ℕ) → lacks_dollar (version_text v) ≡ true
unfolding every
version-lacks v = literal-lacks "v=" (print v) refl (print-lacks v)

params-lacks : (p : Params) → lacks_dollar (params_text p) ≡ true
unfolding every
params-lacks p =
    let threads : String = ",p=" ++ print p.parallelism in
    let time : String = ",t=" ++ (print p.time ++ threads) in
    let threads-lacks : lacks_dollar threads ≡ true =
      literal-lacks ",p=" (print p.parallelism) refl (print-lacks p.parallelism) in
    let time-lacks : lacks_dollar time ≡ true =
      literal-lacks ",t=" (print p.time ++ threads) refl
        (literal-lacks (print p.time) threads (print-lacks p.time) threads-lacks) in
    literal-lacks "m=" (print p.memory ++ time) refl
      (literal-lacks (print p.memory) time (print-lacks p.memory) time-lacks)

parts-phc_text :
    (v : ℕ) (p : Params) (salt key : Bytes)
    → All (λ b. b < 256) salt
    → All (λ b. b < 256) key
    → split_at 36 (phc_text v p salt key)
      ≡ "" ∷ "argon2id" ∷ version_text v ∷ params_text p ∷ encode salt ∷ encode key ∷ []
unfolding phc_text every
parts-phc_text v p salt key hs hk =
    rw
      (
        sym (nil-append (phc_text v p salt key)),
        dollar_parts "" _ refl,
        dollar_parts "argon2id" _ refl,
        dollar_parts (version_text v) _ (version-lacks v),
        dollar_parts (params_text p) _ (params-lacks p),
        dollar_parts (encode salt) _ (encode-lacks salt hs),
        split_at-lacks "$" (encode key) (encode-lacks key hk),
      )
      refl

same_bytes_refl : (bs : Bytes) → same_bytes bs bs ≡ true
unfolding same_bytes
same_bytes_refl [] = refl
same_bytes_refl (b ∷ bs) =
    let same : eqb b b ≡ true = ground arith in rw (same, same_bytes_refl bs) refl

same_bytes-eq : (as1 bs : Bytes) → same_bytes as1 bs ≡ true → as1 ≡ bs
unfolding same_bytes
same_bytes-eq [] [] h = refl
same_bytes-eq [] (b ∷ bs) h = cc
same_bytes-eq (a ∷ as1) [] h = cc
same_bytes-eq (a ∷ as1) (b ∷ bs) h =
    let head : a ≡ b = ground arith in
    let tail : as1 ≡ bs = same_bytes-eq as1 bs (ground arith) in cc (head, tail)

told-injective : {a b : Bool} → told a ≡ told b → a ≡ b
told-injective e = cc

hashed-injective : {s t : String} → hashed s ≡ hashed t → s ≡ t
hashed-injective e = cc

compared_iff :
    (key : Bytes) (got : Option Bytes) → (compared key got ≡ told true) ↔ (got ≡ some key)
compared_iff key none = (λ h. cc, λ h. cc)
compared_iff key (some bs) = (
  λ h. ap some (same_bytes-eq bs key (told-injective h)),
  λ h. let same : bs ≡ key = cc in rw same (ap told (same_bytes_refl key)),
)

parse_parts-text :
    (v : ℕ) (p : Params) (salt key : Bytes)
    → v < 2 ^ 63
    → Fits p
    → All (λ b. b < 256) salt
    → All (λ b. b < 256) key
    → parse_parts v
        ("" ∷ "argon2id" ∷ version_text v ∷ params_text p ∷ encode salt ∷ encode key ∷ [])
      ≡ some (record {
        memory = p.memory;
        time = p.time;
        parallelism = p.parallelism;
        salt = salt;
        want = key;
      })
unfolding parse_parts
parse_parts-text v p salt key small fits hs hk =
    let same : eqb v v ≡ true = ground arith in
    rw
      (
        scan_version-text v small,
        same,
        scan_params-text p fits,
        decode-encode salt hs,
        decode-encode key hk,
      )
      refl

module _ (argon : Argon2) (laws : Argon2Laws argon) (p : Params) (fits : Fits p) (salt : Bytes)
    (salt_bytes : All (λ b. b < 256) salt) where
  abbrev key_of : String → Option Bytes
  key_of plain = argon.id_key plain salt p.time p.memory p.parallelism p.key_len

  verify_hash-phc_text :
      (plain : String) (key : Bytes)
      → key_of plain ≡ some key
      → (guess : String)
      → verify_hash argon (phc_text argon.version p salt key) guess ≡ compared key (key_of guess)
  unfolding verify_hash
  verify_hash-phc_text plain key made guess =
      let made_bytes = laws.key_bytes plain salt p.time p.memory p.parallelism p.key_len key made in
      let made_len = laws.key_len plain salt p.time p.memory p.parallelism p.key_len key made in
      let small : length key % 2 ^ 32 ≡ p.key_len = omega (arith, made_len, fits.key_len) in
      rw
        (
          parts-phc_text argon.version p salt key salt_bytes made_bytes,
          parse_parts-text argon.version p salt key laws.version_fits fits salt_bytes made_bytes,
          small,
        )
        refl

  -- For costs that fit their types, a salt that was drawn for a password and the hash that was made of
  -- them: a guess is accepted by the hash exactly when argon2 gives the guess the same key as the
  -- password, so the password itself is accepted.
  pub verify_hash-hash :
      (draw : ℕ → Option Bytes) (plain text guess : String)
      → draw p.salt_len ≡ some salt
      → hash_with_params argon draw plain p ≡ hashed text
      → ((verify_hash argon text guess ≡ told true) ↔ (key_of guess ≡ key_of plain))
        × (verify_hash argon text plain ≡ told true)
  unfolding hash_with_params
  verify_hash-hash draw plain text guess drawn made = elim (Option-cases (key_of plain)) [
    | inl panics ↦ absurd (cc (rw (drawn, panics) at made))
    | inr (key, keyed) ↦
        let shown = rw (drawn, keyed) at made in
        let text_is : text ≡ phc_text argon.version p salt key = sym (hashed-injective shown) in
        let accepts : (attempt : String)
            → (verify_hash argon text attempt ≡ told true) ↔ (key_of attempt ≡ some key) =
          λ attempt.
            rw (text_is, verify_hash-phc_text plain key keyed attempt)
              (compared_iff key (key_of attempt)) in
        (rw keyed (accepts guess), (accepts plain).1 keyed)
  ]
