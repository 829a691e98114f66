-- ===== src/Base64/Laws.antt =====
-- What is encoded is decoded again, and its text has neither a dollar sign nor a line break.
use Prim.Native.Char.{Char, code}
use authsvc.Prelude.{
  ℕ, zero, suc, ◌<◌, ◌≡◌, refl, ap, ◌∙◌, Bool, true, false, not, ◌&&◌, ◌||◌, Option, none, some,
  List, [], ◌∷◌, ◌+◌, ◌*◌, ◌/◌, ◌%◌, arith, eqb, if◌then◌else◌, Bool-cases, inl, inr,
}
use authsvc.Text.{every}
use authsvc.Prelude.Lists.{All}
use authsvc.Base64.{
  Bytes, alphabet, char_at, index_of, sextets, chars_of, encode, values_of, bytes_of, decode,
}

-- a test of every number below n
abbrev all_below : ℕ → (ℕ → Bool) → Bool
all_below zero p = true
all_below (suc n) p = let rest = all_below n p in p n && rest

all_below-at : (n : ℕ) (p : ℕ → Bool) (v : ℕ) → all_below n p ≡ true → v < n → p v ≡ true
all_below-at zero p v h lt = absurd (omega arith)
all_below-at (suc n) p v h lt = elim (Bool-cases (eqb v n)) [
  | inl last ↦ let here : p n ≡ true = ground arith in ap p (ground arith) ∙ here
  | inr before ↦ all_below-at n p v (ground arith) (ground arith)
]

abbrev is_index : ℕ → Option ℕ → Bool
is_index v none = false
is_index v (some i) = eqb i v

is_index-eq : (v : ℕ) (o : Option ℕ) → is_index v o ≡ true → o ≡ some v
is_index-eq v none h = cc
is_index-eq v (some i) h = ap some (ground arith)

abbrev reads : ℕ → Bool
reads v = is_index v (index_of alphabet (char_at alphabet v))

abbrev pub is_plain : Char → Bool
is_plain c = not (eqb (code c) 36) && not (eqb (code c) 10 || eqb (code c) 13)

all_read : all_below 64 reads ≡ true
unfolding index_of char_at
all_read = refl

all_plain : all_below 64 (λ v. is_plain (char_at alphabet v)) ≡ true
unfolding char_at
all_plain = refl

kept : (t : ℕ) (x y : Bytes) → t ≡ 0 → x ≡ y → (if eqb t 0 then some x else none) ≡ some y
kept t x y empty same = rw empty (ap some same)

bytes_of-sextets : (bs : Bytes) → All (λ b. b < 256) bs → bytes_of (sextets bs) ≡ some bs
unfolding bytes_of sextets
bytes_of-sextets [] h = refl
bytes_of-sextets (a ∷ []) h =
    kept (a % 4 * 16 % 16) _ _ (omega arith) (ap (λ x. x ∷ []) (omega arith))
bytes_of-sextets (a ∷ b ∷ []) h =
    let first : a / 4 * 4 + (a % 4 * 16 + b / 16) / 16 ≡ a = omega (arith, h) in
    let second : (a % 4 * 16 + b / 16) % 16 * 16 + b % 16 * 4 / 4 ≡ b = omega (arith, h) in
    kept (b % 16 * 4 % 4) _ _ (omega arith) (cc (first, second))
bytes_of-sextets (a ∷ b ∷ c ∷ bs) h =
    let first : a / 4 * 4 + (a % 4 * 16 + b / 16) / 16 ≡ a = omega (arith, h) in
    let second : (a % 4 * 16 + b / 16) % 16 * 16 + (b % 16 * 4 + c / 64) / 4 ≡ b =
      omega (arith, h) in
    let third : (b % 16 * 4 + c / 64) % 4 * 64 + c % 64 ≡ c = omega (arith, h) in
    rw (bytes_of-sextets bs h.1.1.1) (cc (first, second, third))

sextets-small : (bs : Bytes) → All (λ b. b < 256) bs → All (λ v. v < 64) (sextets bs)
unfolding sextets
sextets-small [] h = tt
sextets-small (a ∷ []) h = (omega (arith, h), (omega (arith, h), tt))
sextets-small (a ∷ b ∷ []) h = (omega (arith, h), (omega (arith, h), (omega (arith, h), tt)))
sextets-small (a ∷ b ∷ c ∷ bs) h = (
  omega (arith, h),
  (omega (arith, h), (omega (arith, h), (omega (arith, h), sextets-small bs h.1.1.1))),
)

plain_at : (v : ℕ) → v < 64 → is_plain (char_at alphabet v) ≡ true
plain_at v lt = all_below-at 64 (λ x. is_plain (char_at alphabet x)) v all_plain lt

values_of-chars_of : (vs : List ℕ) → All (λ v. v < 64) vs → values_of (chars_of vs) ≡ some vs
unfolding values_of chars_of
values_of-chars_of [] h = refl
values_of-chars_of (v ∷ vs) h =
    let plain = plain_at v h.0 in
    let none_break : (eqb (code (char_at alphabet v)) 10 || eqb (code (char_at alphabet v)) 13)
        ≡ false =
      ground arith in
    let known = is_index-eq v _ (all_below-at 64 reads v all_read h.0) in
    rw (none_break, known, values_of-chars_of vs h.1) refl

every-chars_of : (vs : List ℕ) → All (λ v. v < 64) vs → every is_plain (chars_of vs) ≡ true
unfolding every chars_of
every-chars_of [] h = refl
every-chars_of (v ∷ vs) h = rw (plain_at v h.0, every-chars_of vs h.1) refl

-- The text of bytes decodes to the bytes.
pub decode-encode : (bs : Bytes) → All (λ b. b < 256) bs → decode (encode bs) ≡ some bs
unfolding decode encode
decode-encode bs h =
    rw (values_of-chars_of (sextets bs) (sextets-small bs h)) (bytes_of-sextets bs h)

pub every-encode : (bs : Bytes) → All (λ b. b < 256) bs → every is_plain (encode bs) ≡ true
unfolding encode
every-encode bs h = every-chars_of (sextets bs) (sextets-small bs h)
