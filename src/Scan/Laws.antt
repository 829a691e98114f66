-- ===== src/Scan/Laws.antt =====
-- A number is read back from its print, and a split finds the parts that were joined.
use Prim.Native.Char.{Char, code}
use Prim.Native.String.{◌++◌}
use text.Mathlib.TextLemmas.{nil-append, cons-append}
use authsvc.Prelude.{
  ℕ, zero, suc, ◌+◌, ◌*◌, ◌/◌, ◌%◌, ◌^◌, ◌<◌, ◌≡◌, refl, ap, ◌∙◌, sym, Bool, true, false, not,
  String, some, [], ◌∷◌, arith, ltb, eqb, Bool-cases, inl, inr,
}
use authsvc.Prelude.Int.{pos}
use authsvc.Text.{every, is_space}
use authsvc.Otp.Numeric.{decimal, digit, code-digit}
use authsvc.Scan.{
  print, split_at, is_digit, digits, skip_space, literal, scan_uint, scan_int, starts_digit, signed,
  positive, below, number,
}

digit-is_digit : (v : ℕ) → v < 10 → is_digit (digit v) ≡ true
digit-is_digit v lt = let shown = code-digit v lt in ground arith

digits-digit :
    (acc v : ℕ) (s : String)
    → v < 10
    → digits acc (String.◌∷◌ (digit v) s) ≡ digits (acc * 10 + v) s
unfolding digits
digits-digit acc v s lt =
    let shown = code-digit v lt in rw (digit-is_digit v lt) (ap (λ k. digits k s) (omega arith))

digits-decimal : (fuel v : ℕ) (s : String) → v < fuel → digits 0 (decimal fuel v s) ≡ digits v s
unfolding decimal
digits-decimal zero v s lt = absurd (omega arith)
digits-decimal (suc fuel) v s lt = elim (Bool-cases (ltb v 10)) [
  | inl small ↦ rw small (digits-digit 0 v s (ground arith) ∙ ap (λ k. digits k s) (omega arith))
  | inr big ↦ rw big (
      digits-decimal fuel (v / 10) _ (ground arith)
      ∙ (digits-digit (v / 10) (v % 10) s (omega arith) ∙ ap (λ k. digits k s) (omega arith)))
]

decimal-append : (fuel v : ℕ) (s t : String) → decimal fuel v (s ++ t) ≡ decimal fuel v s ++ t
unfolding decimal
decimal-append zero v s t = refl
decimal-append (suc fuel) v s t = elim (Bool-cases (ltb v 10)) [
  | inl small ↦ rw small (sym (cons-append (digit v) s t))
  | inr big ↦ rw big (
      ap (decimal fuel (v / 10)) (sym (cons-append (digit (v % 10)) s t))
      ∙ decimal-append fuel (v / 10) _ t)
]

decimal-starts : (fuel v : ℕ) (s : String) → v < fuel → starts_digit (decimal fuel v s) ≡ true
unfolding decimal
decimal-starts zero v s lt = absurd (omega arith)
decimal-starts (suc fuel) v s lt = elim (Bool-cases (ltb v 10)) [
  | inl small ↦ rw small (digit-is_digit v (ground arith))
  | inr big ↦ rw big (decimal-starts fuel (v / 10) _ (ground arith))
]

digits-stop : (v : ℕ) (s : String) → starts_digit s ≡ false → digits v s ≡ (v, s)
unfolding digits
digits-stop v String.[] h = refl
digits-stop v (String.◌∷◌ c s) h = rw h refl

skip_space-starts : (s : String) → starts_digit s ≡ true → skip_space s ≡ some s
unfolding skip_space
skip_space-starts String.[] h = cc
skip_space-starts (String.◌∷◌ c s) h =
    let feed : eqb (code c) 10 ≡ false = ground arith in
    let space : is_space c ≡ false = ground arith in rw (feed, space) refl

signed-starts :
    (s : String) → starts_digit s ≡ true → signed s ≡ positive (below (2 ^ 63) (number s))
signed-starts String.[] h = cc
signed-starts (String.◌∷◌ c s) h =
    let minus : eqb (code c) 45 ≡ false = ground arith in
    let plus : eqb (code c) 43 ≡ false = ground arith in rw (minus, plus) refl

-- What is printed of a number, before a text that starts with no digit.
module _ (v : ℕ) (s : String) (stop : starts_digit s ≡ false) where
  print-append : print v ++ s ≡ decimal (suc v) v s
  unfolding print
  print-append = sym (decimal-append (suc v) v "" s) ∙ ap (decimal (suc v) v) (nil-append s)

  pub scan_uint-print : (bits : ℕ) → v < 2 ^ bits → scan_uint bits (print v ++ s) ≡ some (v, s)
  unfolding scan_uint
  scan_uint-print bits fits =
      let starts = decimal-starts (suc v) v s (omega arith) in
      let shown = digits-decimal (suc v) v s (omega arith) ∙ digits-stop v s stop in
      let room : ltb v (2 ^ bits) ≡ true = ground arith in
      rw (print-append, skip_space-starts _ starts, starts, shown, room) refl

  pub scan_int-print : v < 2 ^ 63 → scan_int (print v ++ s) ≡ some (pos v, s)
  unfolding scan_int
  scan_int-print fits =
      let starts = decimal-starts (suc v) v s (omega arith) in
      let shown = digits-decimal (suc v) v s (omega arith) ∙ digits-stop v s stop in
      let room : ltb v (2 ^ 63) ≡ true = ground arith in
      rw (print-append, skip_space-starts _ starts, signed-starts _ starts, starts, shown, room)
        refl

pub literal-append : (p s : String) → literal p (p ++ s) ≡ some s
unfolding literal
literal-append String.[] s = ap some (nil-append s)
literal-append (String.◌∷◌ c p) s =
    let same : eqb (code c) (code c) ≡ true = ground arith in
    rw (cons-append c p s, same) (literal-append p s)

pub split_at-append :
    (sep : Char) (s t : String)
    → every (λ c. not (eqb (code c) (code sep))) s ≡ true
    → split_at (code sep) (s ++ String.◌∷◌ sep t) ≡ s ∷ split_at (code sep) t
unfolding every split_at
split_at-append sep String.[] t h =
    let same : eqb (code sep) (code sep) ≡ true = ground arith in
    rw (nil-append (String.◌∷◌ sep t), same) refl
split_at-append sep (String.◌∷◌ c s) t h =
    let other : eqb (code c) (code sep) ≡ false = ground arith in
    rw (cons-append c s (String.◌∷◌ sep t), other, split_at-append sep s t (ground arith)) refl

pub split_at-lacks :
    (sep : Char) (s : String)
    → every (λ c. not (eqb (code c) (code sep))) s ≡ true
    → split_at (code sep) s ≡ s ∷ []
unfolding every split_at
split_at-lacks sep String.[] h = refl
split_at-lacks sep (String.◌∷◌ c s) h =
    let other : eqb (code c) (code sep) ≡ false = ground arith in
    rw (other, split_at-lacks sep s (ground arith)) refl

module _ (p : Char → Bool) where
  pub every-append : (s t : String) → every p s ≡ true → every p t ≡ true → every p (s ++ t) ≡ true
  unfolding every
  every-append String.[] t hs ht = rw (nil-append t) ht
  every-append (String.◌∷◌ c s) t hs ht =
      rw (cons-append c s t) (
        let first : p c ≡ true = ground arith in
        rw (first, every-append s t (ground arith) ht) refl)

  pub every_mono :
      (q : Char → Bool)
      → ((c : Char) → p c ≡ true → q c ≡ true)
      → (s : String) → every p s ≡ true
      → every q s ≡ true
  unfolding every
  every_mono q f String.[] h = refl
  every_mono q f (String.◌∷◌ c s) h = rw (f c (ground arith), every_mono q f s (ground arith)) refl

every-decimal :
    (fuel v : ℕ) (s : String) → every is_digit s ≡ true → every is_digit (decimal fuel v s) ≡ true
unfolding decimal every
every-decimal zero v s h = h
every-decimal (suc fuel) v s h = elim (Bool-cases (ltb v 10)) [
  | inl small ↦ rw (small, digit-is_digit v (ground arith), h) refl
  | inr big ↦
      rw big (every-decimal fuel (v / 10) _ (rw (digit-is_digit (v % 10) (omega arith), h) refl))
]

pub every-print : (v : ℕ) → every is_digit (print v) ≡ true
unfolding print every
every-print v = every-decimal (suc v) v "" refl
