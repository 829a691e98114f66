-- ===== src/Otp/Numeric.antt =====
-- internal/store/otp.go: NewNumericCode, a draw below 10^n printed in decimal and padded with zeros.
use Prim.Native.Char.{Char, code}
use authsvc.Prelude.{
  ℕ, zero, suc, ◌+◌, ◌-◌, ◌*◌, ◌/◌, ◌%◌, ◌≤◌, ◌<◌, ◌≡◌, refl, ap, ◌∙◌, String, Option, none, some,
  arith, ltb, if◌then◌else◌, Bool-cases, inl, inr,
}

-- big.Int.Exp(10, n)
unfoldable pub pow10 : ℕ → ℕ
pow10 zero = 1
pow10 (suc n) = 10 * pow10 n

abbrev pub digit : ℕ → Char
digit zero = "0"
digit (suc zero) = "1"
digit (suc (suc zero)) = "2"
digit (suc (suc (suc zero))) = "3"
digit (suc (suc (suc (suc zero)))) = "4"
digit (suc (suc (suc (suc (suc zero))))) = "5"
digit (suc (suc (suc (suc (suc (suc zero)))))) = "6"
digit (suc (suc (suc (suc (suc (suc (suc zero))))))) = "7"
digit (suc (suc (suc (suc (suc (suc (suc (suc zero)))))))) = "8"
digit (suc (suc (suc (suc (suc (suc (suc (suc (suc v))))))))) = "9"

-- big.Int.String, before what is printed already
unfoldable pub decimal : ℕ → ℕ → String → String
decimal zero v s = s
decimal (suc fuel) v s =
    let rest = decimal fuel (v / 10) (String.◌∷◌ (digit (v % 10)) s) in
    if ltb v 10 then String.◌∷◌ (digit v) s else rest

-- len, of a text of digits
unfoldable pub count : String → ℕ
count String.[] = 0
count (String.◌∷◌ c s) = suc (count s)

-- for len(s) < n { s = "0" + s }, `none` where the fuel ends first
unfoldable pub pad : ℕ → ℕ → String → Option String
unfolding count
pad zero n s = if ltb (count s) n then none else some s
pad (suc fuel) n s =
    let rest = pad fuel n (String.◌∷◌ "0" s) in if ltb (count s) n then rest else some s

-- the code of a draw
unfoldable pub numeric_code : ℕ → ℕ → Option String
unfolding pad decimal
numeric_code n v = pad n n (decimal (suc v) v "")

-- the number that a text of digits shows, behind `acc`
unfoldable pub value_from : ℕ → String → ℕ
value_from acc String.[] = acc
value_from acc (String.◌∷◌ c s) = value_from (acc * 10 + (code c - 48)) s

pub code-digit : (v : ℕ) → v < 10 → code (digit v) ≡ 48 + v
code-digit zero lt = refl
code-digit (suc zero) lt = refl
code-digit (suc (suc zero)) lt = refl
code-digit (suc (suc (suc zero))) lt = refl
code-digit (suc (suc (suc (suc zero)))) lt = refl
code-digit (suc (suc (suc (suc (suc zero))))) lt = refl
code-digit (suc (suc (suc (suc (suc (suc zero)))))) lt = refl
code-digit (suc (suc (suc (suc (suc (suc (suc zero))))))) lt = refl
code-digit (suc (suc (suc (suc (suc (suc (suc (suc zero)))))))) lt = refl
code-digit (suc (suc (suc (suc (suc (suc (suc (suc (suc zero))))))))) lt = refl
code-digit (suc (suc (suc (suc (suc (suc (suc (suc (suc (suc v)))))))))) lt = absurd (omega arith)

value_from-digit :
    (acc v : ℕ) (s : String)
    → v < 10
    → value_from acc (String.◌∷◌ (digit v) s) ≡ value_from (acc * 10 + v) s
unfolding value_from
value_from-digit acc v s lt = ap (λ d. value_from (acc * 10 + d) s) (omega (arith, code-digit v lt))

value_from-decimal :
    (fuel v : ℕ) (s : String) → v < fuel → value_from 0 (decimal fuel v s) ≡ value_from v s
unfolding decimal
value_from-decimal zero v s lt = absurd (omega arith)
value_from-decimal (suc fuel) v s lt = elim (Bool-cases (ltb v 10)) [
  | inl small ↦
      rw small (value_from-digit 0 v s (ground arith) ∙ ap (λ k. value_from k s) (omega arith))
  | inr big ↦ rw big (
      value_from-decimal fuel (v / 10) _ (ground arith)
      ∙ (value_from-digit (v / 10) (v % 10) s (omega arith)
          ∙ ap (λ k. value_from k s) (omega arith)))
]

-- a number below a power of ten takes as many digits
count-decimal :
    (n fuel v : ℕ) (s : String)
    → v < fuel
    → v < pow10 (suc n)
    → count (decimal fuel v s) ≤ suc n + count s
unfolding decimal count pow10
count-decimal n zero v s lt small = absurd (omega arith)
count-decimal zero (suc fuel) v s lt small = elim (Bool-cases (ltb v 10)) [
  | inl short ↦ rw short (omega arith)
  | inr long ↦ absurd (ground arith)
]
count-decimal (suc n) (suc fuel) v s lt small = elim (Bool-cases (ltb v 10)) [
  | inl short ↦ rw short (omega arith)
  | inr long ↦ rw long (
      omega (
        arith,
        count-decimal n fuel (v / 10) (String.◌∷◌ (digit (v % 10)) s) (ground arith) (omega arith),
      ))
]

-- the code has as many digits as asked for and shows the draw
pub record Numeral (n v : ℕ) (code : String) : Type 0 where
  pub width : count code ≡ n
  pub shows : value_from 0 code ≡ v

pad-Numeral :
    (fuel n v : ℕ) (s : String)
    → n ≤ fuel + count s
    → count s ≤ n
    → value_from 0 s ≡ v
    → (code : String) × ((pad fuel n s ≡ some code) × Numeral n v code)
unfolding pad count value_from
pad-Numeral zero n v s enough fits same = (
  s,
  (
    elim (Bool-cases (ltb (count s) n)) [
      | inl short ↦ absurd (ground arith)
      | inr done ↦ rw done refl
    ],
    record { width = omega arith; shows = same },
  ),
)
pad-Numeral (suc fuel) n v s enough fits same = elim (Bool-cases (ltb (count s) n)) [
  | inr done ↦ (s, (rw done refl, record { width = ground arith; shows = same }))
  | inl short ↦
      let (code, (eq, numeral)) =
        pad-Numeral fuel n v (String.◌∷◌ "0" s) (omega arith) (ground arith) same in
      (code, (rw short eq, numeral))
]

-- For a width of at least one and a draw below the power of ten, the printing and the padding end
-- within their fuel, in a code of that width which shows the draw.
pub numeric_code-Numeral :
    (n v : ℕ)
    → 0 < n
    → v < pow10 n
    → (code : String) × ((numeric_code n v ≡ some code) × Numeral n v code)
unfolding numeric_code count value_from
numeric_code-Numeral zero v pos small = absurd (omega arith)
numeric_code-Numeral (suc n) v pos small =
    pad-Numeral (suc n) (suc n) v _ (omega arith)
      (omega (arith, count-decimal n (suc v) v "" (omega arith) small))
      (value_from-decimal (suc v) v "" (omega arith))
