-- ===== src/Scan.antt =====
-- What the code uses of fmt.Sprint and fmt.Sscanf (literal text and %d), and strings.Split at one
-- character, on texts as lists of characters.
pub mod Laws
use Prim.Native.Char.{Char, code}
use authsvc.Prelude.{
  ℕ, zero, suc, ◌+◌, ◌-◌, ◌*◌, ◌^◌, Bool, false, ◌&&◌, String, Option, none, some, List, [], ◌∷◌,
  leb, ltb, eqb, if◌then◌else◌,
}
use authsvc.Prelude.Int.{ℤ, pos, negsuc}
use authsvc.Text.{is_space}
use authsvc.Otp.Numeric.{decimal}

-- fmt.Sprint of a number
unfoldable pub print : ℕ → String
unfolding decimal
print n = decimal (suc n) n ""

abbrev glue : Char → List String → List String
glue c [] = String.◌∷◌ c "" ∷ []
glue c (part ∷ parts) = String.◌∷◌ c part ∷ parts

-- strings.Split at the character of a number
unfoldable pub split_at : ℕ → String → List String
split_at sep String.[] = "" ∷ []
split_at sep (String.◌∷◌ c s) =
    let rest = split_at sep s in if eqb (code c) sep then "" ∷ rest else glue c rest

abbrev pub is_digit : Char → Bool
is_digit c = leb 48 (code c) && leb (code c) 57

abbrev pub starts_digit : String → Bool
starts_digit String.[] = false
starts_digit (String.◌∷◌ c s) = is_digit c

-- the digits in front, as a number behind `acc`, and what follows them
unfoldable pub digits : ℕ → String → ℕ × String
digits acc String.[] = (acc, "")
digits acc (String.◌∷◌ c s) =
    let rest = digits (acc * 10 + (code c - 48)) s in
    if is_digit c then rest else (acc, String.◌∷◌ c s)

-- spaces before an operand, among which a line feed is an error
unfoldable pub skip_space : String → Option String
skip_space String.[] = some ""
skip_space (String.◌∷◌ c s) =
    let rest = skip_space s in
    if eqb (code c) 10 then none else if is_space c then rest else some (String.◌∷◌ c s)

-- text of the format
unfoldable pub literal : String → String → Option String
literal String.[] s = some s
literal (String.◌∷◌ c p) String.[] = none
literal (String.◌∷◌ c p) (String.◌∷◌ d s) =
    let rest = literal p s in if eqb (code c) (code d) then rest else none

abbrev pub number : String → Option (ℕ × String)
number s = if starts_digit s then some (digits 0 s) else none

abbrev pub below : ℕ → Option (ℕ × String) → Option (ℕ × String)
below bound none = none
below bound (some (v, s)) = if ltb v bound then some (v, s) else none

abbrev uint_of : ℕ → Option String → Option (ℕ × String)
uint_of bits none = none
uint_of bits (some s) = below (2 ^ bits) (number s)

-- %d into an unsigned integer of so many bits
unfoldable pub scan_uint : ℕ → String → Option (ℕ × String)
unfolding skip_space digits
scan_uint bits s = uint_of bits (skip_space s)

abbrev negative : ℕ → ℤ
negative zero = pos 0
negative (suc n) = negsuc n

abbrev pub positive : Option (ℕ × String) → Option (ℤ × String)
positive none = none
positive (some (v, s)) = some (pos v, s)

abbrev negated : Option (ℕ × String) → Option (ℤ × String)
negated none = none
negated (some (v, s)) = some (negative v, s)

abbrev pub signed : String → Option (ℤ × String)
signed String.[] = none
signed (String.◌∷◌ c s) =
    if eqb (code c) 45
    then negated (below (2 ^ 63 + 1) (number s))
    else positive (below (2 ^ 63) (number (if eqb (code c) 43 then s else String.◌∷◌ c s)))

abbrev int_of : Option String → Option (ℤ × String)
int_of none = none
int_of (some s) = signed s

-- %d into an int, of 64 bits
unfoldable pub scan_int : String → Option (ℤ × String)
unfolding skip_space digits
scan_int s = int_of (skip_space s)
