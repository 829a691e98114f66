-- ===== src/Base64.antt =====
-- encoding/base64: RawStdEncoding, and its Strict decoding, which still skips line breaks. A byte is a
-- number below 256, a text is read by its characters.
pub mod Laws
use Prim.Native.Char.{Char, code}
use authsvc.Prelude.{
  ℕ, zero, suc, Bool, ◌+◌, ◌*◌, ◌/◌, ◌%◌, String, Option, none, some, List, [], ◌∷◌, ◌||◌, eqb,
  if◌then◌else◌,
}

abbrev pub Bytes : Type 0
Bytes = List ℕ

abbrev pub alphabet : String
alphabet = "ABCDEFGHIJKLMNOPQRSTUVWXYZabcdefghijklmnopqrstuvwxyz0123456789+/"

-- the character at an index of a text
unfoldable pub char_at : String → ℕ → Char
char_at String.[] i = "A"
char_at (String.◌∷◌ c s) zero = c
char_at (String.◌∷◌ c s) (suc i) = char_at s i

abbrev bump : Option ℕ → Option ℕ
bump none = none
bump (some i) = some (suc i)

-- the index of a character in a text
unfoldable pub index_of : String → Char → Option ℕ
index_of String.[] c = none
index_of (String.◌∷◌ d s) c =
    let rest = index_of s c in if eqb (code c) (code d) then some 0 else bump rest

-- the values of six bits that three, two or one bytes give
unfoldable pub sextets : Bytes → List ℕ
sextets [] = []
sextets (a ∷ []) = (a / 4) ∷ ((a % 4) * 16) ∷ []
sextets (a ∷ b ∷ []) = (a / 4) ∷ ((a % 4) * 16 + b / 16) ∷ ((b % 16) * 4) ∷ []
sextets (a ∷ b ∷ c ∷ bs) =
    (a / 4) ∷ ((a % 4) * 16 + b / 16) ∷ ((b % 16) * 4 + c / 64) ∷ (c % 64) ∷ sextets bs

unfoldable pub chars_of : List ℕ → String
chars_of [] = ""
chars_of (v ∷ vs) = String.◌∷◌ (char_at alphabet v) (chars_of vs)

unfoldable pub encode : Bytes → String
unfolding sextets chars_of char_at
encode bs = chars_of (sextets bs)

abbrev is_break : Char → Bool
is_break c = eqb (code c) 10 || eqb (code c) 13

abbrev put : Option ℕ → Option (List ℕ) → Option (List ℕ)
put none vs = none
put (some v) none = none
put (some v) (some vs) = some (v ∷ vs)

-- the values that the characters stand for, `none` where one stands for none
unfoldable pub values_of : String → Option (List ℕ)
unfolding index_of
values_of String.[] = some []
values_of (String.◌∷◌ c s) =
    let rest = values_of s in if is_break c then rest else put (index_of alphabet c) rest

abbrev three : ℕ → ℕ → ℕ → Option Bytes → Option Bytes
three a b c none = none
three a b c (some bs) = some (a ∷ b ∷ c ∷ bs)

-- The bytes that values of six bits give. The bits that fill no byte must be zero.
unfoldable pub bytes_of : List ℕ → Option Bytes
bytes_of [] = some []
bytes_of (v ∷ []) = none
bytes_of (v ∷ w ∷ []) = if eqb (w % 16) 0 then some ((v * 4 + w / 16) ∷ []) else none
bytes_of (v ∷ w ∷ x ∷ []) =
    if eqb (x % 4) 0 then some ((v * 4 + w / 16) ∷ ((w % 16) * 16 + x / 4) ∷ []) else none
bytes_of (v ∷ w ∷ x ∷ y ∷ vs) =
    let rest = bytes_of vs in three (v * 4 + w / 16) ((w % 16) * 16 + x / 4) ((x % 4) * 64 + y) rest

abbrev grouped : Option (List ℕ) → Option Bytes
grouped none = none
grouped (some vs) = bytes_of vs

unfoldable pub decode : String → Option Bytes
unfolding values_of bytes_of index_of
decode s = grouped (values_of s)
