-- ===== src/Text.antt =====
-- What the code uses of package strings, on texts as lists of characters.
use Prim.Native.Char.{Char, code}
use authsvc.Prelude.{
  ℕ, ◌+◌, ◌==◌, Bool, true, ◌&&◌, ◌||◌, String, Option, none, some, leb, eqb, if◌then◌else◌,
}

-- whether each character of a text fits
unfoldable pub every : (Char → Bool) → String → Bool
every p String.[] = true
every p (String.◌∷◌ c s) = let rest = every p s in p c && rest

-- what stands before and after the first character of a code
abbrev pub cut : ℕ → String → Option (String × String)
cut n String.[] = none
cut n (String.◌∷◌ c s) = let rest = cut n s in if eqb (code c) n then some ("", s) else after c rest
  where
    after : Char → Option (String × String) → Option (String × String)
    after c none = none
    after c (some (s, t)) = some (String.◌∷◌ c s, t)

-- the same of the last such character
unfoldable pub cut_last : ℕ → String → Option (String × String)
cut_last n String.[] = none
cut_last n (String.◌∷◌ c s) = let rest = cut_last n s in onward n c s rest
  where
    onward : ℕ → Char → String → Option (String × String) → Option (String × String)
    onward n c s none = if eqb (code c) n then some ("", s) else none
    onward n c s (some (a, b)) = some (String.◌∷◌ c a, b)

-- strings.TrimRight, of the characters that fit
unfoldable pub trim_right : (Char → Bool) → String → String
trim_right p String.[] = ""
trim_right p (String.◌∷◌ c s) =
    let rest = trim_right p s in if rest == "" && p c then "" else String.◌∷◌ c rest

unfoldable pub trim_left : (Char → Bool) → String → String
trim_left p String.[] = ""
trim_left p (String.◌∷◌ c s) = let rest = trim_left p s in if p c then rest else String.◌∷◌ c s

-- unicode.IsSpace
abbrev pub is_space : Char → Bool
is_space c =
    (leb 9 (code c) && leb (code c) 13)
    || (eqb (code c) 32
        || (eqb (code c) 133
            || (eqb (code c) 160
                || (eqb (code c) 5760
                    || ((leb 8192 (code c) && leb (code c) 8202)
                        || (eqb (code c) 8232
                            || (eqb (code c) 8233
                                || (eqb (code c) 8239
                                    || (eqb (code c) 8287 || eqb (code c) 12288)))))))))

unfoldable pub trim_space : String → String
unfolding trim_left trim_right
trim_space s = trim_left is_space (trim_right is_space s)

-- the number of the small letter
abbrev small : Char → ℕ
small c = if leb 65 (code c) && leb (code c) 90 then code c + 32 else code c

-- what follows a prefix of ASCII letters in either case, other than k and s, which have other folds
unfoldable pub after_fold : String → String → Option String
after_fold String.[] s = some s
after_fold (String.◌∷◌ c p) String.[] = none
after_fold (String.◌∷◌ c p) (String.◌∷◌ d s) =
    let rest = after_fold p s in if eqb (small c) (small d) then rest else none

abbrev bearer_of : Option String → String
bearer_of none = ""
bearer_of (some rest) = if rest == "" then "" else trim_space rest

-- the token of an Authorization header, empty where there is none
unfoldable pub bearer_token : String → String
unfolding after_fold trim_space trim_left trim_right
bearer_token h = bearer_of (after_fold "bearer " h)
