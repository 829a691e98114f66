-- ===== src/Web/Redirect.antt =====
-- internal/httpapi/admin.go: validRedirect, the check of an app's redirect URIs.
use Prim.Native.Char.{Char, code}
use Prim.Native.String.{◌++◌}
use text.Mathlib.TextLemmas.{nil-append, cons-append}
use authsvc.Prelude.{
  ap, ◌∙◌, ℕ, ◌≡◌, ◌≢◌, ◌⊎◌, refl, eq_iff, ◌==◌, Bool, true, false, not, ◌&&◌, ◌||◌, String, Option,
  none, some, List, [], ◌∷◌, arith, eqb, Bool-cases, inl, inr, Option-cases,
}
use authsvc.Prelude.Lists.{All}

-- what validRedirect reads of a parsed url.URL
pub record Url : Type 0 where
  pub scheme : String
  pub host : String
  pub hostname : String
  pub fragment : String

abbrev has_char : ℕ → String → Bool
has_char n String.[] = false
has_char n (String.◌∷◌ c s) = eqb (code c) n || has_char n s

abbrev is_local : String → Bool
is_local host = host == "localhost" || (host == "127.0.0.1" || host == "::1")

-- an absolute URL has a scheme; `*` is character 42
abbrev pub is_fine_url : String → Url → Bool
is_fine_url raw u =
    not (u.scheme == "")
    && (not (u.host == "")
        && (u.fragment == ""
            && ((u.scheme == "https" || (u.scheme == "http" && is_local u.hostname))
                && not (has_char 42 raw))))

abbrev parsed_fine : String → Option Url → Bool
parsed_fine raw none = false
parsed_fine raw (some u) = is_fine_url raw u

-- `parse` is url.Parse
abbrev pub valid_redirect : (String → Option Url) → String → Bool
valid_redirect parse raw = parsed_fine raw (parse raw)

unfoldable pub all_valid : (String → Option Url) → List String → Bool
all_valid parse [] = true
all_valid parse (u ∷ us) = valid_redirect parse u && all_valid parse us

pub all_valid-All :
    (parse : String → Option Url) (uris : List String)
    → all_valid parse uris ≡ true
    → All (λ u. valid_redirect parse u ≡ true) uris
unfolding all_valid
all_valid-All parse [] h = tt
all_valid-All parse (u ∷ us) h = (ground arith, all_valid-All parse us (ground arith))

-- An absolute URL without a fragment, over https or over http to the local host, that has no `*`.
pub record SafeRedirect (parse : String → Option Url) (raw : String) : Type 0 where
  pub url : Url
  pub parsed : parse raw ≡ some url
  pub absolute : (url.scheme ≢ "") × (url.host ≢ "")
  pub whole : url.fragment ≡ ""
  pub secure :
      (url.scheme ≡ "https")
      ⊎ ((url.scheme ≡ "http")
          × ((url.hostname ≡ "localhost")
              ⊎ ((url.hostname ≡ "127.0.0.1") ⊎ (url.hostname ≡ "::1"))))
  pub exact : (before rest : String) → raw ≢ before ++ "*" ++ rest

pub other_than : (s s' : String) → (s == s') ≡ false → s ≢ s'
other_than s s' h e = absurd (cc ((eq_iff s s').1 e, h))

has_char-inside : (before rest : String) → has_char 42 (before ++ "*" ++ rest) ≡ true
has_char-inside String.[] rest =
    let c : Char = "*" in
    let star : "*" ++ rest ≡ String.◌∷◌ c rest =
      cons-append c "" rest ∙ ap (λ s. String.◌∷◌ c s) (nil-append rest) in
    rw (nil-append ("*" ++ rest), star) refl
has_char-inside (String.◌∷◌ c before) rest =
    let inside = has_char-inside before rest in
    rw (cons-append c before ("*" ++ rest)) (ground arith)

-- over https, or to the local host
safe_scheme :
    (u : Url)
    → (u.scheme == "https" || (u.scheme == "http" && is_local u.hostname)) ≡ true
    → (u.scheme ≡ "https")
      ⊎ ((u.scheme ≡ "http")
          × ((u.hostname ≡ "localhost") ⊎ ((u.hostname ≡ "127.0.0.1") ⊎ (u.hostname ≡ "::1"))))
safe_scheme u h = elim (Bool-cases (u.scheme == "https")) [
  | inl tls ↦ inl ((eq_iff _ _).0 tls)
  | inr plain ↦ inr (
    (eq_iff _ _).0 (ground arith),
    elim (Bool-cases (u.hostname == "localhost")) [
      | inl named ↦ inl ((eq_iff _ _).0 named)
      | inr unnamed ↦ inr (elim (Bool-cases (u.hostname == "127.0.0.1")) [
        | inl four ↦ inl ((eq_iff _ _).0 four)
        | inr other ↦ inr ((eq_iff _ _).0 (ground arith))
      ])
    ],
  )
]

pub valid_redirect-SafeRedirect :
    (parse : String → Option Url) (raw : String)
    → valid_redirect parse raw ≡ true
    → SafeRedirect parse raw
valid_redirect-SafeRedirect parse raw h = elim (Option-cases (parse raw)) [
  | inl odd ↦ absurd (cc (rw odd at h))
  | inr (u, parsed) ↦
      let fine : is_fine_url raw u ≡ true = rw parsed at h in
      record {
        url = u;
        parsed = parsed;
        absolute = (other_than u.scheme "" (ground arith), other_than u.host "" (ground arith));
        whole = (eq_iff u.fragment "").0 (ground arith);
        secure = safe_scheme u (ground arith);
        exact = λ before rest e.
            let clear : has_char 42 raw ≡ false = ground arith in
            absurd (cc (rw e at clear, has_char-inside before rest));
      }
]
