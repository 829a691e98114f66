-- ===== src/Providers.antt =====
-- internal/oauth/github.go, google.go and http.go: the profile of an account at a provider. The exchange of
-- the code for a token `T`, a GET with that token and the decoding of its body `B` are parameters.
pub mod Email
mod Examples
use Prim.Native.String.{◌++◌}
use authsvc.Prelude.{
  and_then, ℕ, suc, ◌==◌, not, Bool, true, false, ◌&&◌, String, Option, none, some, List, [], ◌∷◌,
  eqb, if◌then◌else◌,
}
use authsvc.Linking.{Profile}
use authsvc.Sdk.{is_zero}
use authsvc.Prelude.Int.{ℤ, pos, negsuc}
use authsvc.Otp.Numeric.{decimal}

pub record GithubUser : Type 0 where
  pub id : ℤ
  pub login : String
  pub name : String
  pub avatar_url : String
  pub email : String

pub record GithubEmail : Type 0 where
  pub email : String
  pub primary : Bool
  pub verified : Bool

pub record GoogleUser : Type 0 where
  pub sub : String
  pub email : String
  pub email_verified : Bool
  pub name : String
  pub picture : String

-- the loop of pickEmail, with anyVerified and primary
unfoldable pub pick_from : String → String → List GithubEmail → String × Bool
pick_from any_verified primary [] =
    if not (any_verified == "") then (any_verified, true) else (primary, false)
pick_from any_verified primary (e ∷ es) =
    let any_verified' = if e.verified && any_verified == "" then e.email else any_verified in
    let primary' = if e.primary && primary == "" then e.email else primary in
    let rest = pick_from any_verified' primary' es in
    if e.primary && e.verified then (e.email, true) else rest

unfoldable pub pick_email : List GithubEmail → String × Bool
unfolding pick_from
pick_email list = pick_from "" "" list

unfoldable pub first_non_empty : List String → String
first_non_empty [] = ""
first_non_empty (v ∷ vs) = let rest = first_non_empty vs in if v == "" then rest else v

-- strconv.FormatInt of base ten
unfoldable pub format_int : ℤ → String
unfolding decimal
format_int (pos n) = decimal (suc n) n ""
format_int (negsuc n) = "-" ++ decimal (suc (suc n)) (suc n) ""

abbrev only_ok : Option (ℕ × String) → Option String
only_ok none = none
only_ok (some (status, body)) = if eqb status 200 then some body else none

-- the calls outside this model
pub record Calls (T : Type 0) : Type 0 where
  pub exchange : String → String → Option T
  pub get : T → String → Option (ℕ × String)

abbrev pub picked : Option (List GithubEmail) → String × Bool
picked none = ("", false)
picked (some list) = pick_email list

-- the address, or else the one of the profile, which is never verified
abbrev pub or_profile : GithubUser → String × Bool → String × Bool
or_profile u (email, verified) = if email == "" then (u.email, false) else (email, verified)

abbrev pub github_profile : String → GithubUser → String × Bool → Profile
github_profile raw u (email, verified) = record {
  subject = format_int u.id;
  email = email;
  email_verified = verified;
  name = first_non_empty (u.name ∷ u.login ∷ []);
  avatar = u.avatar_url;
  raw = some raw;
}

abbrev pub google_profile : String → GoogleUser → Profile
google_profile raw u = record {
  subject = u.sub;
  email = u.email;
  email_verified = u.email_verified;
  name = u.name;
  avatar = u.picture;
  raw = some raw;
}

module _ {T : Type 0} (calls : Calls T) where
  -- getJSON
  unfoldable pub get_json : T → String → Option String
  get_json tok url = only_ok (calls.get tok url)

  unfoldable pub github_exchange :
      (String → Option GithubUser)
      → (String → Option (List GithubEmail))
      → String
      → String
      → Option Profile
  github_exchange parse_user parse_emails code verifier =
      and_then (calls.exchange code verifier) (λ tok.
        and_then (get_json tok "https://api.github.com/user") (λ raw.
          and_then (parse_user raw) (λ u.
            if is_zero u.id
            then none
            else some (
                github_profile raw u (
                  or_profile u (
                    picked (
                      and_then (get_json tok "https://api.github.com/user/emails")
                        parse_emails)))))))

  unfoldable pub google_exchange : (String → Option GoogleUser) → String → String → Option Profile
  google_exchange parse_user code verifier = and_then (calls.exchange code verifier) (λ tok.
      and_then (get_json tok "https://openidconnect.googleapis.com/v1/userinfo") (λ raw.
        and_then (parse_user raw) (λ u. if u.sub == "" then none else some (google_profile raw u))))
