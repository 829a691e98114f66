-- ===== src/Providers/Examples.antt =====
-- The theorems on providers at a concrete account, and tests.
use authsvc.Prelude.{
  ◌≡◌, refl, ◌==◌, true, false, String, Option, some, List, [], ◌∷◌, if◌then◌else◌,
}
use authsvc.Linking.{Profile}
use authsvc.Prelude.Int.{pos, negsuc}
use authsvc.Otp.Numeric.{decimal}
use authsvc.Providers.{
  GithubUser, GithubEmail, Calls, pick_from, pick_email, format_int, get_json, github_exchange,
  github_profile,
}
use authsvc.Providers.Email.{preferred, pick_email-preferred, Listed, github_exchange-Listed}

abbrev work : GithubEmail
work = record { email = "w@example.org"; primary = false; verified = true }

abbrev home : GithubEmail
home = record { email = "h@example.org"; primary = true; verified = false }

-- an address that is verified comes before the primary one
work_picked : pick_email (home ∷ work ∷ []) ≡ ("w@example.org", true)
unfolding pick_email pick_from
work_picked = refl

pick_email-preferred_example : pick_email (home ∷ work ∷ []) ≡ preferred (home ∷ work ∷ [])
pick_email-preferred_example = pick_email-preferred (home ∷ work ∷ [])

minus : format_int (negsuc 11) ≡ "-12"
unfolding format_int decimal
minus = refl

abbrev octocat : GithubUser
octocat = record { id = pos 7; login = "octo"; name = ""; avatar_url = ""; email = "h@example.org" }

abbrev calls : Calls String
calls = record {
  exchange = λ code verifier. some code;
  get = λ tok url.
      if url == "https://api.github.com/user" then some (200, "user") else some (200, "emails");
}

abbrev parse_user : String → Option GithubUser
parse_user body = some octocat

abbrev parse_emails : String → Option (List GithubEmail)
parse_emails body = some (home ∷ work ∷ [])

abbrev profile : Profile
profile = github_profile "user" octocat ("w@example.org", true)

octocat_signs_in : github_exchange calls parse_user parse_emails "c" "v" ≡ some profile
unfolding github_exchange get_json pick_email pick_from
octocat_signs_in = refl

github_exchange-Listed_example : Listed calls parse_user parse_emails "c" "v" "w@example.org"
github_exchange-Listed_example =
    github_exchange-Listed calls parse_user parse_emails "c" "v" profile octocat_signs_in refl
