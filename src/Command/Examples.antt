-- ===== src/Command/Examples.antt =====
-- The theorem on what the process serves with at a concrete environment, and tests.
use authsvc.Prelude.{◌≡◌, refl, ◌==◌, true, String, Option, some, none, [], ◌∷◌, if◌then◌else◌}
use authsvc.Text.{trim_right}
use authsvc.Prelude.Int.{ℤ, pos}
use authsvc.Config.{load, has_prefix, refused, missing_env}
use authsvc.Tokens.{new_signer, parse_key, add_public}
use authsvc.Tokens.Fixtures.{jwx, bytes}
use authsvc.Fixtures.{env, world}
use authsvc.Command.Pruning.{young, prune_once-young}
use authsvc.Command.{prune_once, Server, resend_sender, run, build_sender, providers}
use authsvc.Command.Startup.{Hardened, run-Hardened}

abbrev parse_duration : String → Option ℤ
parse_duration s = if s == "1h" then some (pos 3600000000000) else none

abbrev atoi : String → Option ℤ
atoi s = none

abbrev getenv : String → String
getenv name =
    if name == "ISSUER"
    then "https://a.example/"
    else if name == "DATABASE_URL"
    then "postgres://db"
    else if name == "ED25519_PRIVATE_KEY"
    then "a"
    else if name == "ADMIN_API_KEY"
    then "admin"
    else if name == "RESEND_API_KEY"
    then "re"
    else if name == "MAIL_FROM"
    then "a@example.org"
    else if name == "GITHUB_CLIENT_ID"
    then "id"
    else if name == "GITHUB_CLIENT_SECRET"
    then "secret"
    else ""

-- the environment that sets one variable
abbrev bare : String → String
bare name = if name == "DATABASE_URL" then "postgres://db" else ""

all_missing_named :
    load parse_duration atoi bare
    ≡ refused (missing_env ("ED25519_PRIVATE_KEY" ∷ "ADMIN_API_KEY" ∷ []))
unfolding load trim_right has_prefix
all_missing_named = refl

abbrev server : Server
server = record {
  signer = record {
    issuer = "https://a.example";
    ttl = 3600000000000;
    sign_key = record { secret = bytes 32 1; kid = "ka"; algorithm = "EdDSA" };
    pub_set = record { point = bytes 32 1; kid = "ka"; usage = "sig" } ∷ [];
  };
  sender = resend_sender "re" "a@example.org";
  issuer = "https://a.example";
  admin_api_key = "admin";
  secure = true;
  contact_email = "";
  providers =
      record {
        name = "github";
        app = record { client_id = "id"; client_secret = "secret" };
        redirect_url = "https://a.example/v1/oauth/github/callback";
      }
      ∷ [];
}

served : run jwx parse_duration atoi getenv ≡ some server
unfolding run build_sender providers load trim_right has_prefix new_signer parse_key add_public
served = refl

run-Hardened_example : Hardened parse_duration atoi getenv server
run-Hardened_example = run-Hardened parse_duration atoi getenv jwx server served refl

-- the clock of the environment counts its events
prune_once-young_example :
    young (prune_once env world).1.tick (prune_once env world).1.db
    ≡ young (prune_once env world).1.tick world.db
prune_once-young_example = prune_once-young env (prune_once env world).1.tick world (λ k le. le)
