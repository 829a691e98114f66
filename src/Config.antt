-- ===== src/Config.antt =====
-- internal/config/config.go: the settings, from the environment `getenv`, where an unset variable is empty.
-- time.ParseDuration and strconv.Atoi are parameters.
use authsvc.Prelude.{
  ◌==◌, not, Bool, true, false, ◌&&◌, ◌||◌, String, Option, none, some, List, [], ◌∷◌, ◌++◌, eqb,
  if◌then◌else◌,
}
use Prim.Native.Char.{code}
use authsvc.Text.{trim_right}
use authsvc.Sdk.{is_slash}
use authsvc.Prelude.Int.{ℤ, pos}

pub record OauthApp : Type 0 where
  pub client_id : String
  pub client_secret : String

pub record Smtp : Type 0 where
  pub host : String
  pub port : ℤ
  pub user : String
  pub pass : String
  pub from : String

pub record Config : Type 0 where
  pub port : String
  pub issuer : String
  pub database_url : String
  pub signing_key : String
  pub signing_key_next : String
  pub access_ttl : ℤ
  pub google : OauthApp
  pub github : OauthApp
  pub smtp : Smtp
  pub resend_api_key : String
  pub mail_from : String
  pub admin_api_key : String
  pub contact_email : String
  pub dev : Bool

pub data LoadError : Type 0 where
  bad_access_ttl bad_smtp_port insecure_issuer : LoadError
  missing_env : List String → LoadError

pub data Loaded : Type 0 where
  loaded : Config → Loaded
  refused : LoadError → Loaded

-- OAuthApp.Configured and SMTP.Configured
abbrev pub app_configured : OauthApp → Bool
app_configured a = not (a.client_id == "") && not (a.client_secret == "")

abbrev pub smtp_configured : Smtp → Bool
smtp_configured s = not (s.host == "") && not (s.from == "")

abbrev pub mail_configured : Config → Bool
mail_configured c =
    (not (c.resend_api_key == "") && not (c.mail_from == "")) || smtp_configured c.smtp

-- strings.HasPrefix
unfoldable pub has_prefix : String → String → Bool
has_prefix String.[] s = true
has_prefix (String.◌∷◌ c p) String.[] = false
has_prefix (String.◌∷◌ c p) (String.◌∷◌ d s) =
    let rest = has_prefix p s in if eqb (code c) (code d) then rest else false

abbrev needed : String → String → List String
needed value name = if value == "" then name ∷ [] else []

abbrev pub missing_of : Config → List String
missing_of c =
    needed c.database_url "DATABASE_URL"
    ++ (needed c.signing_key "ED25519_PRIVATE_KEY" ++ needed c.admin_api_key "ADMIN_API_KEY")

abbrev pub or_insecure : Config → Loaded
or_insecure c =
    if not c.dev && not (has_prefix "https://" c.issuer) then refused insecure_issuer else loaded c

abbrev pub with_mail_from : Config → Config
with_mail_from c = record c { mail_from = if c.mail_from == "" then c.smtp.from else c.mail_from }

abbrev pub or_missing : Config → List String → Loaded
or_missing c [] = or_insecure (with_mail_from c)
or_missing c (name ∷ names) = refused (missing_env (name ∷ names))

module _ (parse_duration atoi : String → Option ℤ) (getenv : String → String) where
  abbrev pub env : String → String → String
  env k def = if getenv k == "" then def else getenv k

  -- Load's first literal, with the two settings that it parses
  abbrev pub config_of : ℤ → ℤ → Config
  config_of ttl port = record {
    port = env "PORT" "8080";
    issuer = trim_right is_slash (env "ISSUER" "http://localhost:8080");
    database_url = getenv "DATABASE_URL";
    signing_key = getenv "ED25519_PRIVATE_KEY";
    signing_key_next = getenv "ED25519_PRIVATE_KEY_NEXT";
    access_ttl = ttl;
    google = record {
      client_id = getenv "GOOGLE_CLIENT_ID";
      client_secret = getenv "GOOGLE_CLIENT_SECRET";
    };
    github = record {
      client_id = getenv "GITHUB_CLIENT_ID";
      client_secret = getenv "GITHUB_CLIENT_SECRET";
    };
    smtp = record {
      host = getenv "SMTP_HOST";
      port = port;
      user = getenv "SMTP_USER";
      pass = getenv "SMTP_PASS";
      from = getenv "SMTP_FROM";
    };
    resend_api_key = getenv "RESEND_API_KEY";
    mail_from = getenv "MAIL_FROM";
    admin_api_key = getenv "ADMIN_API_KEY";
    contact_email = getenv "CONTACT_EMAIL";
    dev = not (env "DEV" "" == "");
  }

  abbrev pub checked_config : Config → Loaded
  checked_config c = or_missing c (missing_of c)

  abbrev with_port : ℤ → Option ℤ → Loaded
  with_port ttl none = refused bad_smtp_port
  with_port ttl (some port) = checked_config (config_of ttl port)

  abbrev pub smtp_port : Option ℤ
  smtp_port = if getenv "SMTP_PORT" == "" then some (pos 587) else atoi (getenv "SMTP_PORT")

  abbrev with_ttl : Option ℤ → Loaded
  with_ttl none = refused bad_access_ttl
  with_ttl (some ttl) = with_port ttl smtp_port

  unfoldable pub load : Loaded
  unfolding has_prefix trim_right
  load = with_ttl (parse_duration (env "ACCESS_TTL" "1h"))
