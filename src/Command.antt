-- ===== src/Command.antt =====
-- cmd/authsvc/main.go: what the process starts with, and the pruning of tables.
pub mod Startup
pub mod Pruning
mod Examples
use Prim.Native.String.{◌++◌}
use authsvc.Prelude.{
  ℕ, ◌*◌, ◌==◌, not, Bool, ◌&&◌, String, Option, none, some, List, [], ◌∷◌, if◌then◌else◌,
}
use authsvc.Exec.{Env, Exec, World, ◌>>=◌, ◌>>◌, pure, attempt}
use authsvc.Sessions.{prune_sessions}
use authsvc.Otp.{prune_codes}
use authsvc.RateLimit.{prune_rate_limits}
use authsvc.Oauth.{prune_oauth}
use authsvc.Web.{hour}
use authsvc.Prelude.Int.{ℤ}
use authsvc.Config.{
  Config, OauthApp, Smtp, LoadError, Loaded, loaded, refused, app_configured, smtp_configured, load,
}
use authsvc.Tokens.{Config as TokenConfig, Jwx, Signer, new_signer}
use authsvc.Prelude.{and_then}

pub data Sender : Type 0 where
  resend_sender : (api_key from : String) → Sender
  smtp_sender : Smtp → Sender
  log_sender : Sender

unfoldable pub build_sender : Config → Option Sender
build_sender cfg =
    if not (cfg.resend_api_key == "") && not (cfg.mail_from == "")
    then some (resend_sender cfg.resend_api_key cfg.mail_from)
    else if smtp_configured cfg.smtp
    then some (smtp_sender cfg.smtp)
    else if cfg.dev
    then some log_sender
    else none

pub record Provider : Type 0 where
  pub name : String
  pub app : OauthApp
  pub redirect_url : String

abbrev provider_if : String → OauthApp → String → List Provider → List Provider
provider_if name app issuer rest =
    if app_configured app
    then record {
      name = name;
      app = app;
      redirect_url = issuer ++ "/v1/oauth/" ++ name ++ "/callback";
    }
      ∷ rest
    else rest

unfoldable pub providers : Config → List Provider
providers cfg =
    provider_if "google" cfg.google cfg.issuer (provider_if "github" cfg.github cfg.issuer [])

-- httpapi.Options, and what else the server is made of
pub record Server : Type 0 where
  pub signer : Signer
  pub sender : Sender
  pub issuer : String
  pub admin_api_key : String
  pub secure : Bool
  pub contact_email : String
  pub providers : List Provider

abbrev pub server_of : Config → Signer → Sender → Server
server_of cfg signer sender = record {
  signer = signer;
  sender = sender;
  issuer = cfg.issuer;
  admin_api_key = cfg.admin_api_key;
  secure = not cfg.dev;
  contact_email = cfg.contact_email;
  providers = providers cfg;
}

-- token.Config, of the settings
abbrev pub signer_config : Config → TokenConfig
signer_config cfg = record {
  issuer = cfg.issuer;
  access_ttl = cfg.access_ttl;
  private_key = cfg.signing_key;
  next_key = cfg.signing_key_next;
}

abbrev pub with_signer : Config → Signer → Option Server
with_signer cfg signer = and_then (build_sender cfg) (λ sender. some (server_of cfg signer sender))

module _ {Raw : Type 0} (jwx : Jwx Raw) where
  -- run up to the server, of settings that are loaded; the pool of connections is open
  abbrev served : Loaded → Option Server
  served (refused e) = none
  served (loaded cfg) = and_then (new_signer jwx (signer_config cfg)) (with_signer cfg)

  unfoldable pub run : (parse_duration atoi : String → Option ℤ) → (String → String) → Option Server
  unfolding build_sender providers load
  run parse_duration atoi getenv = served (load parse_duration atoi getenv)

abbrev pub session_grace : ℕ
session_grace = 30 * (24 * hour)

-- pruneOnce, which logs the errors
unfoldable pub prune_once : Env → Exec (Unit {0})
prune_once env = do
  s ← attempt (prune_sessions env session_grace)
  c ← attempt (prune_codes env (24 * hour))
  r ← attempt (prune_rate_limits env (24 * hour))
  o ← attempt (prune_oauth env)
  pure tt
