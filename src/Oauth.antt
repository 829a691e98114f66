-- ===== src/Oauth.antt =====
-- internal/store/oauth.go: the state of OAuth round trips, and authorization codes.
pub mod Once
mod Examples
use authsvc.Prelude.{
  ℕ, ◌+◌, ◌-◌, ◌*◌, ◌≡◌, refl, ◌==◌, Bool, true, ◌&&◌, String, Option, none, some, List, is_some,
}
use authsvc.Schema.{Database, User, Client, OauthFlow, AuthCode}
use authsvc.Exec.{Env, Exec, ◌>>=◌, ◌>>◌, now}
use authsvc.Table.{select_row}
use authsvc.Ticket.{Ticket, TicketLaws, create_ticket, consume_ticket, delete_expired}

-- 10 * time.Minute
abbrev pub oauth_flow_ttl : ℕ
oauth_flow_ttl = 600 * 1000000000

-- 60 * time.Second
abbrev pub auth_code_ttl : ℕ
auth_code_ttl = 60 * 1000000000

abbrev pub flows : Ticket OauthFlow
flows = record {
  rows = λ d. d.oauth_flows;
  set_rows = λ rows d. record d { oauth_flows = rows };
  key = λ f. f.state_hash;
  expires_at = λ f. f.expires_at;
  consumed_at = λ f. f.consumed_at;
  stamp = λ n f. record f { consumed_at = some n };
}

abbrev pub codes : Ticket AuthCode
codes = record {
  rows = λ d. d.auth_codes;
  set_rows = λ rows d. record d { auth_codes = rows };
  key = λ c. c.code_hash;
  expires_at = λ c. c.expires_at;
  consumed_at = λ c. c.consumed_at;
  stamp = λ n c. record c { consumed_at = some n };
}

pub flows-TicketLaws : TicketLaws flows
flows-TicketLaws = record {
  rows-set_rows = λ rows d. refl;
  key-stamp = λ n f. refl;
  consumed_at-stamp = λ n f. refl;
}

pub codes-TicketLaws : TicketLaws codes
codes-TicketLaws = record {
  rows-set_rows = λ rows d. refl;
  key-stamp = λ n c. refl;
  consumed_at-stamp = λ n c. refl;
}

abbrev has_client : Database → String → Bool
has_client d id = is_some (select_row (λ (c : Client). c.id == id) d.app_clients)

abbrev has_user : Database → String → Bool
has_user d id = is_some (select_row (λ (u : User). u.id == id) d.users)

-- a NULL refers to nothing
abbrev may_have_user : Database → Option String → Bool
may_have_user d none = true
may_have_user d (some id) = has_user d id

abbrev pub flow_refers : Database → OauthFlow → Bool
flow_refers d f = has_client d f.client_id && may_have_user d f.link_user_id

abbrev pub code_refers : Database → AuthCode → Bool
code_refers d c = has_client d c.client_id && has_user d c.user_id

-- the arguments of CreateOAuthFlow and CreateAuthCode
pub record FlowData : Type 0 where
  pub provider : String
  pub client_id : String
  pub redirect_uri : String
  pub app_state : String
  pub code_verifier : String
  pub link_user_id : Option String

pub record CodeData : Type 0 where
  pub user_id : String
  pub client_id : String
  pub redirect_uri : String

abbrev pub new_flow : String → FlowData → ℕ → OauthFlow
new_flow h f t = record {
  state_hash = h;
  provider = f.provider;
  client_id = f.client_id;
  redirect_uri = f.redirect_uri;
  app_state = f.app_state;
  code_verifier = f.code_verifier;
  link_user_id = f.link_user_id;
  created_at = t;
  expires_at = t + oauth_flow_ttl;
  consumed_at = none;
}

abbrev pub new_auth_code : String → CodeData → ℕ → AuthCode
new_auth_code h c t = record {
  code_hash = h;
  user_id = c.user_id;
  client_id = c.client_id;
  redirect_uri = c.redirect_uri;
  expires_at = t + auth_code_ttl;
  consumed_at = none;
}

module _ (env : Env) where
  unfoldable pub create_oauth_flow : String → FlowData → Exec (Unit {0})
  create_oauth_flow state f = create_ticket flows env flow_refers (new_flow (env.sha256 state) f)

  unfoldable pub consume_oauth_flow : String → Exec OauthFlow
  consume_oauth_flow state = consume_ticket flows env state

  unfoldable pub create_auth_code : String → CodeData → Exec (Unit {0})
  create_auth_code code c = create_ticket codes env code_refers (new_auth_code (env.sha256 code) c)

  unfoldable pub consume_auth_code : String → Exec AuthCode
  consume_auth_code code = consume_ticket codes env code

  -- rows are kept for an hour after their expiry
  unfoldable pub prune_oauth : Exec (Unit {0})
  prune_oauth = do
    t ← now env
    let cutoff = t - 3600 * 1000000000
    delete_expired flows env cutoff
    delete_expired codes env cutoff
