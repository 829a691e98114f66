-- ===== src/Web/Exchange.antt =====
-- Whom POST /v1/token/exchange grants tokens.
use Prim.Native.String.{◌++◌}
use authsvc.Prelude.{
  ◌∙◌, ap, refl, if◌then◌else◌, ℕ, ◌≡◌, ◌==◌, eq_iff, Bool, true, String, Option, none, some,
  is_some, is_some-eq_false, Bool-cases, inl, inr,
}
use authsvc.Schema.{Database, User, Client, AuthCode}
use authsvc.Exec.{Env, World, Result, ok}
use authsvc.Table.{select_row}
use authsvc.Users.{client_by_id, has_id}
use authsvc.Sessions.{SessionMeta}
use authsvc.Ticket.{unconsumed}
use authsvc.Ticket.Cases.{Taking, refused, taken, consume_ticket-Taking}
use authsvc.Oauth.{codes, consume_auth_code}
use authsvc.Web.{
  hour, answer, write_err, Site, Reply, TokenResponse, tokens, limit, checked, ask, issue_session,
}
use authsvc.Web.Minted.{Answers, Minted, issue_session-Minted}
use authsvc.Web.Cases.{checked_ok}
use authsvc.Web.Reads.{allow-db, client_by_id_ok, client_by_id-db, ask_ok, ask-db, user_by_id_ok}
use authsvc.Web.Roundtrip.{handle_token_exchange, redeem_code, exchange_for}

abbrev pub Grants : TokenResponse → Reply × World → Type 0
Grants t out = out.0.body ≡ tokens t

-- What the tables before must hold for a code, a client and its secret to be exchanged, and what the
-- tokens are for.
pub record Exchangeable (site : Site) (code client_id secret : String) (before after : Database)
    (t : TokenResponse) : Type 0 where
  pub client : Client
  pub registered : select_row (λ (x : Client). x.id == client_id) before.app_clients ≡ some client
  pub authenticated : site.verify_password client.secret_hash secret ≡ some true
  pub grant : AuthCode
  pub unredeemed :
      select_row (unconsumed codes (site.env.sha256 code)) before.auth_codes ≡ some grant
  pub same_client : grant.client_id ≡ client.id
  pub user : User
  pub account : select_row (has_id grant.user_id) before.users ≡ some user
  pub enabled : user.disabled_at ≡ none
  pub minted : Minted site user client t after

consume_auth_code_ok :
    (env : Env) (code : String) (w : World) (ac : AuthCode)
    → (consume_auth_code env code w).0 ≡ ok ac
    → (select_row (unconsumed codes (env.sha256 code)) w.db.auth_codes ≡ some ac)
      × ((consume_auth_code env code w).1.db.users ≡ w.db.users)
unfolding consume_auth_code
consume_auth_code_ok env code w ac good = of_taking (consume_ticket-Taking codes env code w) good
  where
    of_taking :
        {r : Result AuthCode} {w' : World}
        → Taking codes env code w r w'
        → r ≡ ok ac
        → (select_row (unconsumed codes (env.sha256 code)) w.db.auth_codes ≡ some ac)
          × (w'.db.users ≡ w.db.users)
    of_taking (refused e eq same) good = absurd (cc)
    of_taking (taken a k n found le early eq change) good =
        (cc, ap (λ (d : Database). d.users) change)

module _ (site : Site) (t : TokenResponse) (d : Database) where
  exchanged :
      (client : Client) (u : User) (m : SessionMeta) (w : World)
      → Answers t d (exchange_for site client u m w)
      → (u.disabled_at ≡ none) × Minted site u client t d
  unfolding exchange_for issue_session
  exchanged client u m w h = elim (Bool-cases (is_some u.disabled_at)) [
    | inl off ↦ absurd (cc (rw off at h.0))
    | inr on ↦ (
      is_some-eq_false u.disabled_at on,
      (issue_session-Minted site t d 200 m u client w (rw on at h)).0,
    )
  ]

  redeemed :
      (client : Client) (code : String) (m : SessionMeta) (w : World)
      → Answers t d (redeem_code site client code m w)
      → (ac : AuthCode) × ((u : User) × ((select_row
                (unconsumed codes (site.env.sha256 code))
                w.db.auth_codes
              ≡ some ac)
            × ((ac.client_id ≡ client.id)
                × ((select_row (has_id ac.user_id) w.db.users ≡ some u)
                    × ((u.disabled_at ≡ none) × Minted site u client t d)))))
  unfolding redeem_code
  redeemed client code m w h =
      let (ac, (good, h1)) = checked_ok _ _ _ w (Answers t d) (λ e (x, _). cc) h in
      let (stored, users) = consume_auth_code_ok site.env code w ac good in
      elim (Bool-cases (ac.client_id == client.id)) [
        | inl same ↦
            let (u, (found, h2)) =
              checked_ok _ _ _ _ (Answers t d) (λ e (x, _). cc) (rw same at h1) in
            let row = user_by_id_ok site.env ac.user_id _ u found in
            (
              ac,
              (
                u,
                (
                  stored,
                  (
                    (eq_iff ac.client_id client.id).0 same,
                    (rw users at row, exchanged client u m _ h2),
                  ),
                ),
              ),
            )
        | inr other ↦ absurd (cc (rw other at h1.0))
      ]

  abbrev verified : String → ℕ → Client → Option Bool
  verified secret k c = site.verify_password c.secret_hash secret

  -- once the limiter let the call through
  admitted :
      (code client_id secret : String) (m : SessionMeta) (w : World)
      → Answers t d (
          checked
            (client_by_id site.env client_id)
            (λ e. answer (write_err 401 "invalid_client"))
            (λ client.
              checked
                (ask (λ k. verified secret k client))
                (λ e. answer (write_err 401 "invalid_client"))
                (λ match.
                  if match
                  then redeem_code site client code m
                  else answer (write_err 401 "invalid_client")))
            w)
      → Exchangeable site code client_id secret w.db d t
  admitted code client_id secret m w h =
      let (c, (found, h1)) = checked_ok _ _ _ w (Answers t d) (λ e (x, _). cc) h in
      let w1 : World = (client_by_id site.env client_id w).1 in
      let (match, (told, h2)) = checked_ok _ _ _ w1 (Answers t d) (λ e (x, _). cc) h1 in
      let w2 : World = (ask (λ k. verified secret k c) w1).1 in
      let same : w2.db ≡ w.db =
        ask-db (λ k. verified secret k c) w1 ∙ client_by_id-db site.env client_id w in
      elim (Bool-cases match) [
        | inr wrong ↦ absurd (cc (rw wrong at h2.0))
        | inl right ↦
            let (ac, (u, (here, (owner, (row, (on, minted)))))) =
              redeemed c code m w2 (rw right at h2) in
            record {
              client = c;
              registered = client_by_id_ok site.env client_id w c found;
              authenticated = cc (ask_ok (λ k. verified secret k c) w1 match told, right);
              grant = ac;
              unredeemed = rw same at here;
              same_client = owner;
              user = u;
              account = rw same at row;
              enabled = on;
              minted = minted;
            }
      ]

  of_exchange :
      (code client_id secret : String) (m : SessionMeta) (w : World)
      → Answers t d (handle_token_exchange site code client_id secret m w)
      → Exchangeable site code client_id secret w.db d t
  unfolding handle_token_exchange limit
  of_exchange code client_id secret m w h =
      let (fine, (_, h1)) = checked_ok _ _ _ w (Answers t d) (λ e (x, _). cc) h in
      let (rows, kept) = allow-db site.env ("exchange:ip:" ++ m.ip) 120 hour w in
      elim (Bool-cases fine) [
        | inr full ↦ absurd (cc (rw full at h1.0))
        | inl room ↦
            let x = rw kept at (admitted code client_id secret m _ (rw room at h1)) in
            record {
              client = x.client;
              registered = x.registered;
              authenticated = x.authenticated;
              grant = x.grant;
              unredeemed = x.unredeemed;
              same_client = x.same_client;
              user = x.user;
              account = x.account;
              enabled = x.enabled;
              minted = x.minted;
            }
      ]

-- Where the exchange of a code answers with tokens, the client is registered and its secret was
-- verified, the code was stored, not consumed and issued to this client, and the account it was issued
-- for is there and not disabled. The access token is signed over claims that name this account, the
-- audience of the client and a session; that session is in the table afterwards, it is of this account
-- and client, and the refresh token is the one it is stored under.
pub handle_token_exchange-Exchangeable :
    (site : Site) (t : TokenResponse) (code client_id secret : String) (m : SessionMeta) (w : World)
    → (handle_token_exchange site code client_id secret m w).0.body ≡ tokens t
    → Exchangeable site code client_id secret w.db
        (handle_token_exchange site code client_id secret m w).1.db
        t
handle_token_exchange-Exchangeable site t code client_id secret m w h =
    of_exchange site t _ code client_id secret m w (h, refl)
