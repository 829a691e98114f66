-- ===== src/Web/CodeLogin.antt =====
-- Whom a one-time code grants tokens.
use Prim.Native.String.{◌++◌}
use authsvc.Prelude.{
  ◌≡◌, refl, ◌<◌, ◌==◌, sym, ◌∙◌, ap, true, String, none, List, some, is_some, is_some-eq_false,
  Bool-cases, inl, inr,
}
use authsvc.Prelude.Lists.{Holds}
use authsvc.Schema.{Database, User, Client, OtpCode, login_otp}
use authsvc.Exec.{Env, World, Result, Error, ok, not_found, code_invalid, code_attempts}
use authsvc.Table.{select_row}
use authsvc.RateLimit.{allow}
use authsvc.Users.{client_by_id}
use authsvc.Sessions.{SessionMeta}
use authsvc.Otp.{newest, consume_code, max_otp_attempts}
use authsvc.Otp.Guess.{
  Guess, faulty, missing, late, exhausted, counted, burnt, right, consume_code-Guess,
}
use authsvc.Web.{
  Site, TokenResponse, tokens, limit, lookup_client, no_client, hour, checked, or_internal, answer,
}
use authsvc.Web.Cases.{checked_ok}
use authsvc.Web.Reads.{allow-db, client_by_id_ok, client_by_id-db}
use authsvc.Web.Inbox.{Owner, owner_of_inbox-Owner, with_verified-row}
use authsvc.Web.Minted.{Answers, Minted, issue_session-Minted}
use authsvc.Web.Login.{
  otp_identifier, handle_otp_verify, owner_of_inbox, with_verified, start_session, code_refused,
}

-- what must hold of a code, and of the account that it opens
pub record CodeLogin (site : Site) (client_id address code : String) (before after : Database)
    (t : TokenResponse) : Type 0 where
  pub client : Client
  pub registered : select_row (λ (x : Client). x.id == client_id) before.app_clients ≡ some client
  pub row : OtpCode
  pub found :
      newest (otp_identifier client.id (site.normalize_email address)) login_otp before.otp_codes
      ≡ some row
  pub guessed : (row.code_hash == site.env.sha256 code) ≡ true
  pub allowed : row.attempts < max_otp_attempts
  pub owner : User
  pub inbox : Owner site.env (site.normalize_email address) before.users owner
  pub user : User
  pub account : user.id ≡ owner.id
  pub listed : Holds user after.users
  pub enabled : user.disabled_at ≡ none
  pub minted : Minted site user client t after

-- a guess that is right is at the newest code, which has attempts left
record Right (env : Env) (identifier code : String) (w w' : World) : Type 0 where
  row : OtpCode
  found : newest identifier login_otp w.db.otp_codes ≡ some row
  guessed : (row.code_hash == env.sha256 code) ≡ true
  allowed : row.attempts < max_otp_attempts
  kept : w'.db.users ≡ w.db.users

Guess-Right :
    (env : Env) (identifier code : String) (w w' : World) (r : Result (Unit {0}))
    → Guess env identifier login_otp code w r w'
    → r ≡ ok tt
    → Right env identifier code w w'
Guess-Right env identifier code w w' r (faulty k e le bad eq same) good = absurd (cc)
Guess-Right env identifier code w w' r (missing none_there eq same) good = absurd (cc)
Guess-Right env identifier code w w' r (late row k found le old eq same) good = absurd (cc)
Guess-Right env identifier code w w' r (exhausted row found worn eq same) good = absurd (cc)
Guess-Right env identifier code w w' r (counted row t j wrong less eq same) good = absurd (cc)
Guess-Right env identifier code w w' r (burnt row t k j wrong last eq same) good = absurd (cc)
Guess-Right env identifier code w w' r (right row t k j hit eq same) good = record {
  row = row;
  found = j.found;
  guessed = hit;
  allowed = j.allowed;
  kept = ap (λ (d : Database). d.users) same;
}

no_client-refused : (t : TokenResponse) (e : Error) → (no_client e).body ≡ tokens t → ⊥
no_client-refused t not_found h = cc
no_client-refused t e h = cc

not_granted : (t : TokenResponse) (e : Error) → (code_refused e).body ≡ tokens t → ⊥
not_granted t code_attempts h = cc
not_granted t code_invalid h = cc
not_granted t e h = cc

module _ (site : Site) (t : TokenResponse) (d : Database) where
  started :
      (m : SessionMeta) (u : User) (c : Client) (w : World)
      → Answers t d (start_session site m u c w)
      → (u.disabled_at ≡ none) × (Minted site u c t d × (d.users ≡ w.db.users))
  started m u c w h = elim (Bool-cases (is_some u.disabled_at)) [
    | inl off ↦ absurd (cc (rw off at h.0))
    | inr on ↦
        (is_some-eq_false u.disabled_at on, issue_session-Minted site t d 200 m u c w (rw on at h))
  ]

  -- the account that is signed in to, where `before` are the accounts
  record SignedIn (email : String) (c : Client) (before : List User) : Type 0 where
    owner : User
    inbox : Owner site.env email before owner
    user : User
    account : user.id ≡ owner.id
    listed : Holds user d.users
    enabled : user.disabled_at ≡ none
    minted : Minted site user c t d

  signed_in :
      (email : String) (m : SessionMeta) (c : Client) (w : World)
      → Answers t d (
          or_internal
            (owner_of_inbox site email)
            (λ u. with_verified site u (λ v. start_session site m v c))
            w)
      → SignedIn email c w.db.users
  signed_in email m c w h =
      let (u, (found, h1)) =
        checked_ok (owner_of_inbox site email) _ _ w (Answers t d) (λ e (x, _). cc) h in
      let (inbox, here) = owner_of_inbox-Owner site email w u found in
      let (v, (same, (w', (row, h2)))) =
        with_verified-row site t d u (λ v. start_session site m v c) _ here h1 in
      let (on, (minted, kept)) = started m v c w' h2 in
      record {
        owner = u;
        inbox = inbox;
        user = v;
        account = same;
        listed = rw kept row;
        enabled = on;
        minted = minted;
      }

  redeemed :
      (address code : String) (m : SessionMeta) (c : Client) (w : World)
      → Answers t d (
          checked
            (consume_code site.env
              (otp_identifier c.id (site.normalize_email address))
              login_otp
              code)
            (λ e. answer (code_refused e))
            (λ _.
              or_internal
                (owner_of_inbox site (site.normalize_email address))
                (λ u. with_verified site u (λ v. start_session site m v c)))
            w)
      → (w' : World) × (Right site.env
            (otp_identifier c.id (site.normalize_email address))
            code
            w
            w'
          × SignedIn (site.normalize_email address) c w.db.users)
  redeemed address code m c w h =
      let email = site.normalize_email address in
      let identifier = otp_identifier c.id email in
      let (_, (good, h1)) =
        checked_ok (consume_code site.env identifier login_otp code) _ _ w (Answers t d)
          (λ e (x, _). not_granted t e x) h in
      let w1 : World = (consume_code site.env identifier login_otp code w).1 in
      let right =
        Guess-Right site.env identifier code w w1 _
          (consume_code-Guess site.env identifier login_otp code w) good in
      (w1, (right, rw right.kept at (signed_in email m c w1 h1)))

  of_verify :
      (client_id address code : String) (m : SessionMeta) (w : World)
      → Answers t d (handle_otp_verify site client_id address code m w)
      → CodeLogin site client_id address code w.db d t
  unfolding handle_otp_verify limit lookup_client
  of_verify client_id address code m w h =
      let bucket = "otpv:ip:" ++ m.ip in
      let (fine, (_, h1)) =
        checked_ok (allow site.env bucket 30 hour) _ _ w (Answers t d) (λ e (x, _). cc) h in
      let w1 : World = (allow site.env bucket 30 hour w).1 in
      let (rows, kept) = allow-db site.env bucket 30 hour w in
      elim (Bool-cases fine) [
        | inr full ↦ absurd (cc (rw full at h1.0))
        | inl room ↦ elim (Bool-cases (client_id == "")) [
          | inl blank ↦ absurd (cc (rw (room, blank) at h1.0))
          | inr named ↦
              let (c, (here, h2)) =
                checked_ok (client_by_id site.env client_id) _ _ w1 (Answers t d)
                  (λ e (x, _). no_client-refused t e x) (rw (room, named) at h1) in
              let (w', (hit, x)) = redeemed address code m c _ h2 in
              let there : (client_by_id site.env client_id w1).1.db
                  ≡ record w.db { rate_limits = rows } =
                client_by_id-db site.env client_id w1 ∙ kept in
              record {
                client = c;
                registered = rw kept at (client_by_id_ok site.env client_id w1 c here);
                row = hit.row;
                found =
                    sym (
                      ap
                        (λ (d : Database).
                          newest (otp_identifier c.id (site.normalize_email address)) login_otp
                            d.otp_codes)
                        there)
                    ∙ hit.found;
                guessed = hit.guessed;
                allowed = hit.allowed;
                owner = x.owner;
                inbox = rw there at x.inbox;
                user = x.user;
                account = x.account;
                listed = x.listed;
                enabled = x.enabled;
                minted = x.minted;
              }
        ]
      ]

-- Where a login by code answers with tokens, the client is registered, and the code is the newest one that
-- was issued to the address for this client, with attempts left. An account had the address, or a new
-- one has it, which no account had; a row with the id of that account is among the accounts afterwards and is not
-- disabled. The access token is signed over claims that name this account and a session; that session is in
-- the table afterwards, it is of this account and client, and the refresh token is the one it is stored
-- under.
pub handle_otp_verify-CodeLogin :
    (site : Site) (t : TokenResponse) (client_id address code : String) (m : SessionMeta)
    (w : World)
    → (handle_otp_verify site client_id address code m w).0.body ≡ tokens t
    → CodeLogin site client_id address code w.db
        (handle_otp_verify site client_id address code m w).1.db
        t
handle_otp_verify-CodeLogin site t client_id address code m w h =
    of_verify site t _ client_id address code m w (h, refl)
