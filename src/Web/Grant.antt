-- ===== src/Web/Grant.antt =====
-- Whom a password and a refresh token grant tokens.
use Prim.Native.String.{◌++◌}
use authsvc.Prelude.{
  ◌≡◌, refl, ap, sym, ◌∙◌, ◌==◌, eq_iff, String, none, some, is_some, is_some-eq_false, Bool-cases,
  inl, inr,
}
use authsvc.Prelude.Lists.{Holds, Holds-last}
use authsvc.Schema.{Database, User, Client, Session}
use authsvc.Exec.{not_found, token_reuse, World, Error}
use authsvc.Table.{select_row}
use authsvc.Table.Laws.{select_row-matches}
use authsvc.RateLimit.{allow}
use authsvc.Users.{has_id, user_by_id, client_by_id}
use authsvc.Sessions.{SessionMeta, IssuedSession, has_token, rotate, revoke_all_for_user}
use authsvc.Sessions.Effects.{rotate-Succeeds}
use authsvc.Web.{Site, TokenResponse, tokens, limit, hour, checked, or_internal, answer}
use authsvc.Web.Cases.{checked_ok}
use authsvc.Web.Minted.{Answers, Minted, Backs, respond_with_tokens-Minted}
use authsvc.Web.Reads.{allow-db, user_by_id_ok, user_by_id-db, client_by_id_ok, client_by_id-db}
use authsvc.Web.Account.{handle_refresh, refresh_for, rotation_refused}

-- The row behind a refresh token that is exchanged, the account it is of, and what is handed out.
pub record Refreshes (site : Site) (tok : String) (before after : Database) (t : TokenResponse)
    : Type 0 where
  pub row : Session
  pub found : select_row (has_token (site.env.sha256 tok)) before.sessions ≡ some row
  pub unspent : row.used_at ≡ none
  pub unrevoked : row.revoked_at ≡ none
  pub user : User
  pub account : select_row (has_id row.user_id) after.users ≡ some user
  pub enabled : user.disabled_at ≡ none
  pub client : Client
  pub app : client.id ≡ row.client_id
  pub minted : Minted site user client t after

pub not_granted : (t : TokenResponse) (e : Error) → (rotation_refused e).body ≡ tokens t → ⊥
not_granted t token_reuse h = cc
not_granted t not_found h = cc
not_granted t e h = cc

module _ (site : Site) (t : TokenResponse) (d : Database) where
  -- what the tokens of a rotated session are for
  refreshed :
      (iss : IssuedSession) (u : User) (w : World)
      → Holds iss.session w.db.sessions
      → iss.session.token_hash ≡ site.env.sha256 iss.refresh_token
      → iss.session.user_id ≡ u.id
      → Answers t d (refresh_for site iss u w)
      → (u.disabled_at ≡ none)
        × ((c : Client) × ((c.id ≡ iss.session.client_id)
              × (Minted site u c t d × (d.users ≡ w.db.users))))
  unfolding refresh_for
  refreshed iss u w stored hashed owner h = elim (Bool-cases (is_some u.disabled_at)) [
    | inl off ↦
        let (done, (_, (never, _))) =
          checked_ok (revoke_all_for_user site.env u.id) _ _ w (Answers t d) (λ e (x, _). cc)
            (rw off at h) in
        absurd (cc)
    | inr on ↦
        let id = iss.session.client_id in
        let (c, (there, h1)) =
          checked_ok (client_by_id site.env id) _ _ w (Answers t d) (λ e (x, _). cc) (rw on at h) in
        let app =
          (eq_iff c.id id).0 (select_row-matches _ _ c (client_by_id_ok site.env id w c there)) in
        let behind : Backs site.env u c iss (client_by_id site.env id w).1.db = record {
          stored = rw (client_by_id-db site.env id w) stored;
          owner = owner;
          app = sym app;
          hashed = hashed;
        } in
        let (minted, same) = respond_with_tokens-Minted site t d 200 u c iss _ behind h1 in
        (
          is_some-eq_false u.disabled_at on,
          (
            c,
            (app, (minted, ap (λ (x : Database). x.users) (same ∙ client_by_id-db site.env id w))),
          ),
        )
  ]

  rotated_row :
      (tok : String) (m : SessionMeta) (w : World)
      → Answers t d (
          checked
            (rotate site.env tok m)
            (λ e. answer (rotation_refused e))
            (λ iss. or_internal (user_by_id site.env iss.session.user_id) (refresh_for site iss))
            w)
      → Refreshes site tok w.db d t
  rotated_row tok m w h =
      let (iss, (good, h1)) =
        checked_ok (rotate site.env tok m) _ _ w (Answers t d) (λ e (x, _). not_granted t e x) h in
      let w1 : World = (rotate site.env tok m w).1 in
      let id = iss.session.user_id in
      let (u, (here, h2)) =
        checked_ok (user_by_id site.env id) _ _ w1 (Answers t d) (λ e (x, _). cc) h1 in
      let (row, s) = rotate-Succeeds site.env tok m w iss good in
      let listed = user_by_id_ok site.env id w1 u here in
      let hit = (eq_iff u.id id).0 (select_row-matches _ _ u listed) in
      let stored : Holds iss.session (user_by_id site.env id w1).1.db.sessions =
        rw (user_by_id-db site.env id w1, s.table) (Holds-last iss.session _) in
      let (on, (c, (app, (minted, kept)))) = refreshed iss u _ stored s.hashed (sym hit) h2 in
      record {
        row = row;
        found = s.found;
        unspent = s.unspent;
        unrevoked = s.unrevoked;
        user = u;
        account = rw (kept, user_by_id-db site.env id w1, ← s.user) listed;
        enabled = on;
        client = c;
        app = app ∙ s.client;
        minted = minted;
      }

  of_refresh :
      (tok : String) (m : SessionMeta) (w : World)
      → Answers t d (handle_refresh site tok m w)
      → Refreshes site tok w.db d t
  unfolding handle_refresh limit
  of_refresh tok m w h = elim (Bool-cases (tok == "")) [
    | inl blank ↦ absurd (cc (rw blank at h.0))
    | inr sent ↦
        let (fine, (_, h1)) =
          checked_ok (allow site.env ("refresh:ip:" ++ m.ip) 120 hour) _ _ w (Answers t d)
            (λ e (x, _). cc) (rw sent at h) in
        let (rows, kept) = allow-db site.env ("refresh:ip:" ++ m.ip) 120 hour w in
        elim (Bool-cases fine) [
          | inr full ↦ absurd (cc (rw full at h1.0))
          | inl room ↦
              let x = rw kept at (rotated_row tok m _ (rw room at h1)) in
              record {
                row = x.row;
                found = x.found;
                unspent = x.unspent;
                unrevoked = x.unrevoked;
                user = x.user;
                account = x.account;
                enabled = x.enabled;
                client = x.client;
                app = x.app;
                minted = x.minted;
              }
        ]
  ]

-- Where a refresh answers with tokens, the row under the refresh token was neither spent nor
-- revoked, and the account with the id that the row names is not disabled. The access token is signed over claims that name the
-- account of the row and a session; that session is in the table afterwards, it is of this account and
-- of the client of the row, and the new refresh token is the one it is stored under.
pub handle_refresh-Refreshes :
    (site : Site) (t : TokenResponse) (tok : String) (m : SessionMeta) (w : World)
    → (handle_refresh site tok m w).0.body ≡ tokens t
    → Refreshes site tok w.db (handle_refresh site tok m w).1.db t
handle_refresh-Refreshes site t tok m w h = of_refresh site t _ tok m w (h, refl)
