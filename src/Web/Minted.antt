-- ===== src/Web/Minted.antt =====
-- What Server.respondWithTokens (internal/httpapi/api.go) hands out: an access token, and a session
-- behind it and behind the refresh token.
use authsvc.Prelude.{◌≡◌, refl, sym, ◌∙◌, ap, ℕ, String, none, some}
use authsvc.Prelude.Lists.{Holds, Holds-last}
use authsvc.Schema.{Database, User, Client, Session}
use authsvc.Exec.{Env, World, Result, ok, next, ok-injective, ◌>>=◌}
use authsvc.Sessions.{SessionMeta, IssuedSession, create_session}
use authsvc.Sessions.Cases.{Issue, refused, issued, insert_session-Issue}
use authsvc.Web.{
  Site, Claims, Reply, TokenResponse, tokens, write_err, ask, user_json, issue_session,
  respond_with_tokens, claims_of,
}
use authsvc.Web.Cases.{checked_ok}
use authsvc.Web.Reads.{ask_ok, ask-db}

-- the answer has the tokens, and these are the tables after it
abbrev pub Answers : TokenResponse → Database → Reply × World → Type 0
Answers t d out = (out.0.body ≡ tokens t) × (out.1.db ≡ d)

pub no_answer :
    (t : TokenResponse) (d : Database) (status : ℕ) (code : String) (w : World)
    → Answers t d (write_err status code, w)
    → ⊥
no_answer t d status code w (h, _) = cc

-- The tokens are for the account and the app: the access token is signed over claims that name the
-- account, the app's audience and a session that is in the table; that session is of the account and
-- the app, and it is stored under the hash of the refresh token.
pub record Minted (site : Site) (u : User) (c : Client) (t : TokenResponse) (d : Database)
    : Type 0 where
  pub at : ℕ
  pub claims : Claims
  pub signed : site.sign_access at claims ≡ some t.access_token
  pub subject : claims.subject ≡ u.id
  pub audience : claims.audience ≡ c.audience
  pub session : Session
  pub names : claims.session_id ≡ session.id
  pub stored : Holds session d.sessions
  pub owner : session.user_id ≡ u.id
  pub app : session.client_id ≡ c.id
  pub hashed : session.token_hash ≡ site.env.sha256 t.refresh_token
  pub view : t.user ≡ user_json u

-- a session that a refresh token leads to
pub record Backs (env : Env) (u : User) (c : Client) (iss : IssuedSession) (d : Database)
    : Type 0 where
  pub stored : Holds iss.session d.sessions
  pub owner : iss.session.user_id ≡ u.id
  pub app : iss.session.client_id ≡ c.id
  pub hashed : iss.session.token_hash ≡ env.sha256 iss.refresh_token

-- what a new session is, and that the other tables stay
Issue-Backs :
    (env : Env) (m : SessionMeta) (id : String) (u : User) (c : Client) (w w' : World)
    (r : Result IssuedSession) (iss : IssuedSession)
    → Issue env m id u.id c.id id none w r w'
    → r ≡ ok iss
    → Backs env u c iss w'.db × (w'.db.users ≡ w.db.users)
Issue-Backs env m id u c w w' r iss (refused e same) good = absurd (cc)
Issue-Backs env m id u c w w' r iss (issued s row e ins) good =
    let same : record { session = s; refresh_token = env.secret w.tick } ≡ iss =
      ok-injective (sym e ∙ good) in
    let users : w'.db.users ≡ w.db.users = ap (λ (d : Database). d.users) ins.added in
    (
      rw (← same) (record {
        stored = rw (ap (λ (d : Database). d.sessions) ins.added) (Holds-last s w.db.sessions);
        owner = ap (λ (x : Session). x.user_id) row;
        app = ap (λ (x : Session). x.client_id) row;
        hashed = ap (λ (x : Session). x.token_hash) row;
      }),
      users,
    )

pub create_session-Backs :
    (env : Env) (u : User) (c : Client) (m : SessionMeta) (w : World) (iss : IssuedSession)
    → (create_session env u.id c.id m w).0 ≡ ok iss
    → Backs env u c iss (create_session env u.id c.id m w).1.db
      × ((create_session env u.id c.id m w).1.db.users ≡ w.db.users)
unfolding create_session ◌>>=◌
create_session-Backs env u c m w iss good =
    Issue-Backs env m _ u c (next w) _ _ iss (insert_session-Issue env m _ _ _ _ none (next w)) good

module _ (site : Site) (t : TokenResponse) (d : Database) where
  pub respond_with_tokens-Minted :
      (status : ℕ) (u : User) (c : Client) (iss : IssuedSession) (w : World)
      → Backs site.env u c iss w.db
      → Answers t d (respond_with_tokens site status u c.audience iss w)
      → Minted site u c t d × (d ≡ w.db)
  unfolding respond_with_tokens
  respond_with_tokens-Minted status u c iss w behind h =
      let sign : ℕ → _ = λ k. site.sign_access k (claims_of u c.audience iss) in
      let (access, (told, (granted, same))) =
        checked_ok (ask sign) _ _ w (Answers t d) (λ e (x, _). cc) h in
      let here : d ≡ w.db = sym same ∙ ask-db sign w in
      (
        record {
          at = w.tick;
          claims = claims_of u c.audience iss;
          signed = cc (ask_ok sign w access told, granted);
          subject = refl;
          audience = refl;
          session = iss.session;
          names = refl;
          stored = rw here behind.stored;
          owner = behind.owner;
          app = behind.app;
          hashed = cc (behind.hashed, granted);
          view = cc (granted);
        },
        here,
      )

  -- the tokens of a new session, which leaves the accounts as they are
  pub issue_session-Minted :
      (status : ℕ) (m : SessionMeta) (u : User) (c : Client) (w : World)
      → Answers t d (issue_session site status m u c w)
      → Minted site u c t d × (d.users ≡ w.db.users)
  unfolding issue_session
  issue_session-Minted status m u c w h =
      let (iss, (good, h1)) =
        checked_ok (create_session site.env u.id c.id m) _ _ w (Answers t d) (λ e (x, _). cc) h in
      let (behind, users) = create_session-Backs site.env u c m w iss good in
      let (minted, same) = respond_with_tokens-Minted status u c iss _ behind h1 in
      (minted, ap (λ (x : Database). x.users) same ∙ users)
