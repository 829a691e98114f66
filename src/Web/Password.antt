-- ===== src/Web/Password.antt =====
-- Whom a password login grants tokens.
use authsvc.Prelude.{
  ℕ, ◌≡◌, refl, Bool, true, ◌&&◌, String, none, some, arith, is_some, is_some-eq_false, Bool-cases,
  Option-cases, inl, inr,
}
use authsvc.Schema.{Database, User, Client}
use authsvc.Exec.{Env, World, ok, attempt, ◌>>=◌}
use authsvc.Table.{select_row}
use authsvc.Users.{has_email, user_by_email}
use authsvc.Sessions.{SessionMeta}
use authsvc.Web.{Site, Reply, TokenResponse, tokens, write_err, or_internal, ask}
use authsvc.Web.Through.{let_through, client_named}
use authsvc.Web.Minted.{Answers, Minted, no_answer, issue_session-Minted}
use authsvc.Web.Cases.{checked_ok}
use authsvc.Web.Exchange.{Grants}
use authsvc.Web.Reads.{ask_ok}
use authsvc.Web.Login.{handle_login, judge_login, hash_of, or_dummy, may_find}

-- the account that a password opens, and what is handed out for it
pub record Verified (site : Site) (client_id address password : String) (before after : Database)
    (t : TokenResponse) : Type 0 where
  pub user : User
  pub found :
      select_row (has_email site.env (site.normalize_email address)) before.users ≡ some user
  pub hash : String
  pub has_hash : user.password_hash ≡ some hash
  pub verified : site.verify_password hash password ≡ some true
  pub enabled : user.disabled_at ≡ none
  pub client : Client
  pub asked : client.id ≡ client_id
  pub minted : Minted site user client t after

found_user :
    (env : Env) (email : String) (w : World) (u : User)
    → ((attempt (user_by_email env email) >>= may_find) w).0 ≡ ok (some u)
    → select_row (has_email env email) w.db.users ≡ some u
unfolding user_by_email may_find ◌>>=◌
found_user env email w u good = elim (Bool-cases (env.fails w.tick)) [
  | inl e ↦ absurd (cc (rw e at good))
  | inr e ↦ elim (Option-cases (select_row (has_email env email) w.db.users)) [
    | inl missing ↦ absurd (cc (rw (e, missing) at good))
    | inr (v, here) ↦ cc (here, rw (e, here) at good)
  ]
]

pub no_grant :
    (t : TokenResponse) (status : ℕ) (code : String) (w : World)
    → Grants t (write_err status code, w)
    → ⊥
no_grant t status code w h = cc

module _ (site : Site) (t : TokenResponse) (d : Database) where
  judged :
      (m : SessionMeta) (c : Client) (match : Bool) (u : User) (w : World)
      → Answers t d (judge_login site m c match (some u) w)
      → (is_some u.password_hash ≡ true)
        × ((match ≡ true) × ((u.disabled_at ≡ none) × Minted site u c t d))
  judged m c match u w h = elim (Bool-cases (is_some u.password_hash && match)) [
    | inr wrong ↦ absurd (cc (rw wrong at h.0))
    | inl right ↦ elim (Bool-cases (is_some u.disabled_at)) [
      | inl off ↦ absurd (cc (rw (right, off) at h.0))
      | inr on ↦ (
        ground arith,
        (
          ground arith,
          (
            is_some-eq_false u.disabled_at on,
            (issue_session-Minted site t d 200 m u c w (rw (right, on) at h)).0,
          ),
        ),
      )
    ]
  ]

  looked_up :
      (dummy client_id address password : String) (m : SessionMeta) (c : Client) (w : World)
      → c.id ≡ client_id
      → Answers t d (
          or_internal
            (attempt (user_by_email site.env (site.normalize_email address)) >>= may_find)
            (λ u.
              or_internal
                (ask (λ k. site.verify_password (or_dummy dummy (hash_of u)) password))
                (λ match. judge_login site m c match u))
            w)
      → Verified site client_id address password w.db d t
  looked_up dummy client_id address password m c w asked h =
      let (o, (found, h1)) =
        checked_ok (attempt (user_by_email site.env (site.normalize_email address)) >>= may_find) _
          _ w (Answers t d) (λ e (x, _). cc) h in
      let w1 : World =
        ((attempt (user_by_email site.env (site.normalize_email address)) >>= may_find) w).1 in
      let (match, (told, h2)) =
        checked_ok (ask (λ k. site.verify_password (or_dummy dummy (hash_of o)) password)) _ _ w1
          (Answers t d) (λ e (x, _). cc) h1 in
      elim (Option-cases o) [
        | inl nobody ↦ absurd (cc (rw nobody at h2.0))
        | inr (u, someone) ↦
            let (hashed, (right, (on, minted))) = judged m c match u _ (rw someone at h2) in
            elim (Option-cases u.password_hash) [
              | inl bare ↦ absurd (cc (bare, hashed))
              | inr (hash, has) ↦
                  let answer =
                    ask_ok (λ k. site.verify_password (or_dummy dummy (hash_of o)) password) w1
                      match told in
                  record {
                    user = u;
                    found =
                        found_user site.env (site.normalize_email address) w u
                          (rw someone at found);
                    hash = hash;
                    has_hash = has;
                    verified = rw (someone, has, right) at answer;
                    enabled = on;
                    client = c;
                    asked = asked;
                    minted = minted;
                  }
            ]
      ]

  of_login :
      (dummy client_id address password : String) (m : SessionMeta) (w : World)
      → Answers t d (handle_login site dummy client_id address password m w)
      → Verified site client_id address password w.db d t
  unfolding handle_login
  of_login dummy client_id address password m w h =
      let Q : Reply × World → Type 0 = Answers t d in
      let (w1, (same1, h1)) = let_through site Q (no_answer t d) _ _ _ _ w h in
      let (w2, (same2, h2)) = let_through site Q (no_answer t d) _ _ _ _ w1 h1 in
      let (c, (asked, (w3, (same3, h3)))) = client_named site Q (no_answer t d) client_id _ w2 h2 in
      let x = looked_up dummy client_id address password m c w3 asked h3 in
      record {
        user = x.user;
        found = rw (same3, same2, same1) at x.found;
        hash = x.hash;
        has_hash = x.has_hash;
        verified = x.verified;
        enabled = x.enabled;
        client = x.client;
        asked = x.asked;
        minted = x.minted;
      }

-- Where a password login answers with tokens, the account of the address has a password hash that
-- the password was verified against, and it is not disabled. The access token is signed over claims
-- that name this account and a session; that session is in the table afterwards, it is of this account
-- and the client that was asked for, and the refresh token is the one it is stored under.
pub handle_login-Verified :
    (site : Site) (t : TokenResponse) (dummy client_id address password : String) (m : SessionMeta)
    (w : World)
    → (handle_login site dummy client_id address password m w).0.body ≡ tokens t
    → Verified site client_id address password w.db
        (handle_login site dummy client_id address password m w).1.db
        t
handle_login-Verified site t dummy client_id address password m w h =
    of_login site t _ dummy client_id address password m w (h, refl)
