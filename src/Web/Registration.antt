-- ===== src/Web/Registration.antt =====
-- What the answer to a registration says of the tables before and after.
use authsvc.Prelude.{
  ℕ, ◌≡◌, refl, sym, ◌∙◌, String, none, some, List, [], ◌∷◌, ◌++◌, Bool-cases, Option-cases, inl,
  inr, Option, suc, ◌⊎◌, false, arith,
}
use authsvc.Prelude.Lists.{All, All-mono}
use authsvc.Schema.{Database, User, Client, email_verified}
use authsvc.Exec.{Env, World, Error, ok, err, ok-injective, failed, ◌>>=◌}
use authsvc.Table.{select_row, insert}
use authsvc.Table.Laws.{insert-fresh}
use authsvc.Users.{has_email, user_by_email, create_user, insert_user, user_conflicts}
use authsvc.Sessions.{SessionMeta}
use authsvc.Web.{Site, Handler, Reply, done, write_err, ask, issue_session, respond_with_tokens}
use authsvc.Web.Cases.{checked_ok, checked_both}
use authsvc.Web.Through.{let_through, client_found}
use authsvc.Web.Reads.{ask-db, read_ok}
use authsvc.Web.Register.{
  handle_register, create_account, taken_or_internal, send_email_verification, valid_email,
}
use authsvc.Web.Login.{is_weak}

-- the row of a new account, added to the accounts `before`
pub record Fresh (env : Env) (email : String) (hash : Option String) (before : List User) (u : User)
    (after : List User) : Type 0 where
  pub address : u.email ≡ email
  pub hashed : u.password_hash ≡ hash
  pub unverified : u.email_verified_at ≡ none
  pub added : after ≡ before ++ u ∷ []
  pub unknown : All (λ old. has_email env email old ≡ false) before

module _ (env : Env) (email : String) (hash : Option String) (w : World) where
  abbrev row : User
  row = record {
    id = env.ulid w.tick;
    email = email;
    email_verified_at = none;
    password_hash = hash;
    created_at = env.time (suc w.tick);
    updated_at = env.time (suc w.tick);
    disabled_at = none;
  }

  create_user-cases :
      ((create_user env email hash w).1.db ≡ w.db)
        × ((e : Error) × ((create_user env email hash w).0 ≡ err e))
      ⊎ ((u : User) × (((create_user env email hash w).0 ≡ ok u)
            × Fresh env email hash w.db.users u (create_user env email hash w).1.db.users))
  unfolding create_user insert_user ◌>>=◌
  create_user-cases = elim (Bool-cases (env.fails (suc (suc w.tick)))) [
    | inl e ↦ inl (rw e refl, (failed, rw e refl))
    | inr e ↦ elim (Option-cases (insert (user_conflicts env row) row w.db.users)) [
      | inl clash ↦ inl (rw (e, clash) refl, (failed, rw (e, clash) refl))
      | inr (rows, stored) ↦
          let (whole, apart) = insert-fresh (user_conflicts env row) row w.db.users stored in
          inr (
            row,
            (
              rw (e, stored) refl,
              record {
                address = refl;
                hashed = refl;
                unverified = refl;
                added = rw (e, stored) whole;
                unknown = All-mono _ _ w.db.users (λ old h. ground arith) apart;
              },
            ),
          )
    ]
  ]

  create_user-refused :
      (e : Error)
      → (create_user env email hash w).0 ≡ err e
      → (create_user env email hash w).1.db ≡ w.db
  create_user-refused e h = elim create_user-cases [
    | inl (same, _) ↦ same
    | inr (u, (made, fresh)) ↦ absurd (cc (h, made))
  ]

  pub create_user_ok :
      (u : User)
      → (create_user env email hash w).0 ≡ ok u
      → Fresh env email hash w.db.users u (create_user env email hash w).1.db.users
  create_user_ok u h = elim create_user-cases [
    | inl (same, (e, refused)) ↦ absurd (cc (h, refused))
    | inr (v, (made, fresh)) ↦ rw (ok-injective (sym h ∙ made)) fresh
  ]

abbrev WasSent : Reply × World → Type 0
WasSent out = out.0.body ≡ done "verification_sent"

not_refused : (status : ℕ) (code : String) (w : World) → WasSent (write_err status code, w) → ⊥
not_refused status code w h = cc

-- the background job changes nothing of the answer
pub sent-body :
    (u : User) (proceed : Handler) (w : World)
    → (send_email_verification u proceed w).0.body ≡ (proceed w).0.body
unfolding send_email_verification
sent-body u proceed w = elim (Bool-cases (email_verified u)) [
  | inl e ↦ rw e refl
  | inr e ↦ rw e refl
]

pub sent-world :
    (u : User) (proceed : Handler) (w : World)
    → (send_email_verification u proceed w).1 ≡ (proceed w).1
unfolding send_email_verification
sent-world u proceed w = elim (Bool-cases (email_verified u)) [
  | inl e ↦ rw e refl
  | inr e ↦ rw e refl
]

module _ (site : Site) (address password : String) (m : SessionMeta) where
  abbrev email : String
  email = site.normalize_email address

  -- an account for the address was there before
  abbrev IsTaken : Database → Type 0
  IsTaken d = (u : User) × (select_row (has_email site.env email) d.users ≡ some u)

  taken_or_internal-IsTaken : (w : World) → WasSent (taken_or_internal site email w) → IsTaken w.db
  unfolding taken_or_internal user_by_email
  taken_or_internal-IsTaken w h =
      let (u, (found, _)) = checked_ok (user_by_email site.env email) _ _ w WasSent (λ e x. cc) h in
      (u, read_ok site.env _ w u found)

  not_issued : (u : User) (c : Client) (w : World) → WasSent (issue_session site 201 m u c w) → ⊥
  unfolding issue_session respond_with_tokens
  not_issued u c w =
      checked_both _ _ _ w (λ o. WasSent o → ⊥) (λ e _ x. cc)
        (λ iss _. checked_both _ _ _ _ (λ o. WasSent o → ⊥) (λ e _ x. cc) (λ access _ x. cc))

  create_account-IsTaken :
      (c : Client) (w : World) → WasSent (create_account site email password m c w) → IsTaken w.db
  unfolding create_account
  create_account-IsTaken c w h =
      let (hash, (_, h1)) =
        checked_ok (ask (λ k. site.hash_password k password)) _ _ w WasSent (λ e x. cc) h in
      let w1 : World = (ask (λ k. site.hash_password k password) w).1 in
      checked_both (create_user site.env email (some hash)) _ _ w1 (λ o. WasSent o → IsTaken w.db)
        (λ e refused sent.
          let (u, found) = taken_or_internal-IsTaken _ sent in
          (
            u,
            rw
                (
                  create_user-refused site.env email (some hash) w1 e refused,
                  ask-db (λ k. site.hash_password k password) w,
                )
                at found,
          ))
        (λ u _ sent. absurd (not_issued u c _ (sym (sent-body u _ _) ∙ sent))) h1

  -- Where a registration answers that a verification was sent, and not with tokens, the address had an
  -- account before.
  pub handle_register-IsTaken :
      (bytes : String → ℕ) (client_id : String) (w : World)
      → (handle_register site bytes client_id address password m w).0.body
        ≡ done "verification_sent"
      → IsTaken w.db
  unfolding handle_register
  handle_register-IsTaken bytes client_id w h = elim (Bool-cases (valid_email email)) [
    | inr odd ↦ absurd (cc (rw odd at h))
    | inl fine ↦ elim (Bool-cases (is_weak bytes password)) [
      | inl weak ↦ absurd (cc (rw (fine, weak) at h))
      | inr strong ↦
          let (w1, (same1, h1)) =
            let_through site WasSent not_refused _ _ _ _ w (rw (fine, strong) at h) in
          let (c, (w2, (same2, h2))) = client_found site WasSent not_refused client_id _ w1 h1 in
          let (u, found) = create_account-IsTaken c w2 h2 in (u, rw (same2, same1) at found)
    ]
  ]
