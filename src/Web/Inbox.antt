-- ===== src/Web/Inbox.antt =====
-- Whose account a proof of an address opens: owner_of_inbox and with_verified of the login by code.
use authsvc.Prelude.{
  ◌≡◌, refl, eq_iff, String, none, some, List, Bool-cases, Option-cases, inl, inr,
}
use authsvc.Prelude.Lists.{Holds, Holds-last}
use authsvc.Schema.{Database, User, email_verified}
use authsvc.Exec.{Env, World, ok, next, ◌>>=◌}
use authsvc.Table.{select_row}
use authsvc.Table.Laws.{select_row-matches, select_row-Holds}
use authsvc.Users.{has_email, user_by_email, user_by_id, mark_email_verified}
use authsvc.Web.{Site, Handler, TokenResponse}
use authsvc.Web.Cases.{checked_ok}
use authsvc.Web.Minted.{Answers}
use authsvc.Web.Reads.{user_by_id_ok, user_by_id-db}
use authsvc.Web.Registration.{Fresh, create_user_ok}
use authsvc.Web.Login.{found_or_created, owner_of_inbox, with_verified}

-- The account is the one that was found under the address, or it is a new one with that address, which
-- no account had.
pub data Owner (env : Env) (email : String) (before : List User) (u : User) : Type 0 where
  there : select_row (has_email env email) before ≡ some u → Owner env email before u
  made : (after : List User) → Fresh env email none before u after → Owner env email before u

pub owner_of_inbox-Owner :
    (site : Site) (email : String) (w : World) (u : User)
    → (owner_of_inbox site email w).0 ≡ ok u
    → Owner site.env email w.db.users u × Holds u (owner_of_inbox site email w).1.db.users
unfolding owner_of_inbox found_or_created user_by_email ◌>>=◌
owner_of_inbox-Owner site email w u good = elim (Bool-cases (site.env.fails w.tick)) [
  | inl e ↦ absurd (cc (rw e at good))
  | inr e ↦ elim (Option-cases (select_row (has_email site.env email) w.db.users)) [
    | inl missing ↦
        let fresh = create_user_ok site.env email none (next w) u (rw (e, missing) at good) in
        rw (e, missing) (made _ fresh, rw fresh.added (Holds-last u w.db.users))
    | inr (v, here) ↦
        let same : v ≡ u = cc (rw (e, here) at good) in
        let row : select_row (has_email site.env email) w.db.users ≡ some u = rw same at here in
        let listed = select_row-Holds (has_email site.env email) w.db.users u row in
        rw (e, here) (there row, listed)
  ]
]

-- the row that is signed in to has the id of the account
pub with_verified-row :
    (site : Site) (t : TokenResponse) (d : Database) (u : User) (proceed : User → Handler)
    (w : World)
    → Holds u w.db.users
    → Answers t d (with_verified site u proceed w)
    → (v : User) × ((v.id ≡ u.id)
        × ((w' : World) × (Holds v w'.db.users × Answers t d (proceed v w'))))
unfolding with_verified
with_verified-row site t d u proceed w here h = elim (Bool-cases (email_verified u)) [
  | inl fine ↦ (u, (refl, (w, (here, rw fine at h))))
  | inr fresh ↦
      let (_, (_, h1)) =
        checked_ok (mark_email_verified site.env u.id) _ _ w (Answers t d) (λ e (x, _). cc)
          (rw fresh at h) in
      let w1 : World = (mark_email_verified site.env u.id w).1 in
      let (v, (found, h2)) =
        checked_ok (user_by_id site.env u.id) _ _ w1 (Answers t d) (λ e (x, _). cc) h1 in
      let row = user_by_id_ok site.env u.id w1 v found in
      (
        v,
        (
          (eq_iff v.id u.id).0 (select_row-matches _ _ v row),
          (_, (rw (user_by_id-db site.env u.id w1) (select_row-Holds _ _ v row), h2)),
        ),
      )
]
