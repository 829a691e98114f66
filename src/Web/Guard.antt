-- ===== src/Web/Guard.antt =====
-- What stands behind a call that needs a user, and whose sessions a user may end.
use authsvc.Prelude.{
  ℕ, suc, ◌≡◌, refl, ◌∙◌, ◌==◌, eq_iff, String, none, some, ◌⊎◌, inl, inr, is_some,
  is_some-eq_false, Bool-cases,
}
use authsvc.Schema.{Database, Session}
use authsvc.Exec.{Env, World, Error, not_found, ◌>>=◌}
use authsvc.Table.{select_row}
use authsvc.Sessions.{has_id, session_by_id, revoke_family}
use authsvc.Sessions.Cases.{revoke_rows}
use authsvc.Web.{
  or_internal, Site, Claims, Reply, Handler, failure, ask, answer, no_session, require_live,
  require_user,
}
use authsvc.Web.Cases.{checked_both}
use authsvc.Web.Reads.{ask-db, ask_ok, session_by_id-db, session_by_id_ok}
use authsvc.Web.Account.{no_content, handle_delete_session}

-- the session that the claims name, if they name one, is there and not revoked
pub data IsLive (claims : Claims) (d : Database) : Type 0 where
  unbound : claims.session_id ≡ "" → IsLive claims d
  bound :
      (s : Session)
      → select_row (has_id claims.session_id) d.sessions ≡ some s
      → s.revoked_at ≡ none
      → IsLive claims d

-- Either the call is refused and changes nothing, or its handler runs on claims that the bearer token
-- was verified to carry and whose session is live.
pub data Admission (site : Site) (bearer : String) (proceed : Claims → Handler) (w : World)
    (out : Reply × World) : Type 0 where
  refused :
      (code : String)
      → out.0.body ≡ failure code
      → out.1.db ≡ w.db
      → Admission site bearer proceed w out
  admitted :
      (claims : Claims) (k : ℕ) (w' : World)
      → site.verify_access k bearer ≡ some claims
      → IsLive claims w.db
      → w'.db ≡ w.db
      → out ≡ proceed claims w'
      → Admission site bearer proceed w out

no_session-failure : (e : Error) → (code : String) × ((no_session e).body ≡ failure code)
no_session-failure not_found = ("unauthorized", refl)
no_session-failure e = ("internal", refl)

module _ (site : Site) (bearer : String) (proceed : Claims → Handler) where
  live_case :
      (claims : Claims) (k : ℕ) (w w' : World)
      → site.verify_access k bearer ≡ some claims
      → w'.db ≡ w.db
      → Admission site bearer proceed w (require_live site claims proceed w')
  unfolding require_live
  live_case claims k w w' told same = elim (Bool-cases (claims.session_id == "")) [
    | inl blank ↦ rw blank (admitted claims k w' told (unbound ((eq_iff _ _).0 blank)) same refl)
    | inr named ↦ rw named (
        checked_both (session_by_id site.env claims.session_id) _ _ w'
          (Admission site bearer proceed w)
          (λ e failing.
            let (code, is) = no_session-failure e in
            refused code is (session_by_id-db site.env claims.session_id w' ∙ same))
          (λ s found. elim (Bool-cases (is_some s.revoked_at)) [
            | inl dead ↦ rw dead (
                refused "session_revoked" refl
                  (session_by_id-db site.env claims.session_id w' ∙ same))
            | inr live ↦ rw live (
                admitted claims k _ told
                  (bound s (rw same at (session_by_id_ok site.env claims.session_id w' s found))
                    (is_some-eq_false s.revoked_at live))
                  (session_by_id-db site.env claims.session_id w' ∙ same) refl)
          ]))
  ]

  -- A call that needs a user is refused and changes nothing, or its handler runs on claims
  -- that the bearer token was verified to carry, and the session that these name, if they name
  -- one, is in the table and not revoked.
  pub require_user-Admission :
      (w : World) → Admission site bearer proceed w (require_user site bearer proceed w)
  unfolding require_user
  require_user-Admission w = elim (Bool-cases (bearer == "")) [
    | inl blank ↦ rw blank (refused "unauthorized" refl refl)
    | inr sent ↦ rw sent (
        checked_both (ask (λ k. site.verify_access k bearer)) _ _ w
          (Admission site bearer proceed w)
          (λ e failing. refused "unauthorized" refl (ask-db (λ k. site.verify_access k bearer) w))
          (λ claims told.
            live_case claims w.tick w _ (ask_ok (λ k. site.verify_access k bearer) w claims told)
              (ask-db (λ k. site.verify_access k bearer) w)))
  ]

pub data Deletion (claims : Claims) (id : String) (w : World) (out : Reply × World) : Type 0 where
  untouched : out.1.db ≡ w.db → Deletion claims id w out
  revoked :
      (s : Session) (t : ℕ)
      → select_row (has_id id) w.db.sessions ≡ some s
      → s.user_id ≡ claims.subject
      → out.1.db ≡ revoke_rows s.family_id t w.db
      → Deletion claims id w out

revoke_family-db :
    (env : Env) (f : String) (w : World)
    → ((revoke_family env f w).1.db ≡ w.db)
      ⊎ ((revoke_family env f w).1.db ≡ revoke_rows f (env.time w.tick) w.db)
unfolding revoke_family ◌>>=◌
revoke_family-db env f w = elim (Bool-cases (env.fails (suc w.tick))) [
  | inl e ↦ inl (rw e refl)
  | inr e ↦ inr (rw e refl)
]

ended :
    (site : Site) (claims : Claims) (id : String) (w w' : World) (s : Session)
    → w'.db ≡ w.db
    → select_row (has_id id) w.db.sessions ≡ some s
    → s.user_id ≡ claims.subject
    → Deletion claims id w
        (or_internal (revoke_family site.env s.family_id) (λ _. answer no_content) w')
ended site claims id w w' s same found own =
    checked_both (revoke_family site.env s.family_id) _ _ w' (Deletion claims id w)
      (λ e failing. write (revoke_family-db site.env s.family_id w'))
      (λ u done. write (revoke_family-db site.env s.family_id w'))
  where
    write :
        {out : Reply × World}
        → ((out.1.db ≡ w'.db) ⊎ (out.1.db ≡ revoke_rows s.family_id (site.env.time w'.tick) w'.db))
        → Deletion claims id w out
    write (inl kept) = untouched (kept ∙ same)
    write (inr change) = revoked s (site.env.time w'.tick) found own (rw same at change)

-- A user who asks to end a session changes nothing, or the session is the user's own and its
-- family is revoked.
pub handle_delete_session-Deletion :
    (site : Site) (claims : Claims) (id : String) (w : World)
    → Deletion claims id w (handle_delete_session site claims id w)
unfolding handle_delete_session
handle_delete_session-Deletion site claims id w =
    checked_both (session_by_id site.env id) _ _ w (Deletion claims id w)
      (λ e failing. untouched (session_by_id-db site.env id w))
      (λ s found. elim (Bool-cases (s.user_id == claims.subject)) [
        | inr other ↦ rw other (untouched (session_by_id-db site.env id w))
        | inl own ↦ rw own (
            ended site claims id w (session_by_id site.env id w).1 s
              (session_by_id-db site.env id w) (session_by_id_ok site.env id w s found)
              ((eq_iff _ _).0 own))
      ])
