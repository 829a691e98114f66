-- ===== src/Linking/Attach.antt =====
-- The cases that linking.LinkToUser can end in.
use authsvc.Prelude.{
  ◌≡◌, ◌==◌, eq_iff, refl, String, none, some, Bool-cases, Option-cases, inl, inr,
}
use authsvc.Schema.{Identity}
use authsvc.Exec.{
  Env, World, Result, Error, ok, err, failed, no_subject, already_linked_elsewhere, ◌>>=◌, next,
}
use authsvc.Table.{select_row}
use authsvc.Identities.{has_subject, identity_by_subject, filled}
use authsvc.Linking.{Profile, identity_of, link_known, link_to_user}
use authsvc.Linking.Rows.{NewIdentity, Creation, refused, made, create_identity-Creation}

module _ (env : Env) (user_id provider : String) (p : Profile) where
  pub data Linkage (w : World) (r : Result Identity) (w' : World) : Type 0 where
    denied : (e : Error) → r ≡ err e → w'.db ≡ w.db → Linkage w r w'
    already :
        (i : Identity)
        → select_row (has_subject provider p.subject) w.db.identities ≡ some i
        → i.user_id ≡ user_id
        → r ≡ ok i
        → w'.db ≡ w.db
        → Linkage w r w'
    attached :
        (id : String)
        → select_row (has_subject provider p.subject) w.db.identities ≡ none
        → r ≡ ok (filled (identity_of user_id provider p) id user_id)
        → NewIdentity (filled (identity_of user_id provider p) id user_id) w.db w'.db
        → Linkage w r w'

  attaching :
      (w w' : World) (r : Result Identity)
      → select_row (has_subject provider p.subject) w.db.identities ≡ none
      → Creation env (identity_of user_id provider p) (next w) r w'
      → Linkage w r w'
  attaching w w' r missing (refused e eq kept) = denied e eq kept
  attaching w w' r missing (made id eq new) = attached id missing eq new

  pub link_to_user-Linkage :
      (w : World)
      → Linkage w
          (link_to_user env user_id provider p w).0
          (link_to_user env user_id provider p w).1
  unfolding link_to_user link_known identity_by_subject ◌>>=◌
  link_to_user-Linkage w = elim (Bool-cases (p.subject == "")) [
    | inl e ↦ rw e (denied no_subject refl refl)
    | inr e ↦ rw e (elim (Bool-cases (env.fails w.tick)) [
      | inl f ↦ rw f (denied failed refl refl)
      | inr f ↦
          rw f (elim (Option-cases (select_row (has_subject provider p.subject) w.db.identities)) [
            | inl missing ↦
                rw missing (attaching w _ _ missing (create_identity-Creation env _ (next w)))
            | inr (i, found) ↦ rw found (elim (Bool-cases (i.user_id == user_id)) [
              | inl own ↦ rw own (already i found ((eq_iff i.user_id user_id).0 own) refl refl)
              | inr other ↦ rw other (denied already_linked_elsewhere refl refl)
            ])
          ])
    ])
  ]
