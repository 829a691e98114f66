-- ===== src/Linking/Cases.antt =====
-- The cases that linking.Resolve can end in.
use authsvc.Prelude.{
  ◌≡◌, ◌==◌, refl, true, false, not, ◌||◌, String, none, some, arith, Bool-cases, Option-cases, inl,
  inr,
}
use authsvc.Schema.{Database, User, Identity, email_verified}
use authsvc.Exec.{
  Env, World, Result, Error, ok, err, failed, not_found, no_subject, manual_link_required, ◌>>=◌,
  next,
}
use authsvc.Table.{select_row}
use authsvc.Users.{has_id, has_email, user_by_id, user_by_email}
use authsvc.Identities.{
  has_subject, identity_by_subject, filled, create_identity, create_user_with_identity,
}
use authsvc.Linking.{
  Profile, Resolved, existing, linked, created, identity_of, owner_of, owner_found, resolve_owner,
  resolve_known, resolve,
}
use authsvc.Linking.Rows.{
  NewIdentity, NewUser, Creation, refused, made, create_identity-Creation, Signup, signed,
  create_user_with_identity-Signup,
}

module _ (env : Env) (provider : String) (p : Profile) where
  pub data Resolution (w : World) (r : Result Resolved) (w' : World) : Type 0 where
    rejected : (e : Error) → r ≡ err e → w'.db ≡ w.db → Resolution w r w'
    known :
        (i : Identity) (u : User)
        → select_row (has_subject provider p.subject) w.db.identities ≡ some i
        → select_row (has_id i.user_id) w.db.users ≡ some u
        → r ≡ ok (record { user = u; outcome = existing })
        → w'.db ≡ w.db
        → Resolution w r w'
    joined :
        (u : User) (id : String)
        → (p.email == "") ≡ false
        → select_row (has_email env p.email) w.db.users ≡ some u
        → p.email_verified ≡ true
        → email_verified u ≡ true
        → r ≡ ok (record { user = u; outcome = linked })
        → NewIdentity (filled (identity_of u.id provider p) id u.id) w.db w'.db
        → Resolution w r w'
    founded :
        (u : User) (id : String) (d : Database)
        → select_row (has_subject provider p.subject) w.db.identities ≡ none
        → u.email ≡ p.email
        → email_verified u ≡ p.email_verified
        → r ≡ ok (record { user = u; outcome = created })
        → NewUser env u w.db d
        → NewIdentity (filled (identity_of "" provider p) id u.id) d w'.db
        → Resolution w r w'

  -- no account has the profile's address
  founding :
      (w w' : World) (out : Result (User × Identity) × World)
      → select_row (has_subject provider p.subject) w.db.identities ≡ none
      → w'.db ≡ w.db
      → Signup env p.email p.email_verified (identity_of "" provider p) w' out.0 out.1
      → out ≡ create_user_with_identity env p.email p.email_verified (identity_of "" provider p) w'
      → Resolution w
          (resolve_owner env provider p none w').0
          (resolve_owner env provider p none w').1
  unfolding resolve_owner ◌>>=◌
  founding w w' out missing same (refused e eq kept) run = rw (← run) (rw eq (rejected e refl cc))
  founding w w' out missing same (signed u id d mail vouched eq new new') run =
      rw (← run) (rw eq (founded u id d missing mail vouched refl (rw (← same) new) new'))

  joining :
      (w w' : World) (u : User) (out : Result Identity × World)
      → (p.email == "") ≡ false
      → select_row (has_email env p.email) w.db.users ≡ some u
      → (not p.email_verified || not (email_verified u)) ≡ false
      → w'.db ≡ w.db
      → Creation env (identity_of u.id provider p) w' out.0 out.1
      → out ≡ create_identity env (identity_of u.id provider p) w'
      → Resolution w
          (resolve_owner env provider p (some u) w').0
          (resolve_owner env provider p (some u) w').1
  unfolding resolve_owner ◌>>=◌
  joining w w' u out mail found strong same (refused e eq kept) run =
      rw (strong, ← run) (rw eq (rejected e refl cc))
  joining w w' u out mail found strong same (made id eq new) run =
      rw (strong, ← run)
        (rw eq (joined u id mail found (ground arith) (ground arith) refl (rw (← same) new)))

  manual_link :
      (w w' : World) (u : User)
      → w'.db ≡ w.db
      → (not p.email_verified || not (email_verified u)) ≡ true
      → Resolution w
          (resolve_owner env provider p (some u) w').0
          (resolve_owner env provider p (some u) w').1
  unfolding resolve_owner ◌>>=◌
  manual_link w w' u same weak = rw weak (rejected manual_link_required refl same)

  taken_address :
      (w w' : World) (u : User)
      → (p.email == "") ≡ false
      → select_row (has_email env p.email) w.db.users ≡ some u
      → w'.db ≡ w.db
      → Resolution w
          (resolve_owner env provider p (some u) w').0
          (resolve_owner env provider p (some u) w').1
  taken_address w w' u mail found same =
      elim (Bool-cases (not p.email_verified || not (email_verified u))) [
        | inl weak ↦ manual_link w w' u same weak
        | inr strong ↦
            joining w w' u _ mail found strong same (create_identity-Creation env _ w') refl
      ]

  unknown_subject :
      (w : World)
      → select_row (has_subject provider p.subject) w.db.identities ≡ none
      → (r : Result Identity) → r ≡ err not_found
      → Resolution w
          (resolve_known env provider p r (next w)).0
          (resolve_known env provider p r (next w)).1
  unfolding resolve_known owner_of owner_found user_by_email ◌>>=◌
  unknown_subject w missing r eq = rw eq (elim (Bool-cases (p.email == "")) [
    | inl blank ↦
        rw blank
          (founding w (next w) _ missing refl (create_user_with_identity-Signup env _ _ _ _) refl)
    | inr mail ↦ rw mail (elim (Bool-cases (env.fails (next w).tick)) [
      | inl e ↦ rw e (rejected failed refl refl)
      | inr e ↦ rw e (elim (Option-cases (select_row (has_email env p.email) w.db.users)) [
        | inl nobody ↦ rw nobody (
            founding w (next (next w)) _ missing refl (create_user_with_identity-Signup env _ _ _ _)
              refl)
        | inr (u, found) ↦ rw found (taken_address w (next (next w)) u mail found refl)
      ])
    ])
  ])

  known_subject :
      (w : World) (i : Identity)
      → select_row (has_subject provider p.subject) w.db.identities ≡ some i
      → Resolution w
          (resolve_known env provider p (ok i) (next w)).0
          (resolve_known env provider p (ok i) (next w)).1
  unfolding resolve_known user_by_id ◌>>=◌
  known_subject w i found = elim (Bool-cases (env.fails (next w).tick)) [
    | inl e ↦ rw e (rejected failed refl refl)
    | inr e ↦ rw e (elim (Option-cases (select_row (has_id i.user_id) w.db.users)) [
      | inl nobody ↦ rw nobody (rejected not_found refl refl)
      | inr (u, here) ↦ rw here (known i u found here refl refl)
    ])
  ]

  fault :
      (w : World)
      → Resolution w
          (resolve_known env provider p (err failed) (next w)).0
          (resolve_known env provider p (err failed) (next w)).1
  unfolding resolve_known ◌>>=◌
  fault w = rejected failed refl refl

  pub resolve-Resolution :
      (w : World) → Resolution w (resolve env provider p w).0 (resolve env provider p w).1
  unfolding resolve identity_by_subject ◌>>=◌
  resolve-Resolution w = elim (Bool-cases (p.subject == "")) [
    | inl e ↦ rw e (rejected no_subject refl refl)
    | inr e ↦ rw e (elim (Bool-cases (env.fails w.tick)) [
      | inl f ↦ rw f (fault w)
      | inr f ↦
          rw f (elim (Option-cases (select_row (has_subject provider p.subject) w.db.identities)) [
            | inl missing ↦ rw missing (unknown_subject w missing _ refl)
            | inr (i, found) ↦ rw found (known_subject w i found)
          ])
    ])
  ]
