-- ===== src/Linking/Rows.antt =====
-- What the inserts of accounts and of their identities add, and when they are refused.
use authsvc.Prelude.{
  ℕ, suc, ◌≡◌, refl, Bool, true, false, String, some, [], ◌∷◌, ◌++◌, is_some, Bool-cases,
  Option-cases, inl, inr,
}
use authsvc.Prelude.Lists.{All}
use authsvc.Schema.{Database, User, Identity}
use authsvc.Exec.{Env, World, Result, Error, ok, err, failed, ◌>>=◌}
use authsvc.Table.{select_row, insert}
use authsvc.Table.Laws.{insert-fresh}
use authsvc.Users.{has_id, user_conflicts, insert_user}
use authsvc.Identities.{
  identity_conflicts, insert_identity, filled, new_user, create_identity, user_and_identity,
  create_user_with_identity,
}

abbrev pub add_identity : Identity → Database → Database
add_identity i d = record d { identities = d.identities ++ i ∷ [] }

abbrev pub add_user : User → Database → Database
add_user u d = record d { users = d.users ++ u ∷ [] }

pub record NewIdentity (i : Identity) (d d' : Database) : Type 0 where
  pub added : d' ≡ add_identity i d
  pub fresh : All (λ old. identity_conflicts i old ≡ false) d.identities
  pub owned : is_some (select_row (has_id i.user_id) d.users) ≡ true

pub record NewUser (env : Env) (u : User) (d d' : Database) : Type 0 where
  pub added : d' ≡ add_user u d
  pub fresh : All (λ old. user_conflicts env u old ≡ false) d.users

pub insert_identity-NewIdentity :
    (i : Identity) (d d' : Database) → insert_identity i d ≡ some d' → NewIdentity i d d'
unfolding insert_identity
insert_identity-NewIdentity i d d' e =
    elim (Bool-cases (is_some (select_row (has_id i.user_id) d.users))) [
      | inl owned ↦ elim (Option-cases (insert (identity_conflicts i) i d.identities)) [
        | inl clash ↦ cc (rw (owned, clash) at e)
        | inr (rows, new) ↦
            let (rows_eq, fresh) = insert-fresh (identity_conflicts i) i d.identities new in
            record { added = cc (rows_eq, rw (owned, new) at e); fresh = fresh; owned = owned }
      ]
      | inr dangling ↦ cc (rw dangling at e)
    ]

pub insert_user-NewUser :
    (env : Env) (u : User) (d d' : Database) → insert_user env u d ≡ some d' → NewUser env u d d'
unfolding insert_user
insert_user-NewUser env u d d' e = elim (Option-cases (insert (user_conflicts env u) u d.users)) [
  | inl clash ↦ cc (rw clash at e)
  | inr (rows, new) ↦
      let (rows_eq, fresh) = insert-fresh (user_conflicts env u) u d.users new in
      record { added = cc (rows_eq, rw new at e); fresh = fresh }
]

pub data Creation (env : Env) (i : Identity) (w : World) (r : Result Identity) (w' : World)
    : Type 0 where
  refused : (e : Error) → r ≡ err e → w'.db ≡ w.db → Creation env i w r w'
  made :
      (id : String)
      → r ≡ ok (filled i id i.user_id)
      → NewIdentity (filled i id i.user_id) w.db w'.db
      → Creation env i w r w'

pub create_identity-Creation :
    (env : Env) (i : Identity) (w : World)
    → Creation env i w (create_identity env i w).0 (create_identity env i w).1
unfolding create_identity ◌>>=◌
create_identity-Creation env i w = elim (Bool-cases (env.fails (suc w.tick))) [
  | inl e ↦ rw e (refused failed refl refl)
  | inr e ↦
      rw e (elim (Option-cases (insert_identity (filled i (env.ulid w.tick) i.user_id) w.db)) [
        | inl clash ↦ rw clash (refused failed refl refl)
        | inr (d, new) ↦
            rw new (made (env.ulid w.tick) refl (insert_identity-NewIdentity _ w.db d new))
      ])
]

-- an account and its first identity, or nothing of either
pub data Signup (env : Env) (email : String) (vouched : Bool) (i : Identity) (w : World)
    (r : Result (User × Identity)) (w' : World) : Type 0 where
  refused : (e : Error) → r ≡ err e → w'.db ≡ w.db → Signup env email vouched i w r w'
  signed :
      (u : User) (id : String) (d : Database)
      → u.email ≡ email
      → is_some u.email_verified_at ≡ vouched
      → r ≡ ok (u, filled i id u.id)
      → NewUser env u w.db d
      → NewIdentity (filled i id u.id) d w'.db
      → Signup env email vouched i w r w'

vouched-verified :
    (id email : String) (b : Bool) (t : ℕ) → is_some (new_user id email b t).email_verified_at ≡ b
vouched-verified id email true t = refl
vouched-verified id email false t = refl

pub create_user_with_identity-Signup :
    (env : Env) (email : String) (vouched : Bool) (i : Identity) (w : World)
    → Signup env email vouched i w
        (create_user_with_identity env email vouched i w).0
        (create_user_with_identity env email vouched i w).1
unfolding create_user_with_identity user_and_identity ◌>>=◌
create_user_with_identity-Signup env email vouched i w = elim (Bool-cases (env.fails w.tick)) [
  | inl e ↦ rw e (refused failed refl refl)
  | inr e ↦ rw e (elim (Bool-cases (env.fails (suc (suc (suc w.tick))))) [
    | inl e' ↦ rw e' (refused failed refl refl)
    | inr e' ↦ rw e' (elim (Option-cases (insert_user env u w.db)) [
      | inl clash ↦ rw clash (refused failed refl refl)
      | inr (d, new) ↦ rw new (elim (Bool-cases (env.fails (suc (suc (suc (suc (suc w.tick))))))) [
        | inl f ↦ rw f (refused failed refl refl)
        | inr f ↦ rw f (elim (Option-cases (insert_identity (filled i id u.id) d)) [
          | inl clash ↦ rw clash (refused failed refl refl)
          | inr (d', new') ↦
              rw new' (elim (Bool-cases (env.fails (suc (suc (suc (suc (suc (suc w.tick)))))))) [
                | inl g ↦ rw g (refused failed refl refl)
                | inr g ↦ rw g (
                    signed u id d refl (vouched-verified u.id email vouched _) refl
                      (insert_user-NewUser env u w.db d new)
                      (insert_identity-NewIdentity _ d d' new'))
              ])
        ])
      ])
    ])
  ])
]
  where
    u : User
    u = new_user (env.ulid (suc (suc w.tick))) email vouched (env.time (suc w.tick))

    id : String
    id = env.ulid (suc (suc (suc (suc w.tick))))
