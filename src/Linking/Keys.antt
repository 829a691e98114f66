-- ===== src/Linking/Keys.antt =====
-- The keys of users and of identities, which sign-ins keep.
use authsvc.Prelude.{
  ◌≡◌, refl, ◌==◌, eq_iff, Bool, true, false, String, List, [], ◌∷◌, ◌++◌, arith, is_some,
  Bool-cases, inl, inr,
}
use authsvc.Prelude.Lists.{All, All-mono, All-append}
use authsvc.Schema.{Database, User, Identity}
use authsvc.Exec.{Env, World, Result}
use authsvc.Table.{select_row}
use authsvc.Table.Pairwise.{Pairwise, Pairwise-append}
use authsvc.Table.Unique.{Distinct}
use authsvc.Users.{has_id}
use authsvc.Identities.{has_subject}
use authsvc.Linking.{Profile, Resolved, resolve, link_to_user}
use authsvc.Linking.Rows.{NewIdentity, NewUser}
use authsvc.Linking.Cases.{Resolution, rejected, known, joined, founded, resolve-Resolution}
use authsvc.Linking.Attach.{denied, Linkage, already, attached, link_to_user-Linkage}

abbrev pub has_owner : List User → Identity → Bool
has_owner users i = is_some (select_row (has_id i.user_id) users)

-- PRIMARY KEY, UNIQUE and REFERENCES of users and identities
pub record AccountsOk (env : Env) (d : Database) : Type 0 where
  pub users : Distinct (λ (u : User). u.id) d.users
  pub emails : Pairwise (λ x y. (env.citext x.email == env.citext y.email) ≡ false) d.users
  pub identities : Distinct (λ (i : Identity). i.id) d.identities
  pub subjects : Pairwise (λ x y. has_subject x.provider x.subject y ≡ false) d.identities
  pub owned : All (λ i. has_owner d.users i ≡ true) d.identities

select_row-stays :
    {A : Type 0} (p : A → Bool) (xs ys : List A)
    → is_some (select_row p xs) ≡ true
    → is_some (select_row p (xs ++ ys)) ≡ true
unfolding select_row
select_row-stays p [] ys h = cc
select_row-stays p (x ∷ xs) ys h = elim (Bool-cases (p x)) [
  | inl e ↦ rw e refl
  | inr e ↦ rw e (select_row-stays p xs ys (rw e at h))
]

module _ (env : Env) where
  NewIdentity-AccountsOk :
      (i : Identity) (d d' : Database) → NewIdentity i d d' → AccountsOk env d → AccountsOk env d'
  NewIdentity-AccountsOk i d d' new h = rw new.added (record {
    users = h.users;
    emails = h.emails;
    identities =
        Pairwise-append _ i d.identities
          (All-mono _ _ d.identities (λ old e. ground arith) new.fresh) h.identities;
    subjects =
        Pairwise-append _ i d.identities
          (All-mono _ _ d.identities
            (λ old e. ground (
              arith,
              eq_iff old.provider i.provider,
              eq_iff i.provider old.provider,
              eq_iff old.subject i.subject,
              eq_iff i.subject old.subject,
            ))
            new.fresh)
          h.subjects;
    owned = All-append _ d.identities (i ∷ []) h.owned (new.owned, tt);
  })

  NewUser-AccountsOk :
      (u : User) (d d' : Database) → NewUser env u d d' → AccountsOk env d → AccountsOk env d'
  NewUser-AccountsOk u d d' new h = rw new.added (record {
    users =
        Pairwise-append _ u d.users (All-mono _ _ d.users (λ old e. ground arith) new.fresh)
          h.users;
    emails =
        Pairwise-append _ u d.users (All-mono _ _ d.users (λ old e. ground arith) new.fresh)
          h.emails;
    identities = h.identities;
    subjects = h.subjects;
    owned =
        All-mono _ _ d.identities (λ i e. select_row-stays (has_id i.user_id) d.users (u ∷ []) e)
          h.owned;
  })

  Resolution-AccountsOk :
      (provider : String) (p : Profile) (w w' : World) (r : Result Resolved)
      → Resolution env provider p w r w'
      → AccountsOk env w.db
      → AccountsOk env w'.db
  Resolution-AccountsOk provider p w w' r (rejected e eq same) h = rw same h
  Resolution-AccountsOk provider p w w' r (known i u found here eq same) h = rw same h
  Resolution-AccountsOk provider p w w' r (joined u id mail found vouched verified eq new) h =
      NewIdentity-AccountsOk _ w.db w'.db new h
  Resolution-AccountsOk provider p w w' r (founded u id d missing mail verified eq new new') h =
      NewIdentity-AccountsOk _ d w'.db new' (NewUser-AccountsOk u w.db d new h)

  -- Where no two users have one id or one address, no two identities one id or one provider
  -- and subject, and no identity is without its user, a sign-in by a provider, however it
  -- ends, leaves it so.
  resolve-AccountsOk :
      (provider : String) (p : Profile) (w : World)
      → AccountsOk env w.db
      → AccountsOk env (resolve env provider p w).1.db
  resolve-AccountsOk provider p w h =
      Resolution-AccountsOk provider p w _ _ (resolve-Resolution env provider p w) h

  Linkage-AccountsOk :
      (user_id provider : String) (p : Profile) (w w' : World) (r : Result Identity)
      → Linkage env user_id provider p w r w'
      → AccountsOk env w.db
      → AccountsOk env w'.db
  Linkage-AccountsOk user_id provider p w w' r (denied e eq same) h = rw same h
  Linkage-AccountsOk user_id provider p w w' r (already i found own eq same) h = rw same h
  Linkage-AccountsOk user_id provider p w w' r (attached id missing eq new) h =
      NewIdentity-AccountsOk _ w.db w'.db new h

  -- Where no two users have one id or one address, no two identities one id or one provider
  -- and subject, and no identity is without its user, the linking of a provider account to a
  -- user, however it ends, leaves it so.
  link_to_user-AccountsOk :
      (user_id provider : String) (p : Profile) (w : World)
      → AccountsOk env w.db
      → AccountsOk env (link_to_user env user_id provider p w).1.db
  link_to_user-AccountsOk user_id provider p w h =
      Linkage-AccountsOk user_id provider p w _ _ (link_to_user-Linkage env user_id provider p w) h
