-- ===== src/Linking/Reach.antt =====
-- What a sign-in and a link leave in the tables: the provider's subject belongs to the account.
use authsvc.Prelude.{◌≡◌, refl, eq_refl, String, some, arith}
use authsvc.Prelude.Lists.{Holds, Holds-last, All-mono}
use authsvc.Schema.{Database, Identity}
use authsvc.Exec.{Env, World, Result, ok}
use authsvc.Table.{select_row}
use authsvc.Table.Laws.{select_row-append, select_row-matches, select_row-Holds}
use authsvc.Identities.{has_subject}
use authsvc.Linking.{Profile, Resolved, resolve, link_to_user}
use authsvc.Linking.Rows.{NewIdentity}
use authsvc.Linking.Cases.{Resolution, rejected, known, joined, founded, resolve-Resolution}
use authsvc.Linking.Attach.{denied, Linkage, already, attached, link_to_user-Linkage}
use authsvc.Prelude.{eq_iff, sym}

-- the identity of the subject is in the table, and it is the account's
pub record Belongs (provider subject user_id : String) (d : Database) : Type 0 where
  pub identity : Identity
  pub found : select_row (has_subject provider subject) d.identities ≡ some identity
  pub owner : identity.user_id ≡ user_id

module _ (env : Env) (provider : String) (p : Profile) where
  pub last_identity :
      (i : Identity) (d d' : Database)
      → i.provider ≡ provider
      → i.subject ≡ p.subject
      → NewIdentity i d d'
      → select_row (has_subject provider p.subject) d'.identities ≡ some i
  last_identity i d d' at subject new =
      rw (new.added, ← at, ← subject)
        (select_row-append _ i d.identities
          (All-mono _ _ d.identities (λ old e. ground arith) new.fresh)
          (ground (arith, eq_refl i.provider, eq_refl i.subject)))

  Resolution-Belongs :
      (res : Resolved) (w w' : World) (r : Result Resolved)
      → Resolution env provider p w r w'
      → r ≡ ok res
      → Belongs provider p.subject res.user.id w'.db × Holds res.user w'.db.users
  Resolution-Belongs res w w' r (rejected e eq same) good = absurd (cc)
  Resolution-Belongs res w w' r (known i u found here eq same) good =
      let user : u ≡ res.user = cc in
      let id = (eq_iff u.id i.user_id).0 (select_row-matches _ w.db.users u here) in
      rw (← user, same)
        (
          record { identity = i; found = found; owner = sym id },
          select_row-Holds _ w.db.users u here,
        )
  Resolution-Belongs res w w' r (joined u id mail found vouched verified eq new) good =
      let user : u ≡ res.user = cc in
      rw (← user) (
        record { identity = _; found = last_identity _ w.db w'.db refl refl new; owner = refl },
        rw new.added (select_row-Holds _ w.db.users u found),
      )
  Resolution-Belongs res w w' r (founded u id d missing mail verified eq new new') good =
      let user : u ≡ res.user = cc in
      rw (← user) (
        record { identity = _; found = last_identity _ d w'.db refl refl new'; owner = refl },
        rw (new'.added, new.added) (Holds-last u w.db.users),
      )

  pub resolve-Belongs :
      (res : Resolved) (w : World)
      → (resolve env provider p w).0 ≡ ok res
      → Belongs provider p.subject res.user.id (resolve env provider p w).1.db
        × Holds res.user (resolve env provider p w).1.db.users
  resolve-Belongs res w good =
      Resolution-Belongs res w _ _ (resolve-Resolution env provider p w) good

  Linkage-Belongs :
      (user_id : String) (made : Identity) (w w' : World) (r : Result Identity)
      → Linkage env user_id provider p w r w'
      → r ≡ ok made
      → Belongs provider p.subject user_id w'.db
  Linkage-Belongs user_id made w w' r (denied e eq same) good = absurd (cc)
  Linkage-Belongs user_id made w w' r (already i found own eq same) good =
      rw same (record { identity = i; found = found; owner = own })
  Linkage-Belongs user_id made w w' r (attached id missing eq new) good = record {
    identity = _;
    found = last_identity _ w.db w'.db refl refl new;
    owner = refl;
  }

  pub link_to_user-Belongs :
      (user_id : String) (made : Identity) (w : World)
      → (link_to_user env user_id provider p w).0 ≡ ok made
      → Belongs provider p.subject user_id (link_to_user env user_id provider p w).1.db
  link_to_user-Belongs user_id made w good =
      Linkage-Belongs user_id made w _ _ (link_to_user-Linkage env user_id provider p w) good
