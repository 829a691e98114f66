-- ===== src/Linking/Again.antt =====
-- A provider account that signed in once reaches the same account from then on.
use authsvc.Prelude.{
  ℕ, suc, ◌≤◌, ◌≡◌, refl, ◌==◌, eq_refl, false, String, some, arith, Bool-cases, inl, inr,
}
use authsvc.Prelude.Lists.{All-mono}
use authsvc.Schema.{Database, User, Identity}
use authsvc.Exec.{Env, World, Result, ok, ◌>>=◌}
use authsvc.Table.{select_row}
use authsvc.Table.Laws.{select_row-append}
use authsvc.Table.Unique.{Distinct-select_key}
use authsvc.Users.{has_id, has_email, user_by_id}
use authsvc.Identities.{has_subject, identity_by_subject}
use authsvc.Linking.{Profile, Resolved, existing, resolve, resolve_known}
use authsvc.Linking.Cases.{Resolution, rejected, known, joined, founded, resolve-Resolution}
use authsvc.Linking.Reach.{last_identity}
use authsvc.Linking.Keys.{AccountsOk}

-- the provider's subject is linked to the user
record IsLinked (provider subject : String) (u : User) (d : Database) : Type 0 where
  identity : Identity
  found : select_row (has_subject provider subject) d.identities ≡ some identity
  owner : select_row (has_id identity.user_id) d.users ≡ some u

module _ (env : Env) (provider : String) (p : Profile) where
  Resolution-IsLinked :
      (res : Resolved) (w w' : World) (r : Result Resolved)
      → AccountsOk env w.db
      → Resolution env provider p w r w'
      → r ≡ ok res
      → IsLinked provider p.subject res.user w'.db
  Resolution-IsLinked res w w' r h (rejected e eq same) good = absurd (cc)
  Resolution-IsLinked res w w' r h (known i u found here eq same) good =
      let user : u ≡ res.user = cc in
      rw (← user, same) (record { identity = i; found = found; owner = here })
  Resolution-IsLinked res w w' r h (joined u id mail found vouched verified eq new) good =
      let user : u ≡ res.user = cc in
      rw (← user) (record {
        identity = _;
        found = last_identity env provider p _ w.db w'.db refl refl new;
        owner =
            rw new.added (Distinct-select_key _ (has_email env p.email) w.db.users u h.users found);
      })
  Resolution-IsLinked res w w' r h (founded u id d missing mail verified eq new new') good =
      let user : u ≡ res.user = cc in
      rw (← user) (record {
        identity = _;
        found = last_identity env provider p _ d w'.db refl refl new';
        owner =
            rw (new'.added, new.added)
              (select_row-append _ u w.db.users
                (All-mono _ _ w.db.users (λ old e. ground arith) new.fresh) (eq_refl u.id));
      })

  resolve-subject :
      (res : Resolved) (w : World)
      → (resolve env provider p w).0 ≡ ok res
      → (p.subject == "") ≡ false
  unfolding resolve ◌>>=◌
  resolve-subject res w good = elim (Bool-cases (p.subject == "")) [
    | inl e ↦ absurd (cc (rw e at good))
    | inr e ↦ e
  ]

resolve_linked :
    (env : Env) (provider : String) (p : Profile) (u : User) (w : World)
    → ((k : ℕ) → w.tick ≤ k → env.fails k ≡ false)
    → (p.subject == "") ≡ false
    → IsLinked provider p.subject u w.db
    → (resolve env provider p w).0 ≡ ok (record { user = u; outcome = existing })
unfolding resolve resolve_known identity_by_subject user_by_id ◌>>=◌
resolve_linked env provider p u w sound named link =
    rw (named, sound w.tick (omega arith), link.found, sound (suc w.tick) (omega arith), link.owner)
      refl

-- In tables whose keys are unique: after a sign-in by a provider's subject, and while users
-- and identities stay as it left them, the same subject is signed in to the same account,
-- whatever address, verified or not, the provider tells then, where nothing fails.
pub resolve_again :
    (env : Env) (provider : String) (p p' : Profile) (res : Resolved) (w w' : World)
    → AccountsOk env w.db
    → (resolve env provider p w).0 ≡ ok res
    → p'.subject ≡ p.subject
    → w'.db.users ≡ (resolve env provider p w).1.db.users
    → w'.db.identities ≡ (resolve env provider p w).1.db.identities
    → ((k : ℕ) → w'.tick ≤ k → env.fails k ≡ false)
    → (resolve env provider p' w').0 ≡ ok (record { user = res.user; outcome = existing })
resolve_again env provider p p' res w w' h good subject users identities sound =
    let link =
      Resolution-IsLinked env provider p res w _ _ h (resolve-Resolution env provider p w) good in
    resolve_linked env provider p' res.user w' sound
      (rw subject (resolve-subject env provider p res w good))
      (record {
        identity = link.identity;
        found = rw (subject, identities) link.found;
        owner = rw users link.owner;
      })
