-- ===== src/Linking/Safety.antt =====
-- Who may be signed in to an account by a provider's profile, and what that leaves untouched.
use authsvc.Prelude.{
  ◌≡◌, ◌≢◌, sym, Bool-cases, ◌==◌, eq_iff, true, false, String, none, some, List, [], ◌∷◌, arith,
  inl, inr,
}
use authsvc.Prelude.Lists.{All, All-mono}
use authsvc.Schema.{Database, User, Identity, email_verified}
use authsvc.Exec.{Env, World, Result, ok}
use authsvc.Table.{select_row}
use authsvc.Table.Laws.{All-select_row, select_row-matches, select_row-none}
use authsvc.Table.Pairwise.{Pairwise}
use authsvc.Users.{has_email}
use authsvc.Identities.{has_subject}
use authsvc.Linking.{Profile, Resolved, resolve, link_to_user}
use authsvc.Linking.Cases.{Resolution, rejected, known, joined, founded, resolve-Resolution}
use authsvc.Linking.Attach.{denied, Linkage, already, attached, link_to_user-Linkage}

-- The three ways in which the tables and a profile may give a right to an account.
pub data Entitled (env : Env) (provider : String) (p : Profile) (d : Database) (u : User)
    : Type 0 where
  by_identity :
      (i : Identity)
      → select_row (has_subject provider p.subject) d.identities ≡ some i
      → i.user_id ≡ u.id
      → Entitled env provider p d u
  by_verified_email :
      p.email_verified ≡ true
      → email_verified u ≡ true
      → env.citext u.email ≡ env.citext p.email
      → Entitled env provider p d u
  by_new_account :
      All (λ old. old.id ≢ u.id) d.users
      → All (λ i. has_subject provider p.subject i ≡ false) d.identities
      → email_verified u ≡ p.email_verified
      → Entitled env provider p d u

module _ (env : Env) (provider : String) (p : Profile) where
  Resolution-Entitled :
      (res : Resolved) (w w' : World) (r : Result Resolved)
      → Resolution env provider p w r w'
      → r ≡ ok res
      → Entitled env provider p w.db res.user
  Resolution-Entitled res w w' r (rejected e eq same) good = absurd (cc)
  Resolution-Entitled res w w' r (known i u found here eq same) good =
      let user : u ≡ res.user = cc in
      rw (← user) (
        by_identity i found
          (sym ((eq_iff u.id i.user_id).0 (select_row-matches _ w.db.users u here))))
  Resolution-Entitled res w w' r (joined u id mail found vouched verified eq new) good =
      let user : u ≡ res.user = cc in
      rw (← user) (
        by_verified_email vouched verified
          ((eq_iff _ _).0 (select_row-matches _ w.db.users u found)))
  Resolution-Entitled res w w' r (founded u id d missing mail verified eq new new') good =
      let user : u ≡ res.user = cc in
      rw (← user) (
        by_new_account
          (All-mono _ _ w.db.users (λ old apart same. absurd (ground (arith, eq_iff old.id u.id)))
            new.fresh)
          (select_row-none _ w.db.identities missing) verified)

  -- A sign-in by a provider reaches an account only where the provider's subject is linked to it
  -- already, where the profile's address is verified on both sides and the same, or where the
  -- account is new and the subject was unknown: then it is verified just if the provider vouches.
  pub resolve-Entitled :
      (res : Resolved) (w : World)
      → (resolve env provider p w).0 ≡ ok res
      → Entitled env provider p w.db res.user
  resolve-Entitled res w good =
      Resolution-Entitled res w _ _ (resolve-Resolution env provider p w) good

  blank_refused :
      (u : User) (w w' : World) (r : Result Resolved)
      → p.email ≡ ""
      → select_row (has_subject provider p.subject) w.db.identities ≡ none
      → select_row (has_email env "") w.db.users ≡ some u
      → Resolution env provider p w r w'
      → (res : Resolved) → r ≢ ok res
  blank_refused u w w' r blank missing held (rejected e eq same) res good = cc
  blank_refused u w w' r blank missing held (known i u' found here eq same) res good = cc
  blank_refused u w w' r blank missing held (joined u' id mail found v v' eq new) res good =
      absurd (ground (arith, eq_iff p.email ""))
  blank_refused u w w' r blank missing held (founded u' id d missing' mail v eq new new') res good =
      let clash = All-select_row _ _ w.db.users u new.fresh held in
      let hit = select_row-matches _ w.db.users u held in
      let empty : u'.email ≡ "" = cc in
      let same : (env.citext u.email == env.citext u'.email) ≡ true = rw empty hit in
      absurd (ground arith)

  -- Where some account has an address that equals the empty one, a profile without an address and
  -- with an unknown subject never signs in.
  pub resolve-blank_email :
      (u : User) (res : Resolved) (w : World)
      → p.email ≡ ""
      → select_row (has_subject provider p.subject) w.db.identities ≡ none
      → select_row (has_email env "") w.db.users ≡ some u
      → (resolve env provider p w).0 ≢ ok res
  resolve-blank_email u res w blank missing held =
      blank_refused u w _ _ blank missing held (resolve-Resolution env provider p w) res

module _ (env : Env) (user_id provider : String) (p : Profile) where
  subjects_alone :
      (rows : List Identity) (i : Identity)
      → Pairwise (λ x y. has_subject x.provider x.subject y ≡ false) rows
      → select_row (has_subject provider p.subject) rows ≡ some i
      → i.user_id ≡ user_id
      → All (λ old. has_subject provider p.subject old ≡ true → old.user_id ≡ user_id) rows
  unfolding select_row
  subjects_alone [] i unique found own = tt
  subjects_alone (x ∷ xs) i unique found own =
      elim (Bool-cases (has_subject provider p.subject x)) [
        | inl hit ↦
            let same : x ≡ i = cc (rw hit at found) in
            (
              (λ _. cc),
              All-mono _ _ xs
                  (λ y apart also. absurd (
                    ground (
                      arith,
                      eq_iff x.provider provider,
                      eq_iff x.subject p.subject,
                      eq_iff y.provider provider,
                      eq_iff y.subject p.subject,
                      eq_iff y.provider x.provider,
                      eq_iff y.subject x.subject,
                    )))
                  unique.0,
            )
        | inr miss ↦ ((λ hit. absurd (cc)), subjects_alone xs i unique.1 (rw miss at found) own)
      ]

  Linkage-keeps :
      (i : Identity) (w w' : World) (r : Result Identity)
      → Pairwise (λ x y. has_subject x.provider x.subject y ≡ false) w.db.identities
      → Linkage env user_id provider p w r w'
      → r ≡ ok i
      → (i.user_id ≡ user_id)
        × All
            (λ old. has_subject provider p.subject old ≡ true → old.user_id ≡ user_id)
            w.db.identities
  Linkage-keeps i w w' r unique (denied e eq same) good = absurd (cc)
  Linkage-keeps i w w' r unique (already i' found own eq same) good =
      (cc, subjects_alone w.db.identities i' unique found own)
  Linkage-keeps i w w' r unique (attached id missing eq new) good = (
    cc,
    All-mono _ _ w.db.identities (λ old miss hit. absurd (cc))
        (select_row-none _ w.db.identities missing),
  )

  -- Under UNIQUE (provider, subject), where a provider account is attached to a user without
  -- an error, the identity that is returned is the user's, and so was every identity that the
  -- table had for that account.
  link_to_user_never_steals :
      (i : Identity) (w : World)
      → Pairwise (λ x y. has_subject x.provider x.subject y ≡ false) w.db.identities
      → (link_to_user env user_id provider p w).0 ≡ ok i
      → (i.user_id ≡ user_id)
        × All
            (λ old. has_subject provider p.subject old ≡ true → old.user_id ≡ user_id)
            w.db.identities
  link_to_user_never_steals i w unique good =
      Linkage-keeps i w _ _ unique (link_to_user-Linkage env user_id provider p w) good
