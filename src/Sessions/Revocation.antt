-- ===== src/Sessions/Revocation.antt =====
-- A revoked family stays revoked: no token of it is exchanged again.
use authsvc.Prelude.{
  ℕ, suc, ◌≤◌, ◌≡◌, ap, sym, ◌∙◌, ◌≢◌, ◌==◌, eq_iff, true, String, none, some, List, [], ◌∷◌, arith,
  is_some, Bool-cases, inl, inr,
}
use authsvc.Prelude.Lists.{All, All-always, All-append}
use authsvc.Schema.{Session}
use authsvc.Exec.{Env, World, Result, ok, err, token_reuse, ◌>>=◌, ok-injective, err-injective}
use authsvc.Table.{select_row, update}
use authsvc.Table.Laws.{All-update, All-delete, All-select_row}
use authsvc.Sessions.{
  SessionMeta, IssuedSession, has_family, has_token, has_id, revoke, spend, rotate, revoke_family,
  revoke_by_token, session_by_token,
}
use authsvc.Sessions.Rotation.{Rotation, aborted, reused, rotated, rotate-Rotation}
use authsvc.Sessions.Trace.{Op, apply, run, tick-le-apply, tick-le-rotate, tick-le-revoke_by_token}
use authsvc.Sessions.Change.{Change, unchanged, revoked, deleted, started, continued, apply-Change}

-- Every row of the family is revoked.
abbrev pub IsRevoked : String → List Session → Type 0
IsRevoked f = All (λ s. (s.family_id == f) ≡ true → is_some s.revoked_at ≡ true)

-- No ULID that is made from now on is this family's.
abbrev pub IsOld : Env → World → String → Type 0
IsOld env w f = (k : ℕ) → w.tick ≤ k → env.ulid k ≢ f

revoke-revoked : (t : ℕ) (s : Session) → is_some (revoke t s).revoked_at ≡ true
revoke-revoked t s = ground arith

module _ (env : Env) (f : String) where
  -- a row that is not revoked belongs to another family
  live_elsewhere :
      (row : Session)
      → ((row.family_id == f) ≡ true → is_some row.revoked_at ≡ true)
      → row.revoked_at ≡ none
      → (row.family_id == f) ≢ true
  live_elsewhere row h live same = cc (h same)

  Change-IsRevoked :
      (w w' : World)
      → Change env w w'
      → IsOld env w f
      → IsRevoked f w.db.sessions
      → IsRevoked f w'.db.sessions
  Change-IsRevoked w w' (unchanged e) old dead = rw e dead
  Change-IsRevoked w w' (revoked p t e) old dead =
      rw e (
        All-update _ _ p (revoke t) w.db.sessions (λ s u _ _. revoke-revoked t s) (λ s u _. u) dead)
  Change-IsRevoked w w' (deleted p e) old dead = rw e (All-delete _ p w.db.sessions dead)
  Change-IsRevoked w w' (started k k' user_id client_id m hk hk' lt ins) old dead =
      rw ins.added
        (All-append _ w.db.sessions _ dead (λ e. absurd (old k hk ((eq_iff _ _).0 e)), tt))
  Change-IsRevoked w w' (continued tok row k t m hk found unused live ins) old dead = rw ins.added (
      All-append _ _ _
        (All-update _ _ (has_id row.id) (spend t) w.db.sessions (λ s u _. u) (λ s u _. u) dead)
        (
          λ e. absurd (live_elsewhere row (All-select_row _ _ w.db.sessions row dead found) live e),
          tt,
        ))

  pub run-IsRevoked :
      (ops : List Op) (w : World)
      → IsOld env w f
      → IsRevoked f w.db.sessions
      → IsRevoked f (run env ops w).db.sessions
  unfolding run
  run-IsRevoked [] w old dead = dead
  run-IsRevoked (op ∷ ops) w old dead =
      run-IsRevoked ops (apply env op w) (λ k le. old k (omega (arith, tick-le-apply env op w)))
        (Change-IsRevoked w _ (apply-Change env op w) old dead)

  Rotation-elsewhere :
      (tok : String) (m : SessionMeta) (w w' : World) (r : Result IssuedSession) (s : IssuedSession)
      → IsRevoked f w.db.sessions
      → Rotation env tok m w r w'
      → r ≡ ok s
      → s.session.family_id ≢ f
  Rotation-elsewhere tok m w w' r s dead (aborted e e' ne same) good = absurd (cc)
  Rotation-elsewhere tok m w w' r s dead (reused row k hk found used e eq) good = absurd (cc)
  Rotation-elsewhere tok m w w' r s dead
        (rotated row k k' j s' hk hk' hj found unused live time e e' ins) good =
      λ same. live_elsewhere row (All-select_row _ _ w.db.sessions row dead found) live (
        (eq_iff _ _).1 (
          sym (ap (λ (x : Session). x.family_id) e)
          ∙ sym (ap (λ (x : IssuedSession). x.session.family_id) (ok-injective (sym good ∙ e')))
          ∙ same))

  -- From a world in which a family is revoked, after any operations, a rotation that succeeds
  -- issues a session of another family.
  pub revoked_for_good :
      (ops : List Op) (w : World) (tok : String) (m : SessionMeta) (s : IssuedSession)
      → IsOld env w f
      → IsRevoked f w.db.sessions
      → (rotate env tok m (run env ops w)).0 ≡ ok s
      → s.session.family_id ≢ f
  revoked_for_good ops w tok m s old dead good =
      Rotation-elsewhere tok m _ _ _ s (run-IsRevoked ops w old dead) (rotate-Rotation env m tok _)
        good

revoke_rows-IsRevoked :
    (f : String) (t : ℕ) (rows : List Session) → IsRevoked f (update (has_family f) (revoke t) rows)
revoke_rows-IsRevoked f t rows =
    All-update (λ s. Unit {0}) _ (has_family f) (revoke t) rows (λ s _ _ _. revoke-revoked t s)
      (λ s _ miss hit. absurd (cc)) (All-always _ rows (λ s. tt))

Rotation-reused :
    (env : Env) (tok : String) (m : SessionMeta) (w w' : World) (r : Result IssuedSession)
    (row : Session)
    → select_row (has_token (env.sha256 tok)) w.db.sessions ≡ some row
    → Rotation env tok m w r w'
    → r ≡ err token_reuse
    → IsRevoked row.family_id w'.db.sessions
Rotation-reused env tok m w w' r row found (aborted e e' ne same) bad =
    absurd (ne (err-injective (sym e' ∙ bad)))
Rotation-reused env tok m w w' r row found (reused row' k hk found' used e eq) bad =
    let same : row' ≡ row = cc in
    rw (eq, same) (revoke_rows-IsRevoked row.family_id (env.time k) w.db.sessions)
Rotation-reused env tok m w w' r row found
      (rotated row' k k' j s' hk hk' hj found' unused live time e e' ins) bad =
    absurd (cc)

-- When a spent token is presented and the reuse is reported, no rotation after it, whatever the
-- operations in between, issues a session of the family of that token, provided that no ULID made
-- later is that family's id.
pub reuse_locks_family :
    (env : Env) (tok tok' : String) (m m' : SessionMeta) (w : World) (row : Session) (ops : List Op)
    (s : IssuedSession)
    → select_row (has_token (env.sha256 tok)) w.db.sessions ≡ some row
    → IsOld env w row.family_id
    → (rotate env tok m w).0 ≡ err token_reuse
    → (rotate env tok' m' (run env ops (rotate env tok m w).1)).0 ≡ ok s
    → s.session.family_id ≢ row.family_id
reuse_locks_family env tok tok' m m' w row ops s found old bad good =
    revoked_for_good env row.family_id ops _ tok' m' s
      (λ k le. old k (omega (arith, tick-le-rotate env tok m w)))
      (Rotation-reused env tok m w _ _ row found (rotate-Rotation env m tok w) bad) good

revoke_family-IsRevoked :
    (env : Env) (f : String) (w : World)
    → (revoke_family env f w).0 ≡ ok tt
    → IsRevoked f (revoke_family env f w).1.db.sessions
unfolding revoke_family ◌>>=◌
revoke_family-IsRevoked env f w good = elim (Bool-cases (env.fails (suc w.tick))) [
  | inl e ↦ absurd (cc (rw e at good))
  | inr e ↦ rw e (revoke_rows-IsRevoked f (env.time w.tick) w.db.sessions)
]

revoke_by_token-IsRevoked :
    (env : Env) (tok : String) (w : World) (row : Session)
    → select_row (has_token (env.sha256 tok)) w.db.sessions ≡ some row
    → (revoke_by_token env tok w).0 ≡ ok tt
    → IsRevoked row.family_id (revoke_by_token env tok w).1.db.sessions
unfolding revoke_by_token session_by_token ◌>>=◌
revoke_by_token-IsRevoked env tok w row found good = elim (Bool-cases (env.fails w.tick)) [
  | inl e ↦ absurd (cc (rw e at good))
  | inr e ↦ rw (e, found) (revoke_family-IsRevoked env row.family_id _ (rw (e, found) at good))
]

-- After a RevokeByToken that succeeds on the token of a row, whatever the operations in
-- between, no rotation issues a session of that row's family, provided that no ULID made later
-- is that family's id.
pub logout_for_good :
    (env : Env) (tok tok' : String) (m : SessionMeta) (w : World) (row : Session) (ops : List Op)
    (s : IssuedSession)
    → select_row (has_token (env.sha256 tok)) w.db.sessions ≡ some row
    → IsOld env w row.family_id
    → (revoke_by_token env tok w).0 ≡ ok tt
    → (rotate env tok' m (run env ops (revoke_by_token env tok w).1)).0 ≡ ok s
    → s.session.family_id ≢ row.family_id
logout_for_good env tok tok' m w row ops s found old done good =
    revoked_for_good env row.family_id ops _ tok' m s
      (λ k le. old k (omega (arith, tick-le-revoke_by_token env tok w)))
      (revoke_by_token-IsRevoked env tok w row found done) good
