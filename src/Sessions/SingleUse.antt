-- ===== src/Sessions/SingleUse.antt =====
-- A refresh token is good for one rotation.
use authsvc.Prelude.{
  ℕ, suc, ◌≤◌, ◌≡◌, refl, ap, sym, ◌∙◌, ◌≢◌, ◌==◌, eq_iff, true, String, List, [], ◌∷◌, arith,
  is_some,
}
use authsvc.Prelude.Lists.{All, All-append}
use authsvc.Schema.{Session}
use authsvc.Exec.{Env, World, Result, ok}
use authsvc.Table.Laws.{All-update, All-delete, All-select_row, select_row-matches}
use authsvc.Table.Unique.{Distinct-select_row}
use authsvc.Sessions.{SessionMeta, IssuedSession, has_id, revoke, spend, rotate}
use authsvc.Sessions.Rotation.{Rotation, aborted, reused, rotated, rotate-Rotation}
use authsvc.Sessions.Trace.{Op, apply, run, tick-le-apply, tick-le-rotate}
use authsvc.Sessions.Change.{Change, unchanged, revoked, deleted, started, continued, apply-Change}
use authsvc.Sessions.WellFormed.{WellFormed}

-- Every row of the token with this hash is spent.
abbrev pub IsSpent : String → List Session → Type 0
IsSpent h = All (λ s. (s.token_hash == h) ≡ true → is_some s.used_at ≡ true)

-- No token that is drawn from now on has this hash.
abbrev pub IsUnguessed : Env → World → String → Type 0
IsUnguessed env w h = (k : ℕ) → w.tick ≤ k → env.sha256 (env.secret k) ≢ h

module _ (env : Env) (h : String) where
  Change-IsSpent :
      (w w' : World)
      → Change env w w'
      → IsUnguessed env w h
      → IsSpent h w.db.sessions
      → IsSpent h w'.db.sessions
  Change-IsSpent w w' (unchanged e) new spent = rw e spent
  Change-IsSpent w w' (revoked p t e) new spent =
      rw e (All-update _ _ p (revoke t) w.db.sessions (λ s u _. u) (λ s u _. u) spent)
  Change-IsSpent w w' (deleted p e) new spent = rw e (All-delete _ p w.db.sessions spent)
  Change-IsSpent w w' (started k k' user_id client_id m hk hk' lt ins) new spent =
      rw ins.added
        (All-append _ w.db.sessions _ spent (λ e. absurd (new k' hk' ((eq_iff _ _).0 e)), tt))
  Change-IsSpent w w' (continued tok row k t m hk found unused live ins) new spent = rw ins.added (
      All-append _ _ _
        (All-update _ _ (has_id row.id) (spend t) w.db.sessions (λ s u _ _. refl) (λ s u _. u)
          spent)
        (λ e. absurd (new (suc k) (omega arith) ((eq_iff _ _).0 e)), tt))

  run-IsSpent :
      (ops : List Op) (w : World)
      → IsUnguessed env w h
      → IsSpent h w.db.sessions
      → IsSpent h (run env ops w).db.sessions
  unfolding run
  run-IsSpent [] w new spent = spent
  run-IsSpent (op ∷ ops) w new spent =
      run-IsSpent ops (apply env op w) (λ k le. new k (omega (arith, tick-le-apply env op w)))
        (Change-IsSpent w _ (apply-Change env op w) new spent)

module _ (env : Env) (tok : String) (m : SessionMeta) where
  pub Rotation-IsSpent :
      (w w' : World) (r : Result IssuedSession) (s : IssuedSession)
      → WellFormed w.db
      → IsUnguessed env w (env.sha256 tok)
      → Rotation env tok m w r w'
      → r ≡ ok s
      → IsSpent (env.sha256 tok) w'.db.sessions
  Rotation-IsSpent w w' r s wf new (aborted e e' ne same) good = absurd (cc)
  Rotation-IsSpent w w' r s wf new (reused row k hk found used e eq) good = absurd (cc)
  Rotation-IsSpent w w' r s wf new (rotated row k k' j s' hk hk' hj found unused live time e e' ins)
        good =
      rw ins.added (
        All-append _ _ _
          (All-update _ _ (has_id row.id) (spend (env.time k')) w.db.sessions (λ x only _ _. refl)
            (λ x only other same.
              absurd (ground (arith, eq_iff x.id row.id, ap (λ (y : Session). y.id) (only same))))
            (Distinct-select_row _ (env.sha256 tok) w.db.sessions row wf.tokens found))
          (
            λ e''. absurd (
                new (suc j) (omega arith)
                  (sym (ap (λ (y : Session). y.token_hash) e) ∙ (eq_iff _ _).0 e'')),
            tt,
          ))

  Rotation-of_spent :
      (w w' : World) (r : Result IssuedSession) (s : IssuedSession)
      → IsSpent (env.sha256 tok) w.db.sessions
      → Rotation env tok m w r w'
      → r ≢ ok s
  Rotation-of_spent w w' r s spent (aborted e e' ne same) good = cc
  Rotation-of_spent w w' r s spent (reused row k hk found used e eq) good = cc
  Rotation-of_spent w w' r s spent (rotated row k k' j s' hk hk' hj found unused live time e e' ins)
        good =
      let hit = All-select_row _ _ w.db.sessions row spent found in
      let used = hit (select_row-matches _ w.db.sessions row found) in cc

-- Once a refresh token was exchanged, no later presentation of it is, whatever operations come in
-- between, provided that the table is well formed and that no token drawn later has its hash.
pub rotate_once :
    (env : Env) (tok : String) (m m' : SessionMeta) (w : World) (s s' : IssuedSession)
    (ops : List Op)
    → WellFormed w.db
    → IsUnguessed env w (env.sha256 tok)
    → (rotate env tok m w).0 ≡ ok s
    → (rotate env tok m' (run env ops (rotate env tok m w).1)).0 ≢ ok s'
rotate_once env tok m m' w s s' ops wf new good =
    Rotation-of_spent env tok m' _ _ _ s'
      (run-IsSpent env (env.sha256 tok) ops (rotate env tok m w).1
        (λ k le. new k (omega (arith, tick-le-rotate env tok m w)))
        (Rotation-IsSpent env tok m w _ _ s wf new (rotate-Rotation env m tok w) good))
      (rotate-Rotation env m' tok _)
