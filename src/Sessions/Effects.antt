-- ===== src/Sessions/Effects.antt =====
-- What a caller of Rotate can rely on: what a success says of the presented row and of the new one,
-- that an error leaves no trace, and that without faults the right outcome is reached.
use authsvc.Prelude.{
  ℕ, zero, suc, ◌+◌, ◌≤◌, ◌≡◌, refl, ap, sym, ◌∙◌, ◌≢◌, ◌==◌, true, false, ◌||◌, String, none, some,
  [], ◌∷◌, ◌++◌, arith, is_some, ltb,
}
use authsvc.Prelude.Lists.{All}
use authsvc.Schema.{Database, Session}
use authsvc.Exec.{
  Env, World, Result, Error, ok, err, token_reuse, ◌>>=◌, err-injective, ok-injective,
}
use authsvc.Table.{select_row, update, insert}
use authsvc.Table.Laws.{none-select_row, All-update, All-select_row}
use authsvc.Sessions.{
  SessionMeta, IssuedSession, has_token, has_id, spend, refresh_ttl, rotate, rotate_row,
  rotate_spent, rotate_unrevoked, rotate_live, insert_session, insert_row, conflicts, references,
}
use authsvc.Sessions.Cases.{new_session, spend_row, add_session}
use authsvc.Sessions.Rotation.{Rotation, aborted, reused, rotated, rotate-Rotation}
use authsvc.Sessions.WellFormed.{WellFormed}

-- s succeeds row: the row was there under the presented token, neither spent nor revoked nor
-- expired when the clock was read, and the new session is its child in the same family.
pub record Succeeds (env : Env) (tok : String) (w w' : World) (s : IssuedSession) (row : Session)
    : Type 0 where
  pub found : select_row (has_token (env.sha256 tok)) w.db.sessions ≡ some row
  pub unspent : row.used_at ≡ none
  pub unrevoked : row.revoked_at ≡ none
  pub read : ℕ
  pub in_time : (w.tick ≤ read) × (env.time read ≤ row.expires_at)
  pub family : s.session.family_id ≡ row.family_id
  pub user : s.session.user_id ≡ row.user_id
  pub client : s.session.client_id ≡ row.client_id
  pub parent : s.session.parent_id ≡ some row.id
  pub expiry : s.session.expires_at ≡ s.session.issued_at + refresh_ttl
  pub hashed : s.session.token_hash ≡ env.sha256 s.refresh_token
  pub spent_at : ℕ
  pub table :
      w'.db.sessions ≡ update (has_id row.id) (spend spent_at) w.db.sessions ++ s.session ∷ []

module _ (env : Env) (tok : String) (m : SessionMeta) (w : World) where
  Rotation-Succeeds :
      (w' : World) (r : Result IssuedSession) (s : IssuedSession)
      → Rotation env tok m w r w'
      → r ≡ ok s
      → (row : Session) × Succeeds env tok w w' s row
  Rotation-Succeeds w' r s (aborted e e' ne same) good = absurd (cc)
  Rotation-Succeeds w' r s (reused row k hk found used e eq) good = absurd (cc)
  Rotation-Succeeds w' r s (rotated row k k' j new hk hk' hj found unused live time e e' ins) good =
      let same : record { session = new; refresh_token = env.secret (suc j) } ≡ s =
        ok-injective (sym e' ∙ good) in
      (
        row,
        rw (← same) (
            rw e (record {
              found = found;
              unspent = unused;
              unrevoked = live;
              read = k;
              in_time = (hk, time);
              family = refl;
              user = refl;
              client = refl;
              parent = refl;
              expiry = refl;
              hashed = refl;
              spent_at = env.time k';
              table =
                  ap (λ (d : Database). d.sessions) ins.added
                  ∙ ap
                      (λ (x : Session).
                        update (has_id row.id) (spend (env.time k')) w.db.sessions ++ x ∷ [])
                      e;
            })),
      )

  -- A session that Rotate issues is the child of the row under the presented token, which was
  -- neither spent, revoked nor expired and which is spent now.
  pub rotate-Succeeds :
      (s : IssuedSession)
      → (rotate env tok m w).0 ≡ ok s
      → (row : Session) × Succeeds env tok w (rotate env tok m w).1 s row
  rotate-Succeeds s good = Rotation-Succeeds _ _ s (rotate-Rotation env m tok w) good

  Rotation-atomic :
      (w' : World) (r : Result IssuedSession) (e : Error)
      → Rotation env tok m w r w'
      → r ≡ err e
      → e ≢ token_reuse
      → w'.db ≡ w.db
  Rotation-atomic w' r e (aborted e' eq ne same) bad other = same
  Rotation-atomic w' r e (reused row k hk found used eq eq') bad other =
      absurd (other (err-injective (sym bad ∙ eq)))
  Rotation-atomic w' r e (rotated row k k' j s hk hk' hj found unused live time e' eq ins) bad
        other =
      absurd (cc)

  -- A Rotate that ends in an error other than ErrTokenReuse changes no table.
  rotate_atomic :
      (e : Error)
      → (rotate env tok m w).0 ≡ err e
      → e ≢ token_reuse
      → (rotate env tok m w).1.db ≡ w.db
  rotate_atomic e bad other = Rotation-atomic _ _ e (rotate-Rotation env m tok w) bad other

insert_row_lem :
    (s : Session) (d : Database)
    → All (λ old. conflicts s old ≡ false) d.sessions
    → references d s ≡ true
    → insert_row s d ≡ some (add_session s d)
unfolding insert_row insert
insert_row_lem s d fresh refs = rw (refs, none-select_row _ d.sessions fresh, insert)

-- No statement fails, and no draw of random bytes.
abbrev pub NoFaults : Env → World → Type 0
NoFaults env w = (k : ℕ) → w.tick ≤ k → env.fails k ≡ false

module _ (env : Env) (tok : String) (m : SessionMeta) (w : World) (row : Session)
    (sound : NoFaults env w)
    (found : select_row (has_token (env.sha256 tok)) w.db.sessions ≡ some row) where
  -- Where nothing fails, presenting the token of a spent row is reported as reuse.
  rotate_detects_reuse : is_some row.used_at ≡ true → (rotate env tok m w).0 ≡ err token_reuse
  unfolding rotate rotate_row rotate_spent ◌>>=◌
  rotate_detects_reuse used = rw (
    sound w.tick (omega arith),
    sound (suc w.tick) (omega arith),
    found,
    used,
    sound (suc (suc (suc w.tick))) (omega arith),
    sound (suc (suc (suc (suc w.tick)))) (omega arith),
  )

-- Neither a ULID nor a token that is drawn from now on is in the table.
abbrev pub IsNew : Env → World → Type 0
IsNew env w =
    (k j : ℕ)
    → w.tick ≤ k
    → w.tick ≤ j
    → All
        (λ (old : Session).
          (old.id == env.ulid k || old.token_hash == env.sha256 (env.secret j)) ≡ false)
        w.db.sessions

module _ (env : Env) (tok : String) (m : SessionMeta) (w : World) (row : Session)
    (sound : NoFaults env w)
    (found : select_row (has_token (env.sha256 tok)) w.db.sessions ≡ some row) where
  -- the number of the n-th event from now
  abbrev ahead : ℕ → ℕ
  ahead zero = w.tick
  ahead (suc n) = suc (ahead n)

  successor : Session
  successor =
      new_session env (ahead 6) (env.ulid (ahead 5)) row.user_id row.client_id row.family_id
        (some row.id) m

  successor-inserted :
      WellFormed w.db
      → IsNew env w
      → insert_row successor (spend_row row.id (env.time (ahead 3)) w.db)
        ≡ some (add_session successor (spend_row row.id (env.time (ahead 3)) w.db))
  unfolding successor
  successor-inserted wf new =
      insert_row_lem successor (spend_row row.id (env.time (ahead 3)) w.db)
        (All-update _ _ (has_id row.id) (spend (env.time (ahead 3))) w.db.sessions (λ s e _. e)
          (λ s e _. e) (new (ahead 5) (ahead 6) (omega arith) (omega arith)))
        (All-select_row _ _ w.db.sessions row wf.refer found)

  -- Where nothing fails and the table is well formed, the token of a row that is neither
  -- spent, revoked nor expired is exchanged for a session, provided that the ULIDs and tokens
  -- drawn from now on are new to the table.
  pub rotate_live_row :
      WellFormed w.db
      → IsNew env w
      → is_some row.used_at ≡ false
      → is_some row.revoked_at ≡ false
      → ltb row.expires_at (env.time (suc (suc w.tick))) ≡ false
      → (s : IssuedSession) × ((rotate env tok m w).0 ≡ ok s)
  unfolding rotate rotate_row rotate_unrevoked rotate_live insert_session ◌>>=◌ successor
  rotate_live_row wf new unused live early = (
    record { session = successor; refresh_token = env.secret (ahead 6) },
    rw (
      sound (ahead 0) (omega arith),
      sound (ahead 1) (omega arith),
      found,
      unused,
      live,
      early,
      sound (ahead 4) (omega arith),
      sound (ahead 6) (omega arith),
      sound (ahead 8) (omega arith),
      successor-inserted wf new,
      sound (ahead 9) (omega arith),
    ),
  )
