-- ===== src/Sessions/Rotation.antt =====
-- The cases that rotate can end in, put together from those of its parts.
use authsvc.Prelude.{
  ℕ, suc, ◌≤◌, ◌≡◌, refl, ◌≢◌, true, String, none, some, ltb, is_some, arith, Option-cases,
  Bool-cases, inl, inr, is_some-eq_false, le_of_not_ltb,
}
use authsvc.Schema.{Session}
use authsvc.Exec.{
  Env, World, Result, Error, ok, err, failed, not_found, token_reuse, Outcome, commit, continue,
  pure, ◌>>=◌, finish,
}
use authsvc.Table.{select_row}
use authsvc.Sessions.{
  SessionMeta, IssuedSession, insert_session, rotate_spent, rotate_live, rotate_unrevoked,
  rotate_row, rotate, has_token,
}
use authsvc.Sessions.Cases.{
  Inserted, Issue, refused, issued, new_session, spend_row, revoke_rows, insert_session-Issue,
}

-- rotate_live, whose statements run inside the transaction
pub data Live (env : Env) (m : SessionMeta) (row : Session) (w : World)
    (r : Result (Outcome IssuedSession)) (w' : World) : Type 0 where
  broken : r ≡ err failed → Live env m row w r w'
  done :
      (k : ℕ) (s : Session)
      → w.tick ≤ k
      → s
        ≡ new_session env
            (suc k)
            (env.ulid k)
            row.user_id
            row.client_id
            row.family_id
            (some row.id)
            m
      → r ≡ ok (commit (ok (record { session = s; refresh_token = env.secret (suc k) })))
      → Inserted s (spend_row row.id (env.time w.tick) w.db) w'.db
      → Live env m row w r w'

module _ (env : Env) (m : SessionMeta) where
  pub rotate_live-Live :
      (row : Session) (w : World)
      → Live env m row w (rotate_live env m row w).0 (rotate_live env m row w).1
  unfolding rotate_live ◌>>=◌
  rotate_live-Live row w = elim (Bool-cases (env.fails (suc w.tick))) [
    | inl e ↦ rw e (broken refl)
    | inr e ↦ rw e (from_issue (insert_session-Issue env m _ _ _ _ _ _))
  ]
    where
      k : ℕ
      k = suc (suc w.tick)

      w₁ : World
      w₁ = record { db = spend_row row.id (env.time w.tick) w.db; tick = suc k }

      out : Result IssuedSession × World
      out =
          insert_session env (env.ulid k) row.user_id row.client_id row.family_id (some row.id) m w₁

      from_issue :
          Issue env m
            (env.ulid k)
            row.user_id
            row.client_id
            row.family_id
            (some row.id)
            w₁
            out.0
            out.1
          → Live env m row w
              (continue out.0 (λ issued. pure (commit (ok issued))) out.1).0
              (continue out.0 (λ issued. pure (commit (ok issued))) out.1).1
      from_issue (refused e same) = rw e (broken refl)
      from_issue (issued s e e' ins) = rw e' (done k s (omega arith) e refl ins)

-- rotate: nothing happens, or the family of a spent row is revoked, or the row is spent and a
-- successor is issued
pub data Rotation (env : Env) (tok : String) (m : SessionMeta) (w : World)
    (r : Result IssuedSession) (w' : World) : Type 0 where
  aborted : (e : Error) → r ≡ err e → e ≢ token_reuse → w'.db ≡ w.db → Rotation env tok m w r w'
  reused :
      (row : Session) (k : ℕ)
      → w.tick ≤ k
      → select_row (has_token (env.sha256 tok)) w.db.sessions ≡ some row
      → is_some row.used_at ≡ true
      → r ≡ err token_reuse
      → w'.db ≡ revoke_rows row.family_id (env.time k) w.db
      → Rotation env tok m w r w'
  rotated :
      (row : Session) (k k' j : ℕ) (s : Session)
      → w.tick ≤ k
      → w.tick ≤ k'
      → w.tick ≤ j
      → select_row (has_token (env.sha256 tok)) w.db.sessions ≡ some row
      → row.used_at ≡ none
      → row.revoked_at ≡ none
      → env.time k ≤ row.expires_at
      → s
        ≡ new_session env
            (suc j)
            (env.ulid j)
            row.user_id
            row.client_id
            row.family_id
            (some row.id)
            m
      → r ≡ ok (record { session = s; refresh_token = env.secret (suc j) })
      → Inserted s (spend_row row.id (env.time k') w.db) w'.db
      → Rotation env tok m w r w'

module _ (env : Env) (m : SessionMeta) (tok : String) where
  finished : World → Result (Outcome IssuedSession) × World → Result IssuedSession × World
  finished w out = finish env w.db out.0 out.1

  spent_cases :
      (w : World) (row : Session)
      → select_row (has_token (env.sha256 tok)) w.db.sessions ≡ some row
      → is_some row.used_at ≡ true
      → Rotation env tok m w
          (finished w (rotate_spent env row (record { db = w.db; tick = suc (suc w.tick) }))).0
          (finished w (rotate_spent env row (record { db = w.db; tick = suc (suc w.tick) }))).1
  unfolding finished rotate_spent ◌>>=◌
  spent_cases w row found used = elim (Bool-cases (env.fails (suc (suc (suc w.tick))))) [
    | inl e ↦ rw e (aborted failed refl (λ e. cc) refl)
    | inr e ↦ rw e (elim (Bool-cases (env.fails (suc (suc (suc (suc w.tick)))))) [
      | inl e' ↦ rw e' (aborted failed refl (λ e. cc) refl)
      | inr e' ↦ rw e' (reused row (suc (suc w.tick)) (omega arith) found used refl refl)
    ])
  ]

  Live-cases :
      (w w₁ : World) (row : Session) (r : Result (Outcome IssuedSession)) (w₂ : World) (k : ℕ)
      → w.tick ≤ k
      → w.tick ≤ w₁.tick
      → w₁.db ≡ w.db
      → select_row (has_token (env.sha256 tok)) w.db.sessions ≡ some row
      → row.used_at ≡ none
      → row.revoked_at ≡ none
      → env.time k ≤ row.expires_at
      → Live env m row w₁ r w₂
      → Rotation env tok m w (finished w (r, w₂)).0 (finished w (r, w₂)).1
  unfolding finished ◌>>=◌
  Live-cases w w₁ row r w₂ k hk hw same found unused live time (broken e) =
      rw e (aborted failed refl (λ e. cc) refl)
  Live-cases w w₁ row r w₂ k hk hw same found unused live time (done j s hj eq e ins) =
      elim (Bool-cases (env.fails w₂.tick)) [
        | inl e' ↦ rw (e, e') (aborted failed refl (λ e. cc) refl)
        | inr e' ↦
            rw (e, e')
              (rotated row k w₁.tick j s hk hw (omega arith) found unused live time eq refl
                (rw same at ins))
      ]

  row_cases :
      (w : World) (row : Session)
      → select_row (has_token (env.sha256 tok)) w.db.sessions ≡ some row
      → Rotation env tok m w
          (finished w (rotate_row env m row (record { db = w.db; tick = suc (suc w.tick) }))).0
          (finished w (rotate_row env m row (record { db = w.db; tick = suc (suc w.tick) }))).1
  unfolding finished rotate_row rotate_unrevoked ◌>>=◌
  row_cases w row found = elim (Bool-cases (is_some row.used_at)) [
    | inl used ↦ rw used (spent_cases w row found used)
    | inr unused ↦ rw unused (elim (Bool-cases (is_some row.revoked_at)) [
      | inl revoked ↦ rw revoked (aborted not_found refl (λ e. cc) refl)
      | inr live ↦ rw live (elim (Bool-cases (ltb row.expires_at (env.time (suc (suc w.tick))))) [
        | inl late ↦ rw late (aborted not_found refl (λ e. cc) refl)
        | inr early ↦ rw early (
            Live-cases w (record { db = w.db; tick = suc (suc (suc w.tick)) }) row _ _
              (suc (suc w.tick)) (omega arith) (omega arith) refl found (is_some-eq_false _ unused)
              (is_some-eq_false _ live) (le_of_not_ltb _ _ early)
              (rotate_live-Live env m row (record { db = w.db; tick = suc (suc (suc w.tick)) })))
      ])
    ])
  ]

  pub rotate-Rotation :
      (w : World) → Rotation env tok m w (rotate env tok m w).0 (rotate env tok m w).1
  unfolding rotate finished ◌>>=◌
  rotate-Rotation w = elim (Bool-cases (env.fails w.tick)) [
    | inl e ↦ rw e (aborted failed refl (λ e. cc) refl)
    | inr e ↦ rw e (elim (Bool-cases (env.fails (suc w.tick))) [
      | inl e' ↦ rw e' (aborted failed refl (λ e. cc) refl)
      | inr e' ↦
          rw e' (elim (Option-cases (select_row (has_token (env.sha256 tok)) w.db.sessions)) [
            | inl missing ↦ rw missing (aborted not_found refl (λ e. cc) refl)
            | inr (row, found) ↦ rw found (row_cases w row found)
          ])
    ])
  ]
