-- ===== src/Otp/Issue.antt =====
-- The cases that IssueCode can end in.
use authsvc.Prelude.{
  ℕ, suc, ◌+◌, ◌≡◌, refl, false, String, none, some, [], ◌∷◌, ◌++◌, Bool-cases, Option-cases, inl,
  inr,
}
use authsvc.Prelude.Lists.{All}
use authsvc.Schema.{Database, OtpCode, Purpose}
use authsvc.Exec.{Env, World, Result, ok, err, failed, ◌>>=◌}
use authsvc.Table.{update, insert}
use authsvc.Table.Laws.{insert-fresh}
use authsvc.Otp.{outstanding, has_id, consume, set_codes, insert_code, issue_code, issue_body}

-- the row that IssueCode inserts
abbrev pub new_code : Env → String → String → Purpose → String → ℕ → ℕ → OtpCode
new_code env id identifier p code t ttl = record {
  id = id;
  identifier = identifier;
  code_hash = env.sha256 code;
  purpose = p;
  attempts = 0;
  expires_at = t + ttl;
  consumed_at = none;
  created_at = t;
}

pub data Issuance (env : Env) (identifier : String) (p : Purpose) (code : String) (ttl : ℕ)
    (w : World) (r : Result (Unit {0})) (w' : World) : Type 0 where
  void : r ≡ err failed → w'.db ≡ w.db → Issuance env identifier p code ttl w r w'
  stored :
      (k t : ℕ)
      → r ≡ ok tt
      → All
          (λ c. has_id (env.ulid k) c ≡ false)
          (update (outstanding identifier p) (consume t) w.db.otp_codes)
      → w'.db
        ≡ set_codes
            (λ rows.
              update (outstanding identifier p) (consume t) rows
              ++ new_code env (env.ulid k) identifier p code t ttl ∷ [])
            w.db
      → Issuance env identifier p code ttl w r w'

module _ (env : Env) where
  insert_code-eq_some :
      (c : OtpCode) (d d' : Database)
      → insert_code c d ≡ some d'
      → (d' ≡ set_codes (λ rows. rows ++ c ∷ []) d)
        × All (λ old. has_id c.id old ≡ false) d.otp_codes
  unfolding insert_code
  insert_code-eq_some c d d' e = elim (Option-cases (insert (has_id c.id) c d.otp_codes)) [
    | inl clash ↦ absurd (cc (rw clash at e))
    | inr (rows, new) ↦
        let (rows_eq, fresh) = insert-fresh (has_id c.id) c d.otp_codes new in
        (cc (rows_eq, rw new at e), fresh)
  ]

  pub issue_code-Issuance :
      (identifier : String) (p : Purpose) (code : String) (ttl : ℕ) (w : World)
      → Issuance env identifier p code ttl w
          (issue_code env identifier p code ttl w).0
          (issue_code env identifier p code ttl w).1
  unfolding issue_code issue_body ◌>>=◌
  issue_code-Issuance identifier p code ttl w = elim (Bool-cases (env.fails w.tick)) [
    | inl e ↦ rw e (void refl refl)
    | inr e ↦ rw e (elim (Bool-cases (env.fails (suc (suc w.tick)))) [
      | inl e' ↦ rw e' (void refl refl)
      | inr e' ↦ rw e' (elim (Bool-cases (env.fails (suc (suc (suc (suc w.tick)))))) [
        | inl e'' ↦ rw e'' (void refl refl)
        | inr e'' ↦ rw e'' (elim (Option-cases (insert_code c d)) [
          | inl clash ↦ rw clash (void refl refl)
          | inr (d', done) ↦
              rw done (elim (Bool-cases (env.fails (suc (suc (suc (suc (suc w.tick))))))) [
                | inl broken ↦ rw broken (void refl refl)
                | inr fine ↦
                    rw fine (
                      let (eq, fresh) = insert_code-eq_some c d d' done in stored _ t refl fresh eq)
              ])
        ])
      ])
    ])
  ]
    where
      t : ℕ
      t = env.time (suc w.tick)

      c : OtpCode
      c = new_code env (env.ulid (suc (suc (suc w.tick)))) identifier p code t ttl

      d : Database
      d = set_codes (update (outstanding identifier p) (consume t)) w.db
