-- ===== src/Otp/Trace.antt =====
-- Runs of the code store: every operation that writes the table of codes, in any order, and how
-- one of them can change the table.
use authsvc.Prelude.{ℕ, ◌≡◌, Bool, false, String, List, [], ◌∷◌, ◌++◌}
use authsvc.Prelude.Lists.{All}
use authsvc.Schema.{OtpCode, Purpose}
use authsvc.Exec.{Env, World}
use authsvc.Table.{update, delete}
use authsvc.Otp.{
  outstanding, has_id, consume, set_codes, issue_code, consume_code, consume_token, prune_codes,
}
use authsvc.Otp.Issue.{new_code}
use authsvc.Otp.Invariant.{Bounded, Spends}

pub data CodeOp : Type 0 where
  issues : (identifier : String) (p : Purpose) (code : String) (ttl : ℕ) → CodeOp
  guesses : (identifier : String) (p : Purpose) (code : String) → CodeOp
  redeems : (p : Purpose) (tok : String) → CodeOp
  prunes : (grace : ℕ) → CodeOp

module _ (env : Env) where
  unfoldable pub apply : CodeOp → World → World
  apply (issues identifier p code ttl) w = (issue_code env identifier p code ttl w).1
  apply (guesses identifier p code) w = (consume_code env identifier p code w).1
  apply (redeems p tok) w = (consume_token env p tok w).1
  apply (prunes grace) w = (prune_codes env grace w).1

  unfoldable pub run : List CodeOp → World → World
  run [] w = w
  run (op ∷ ops) w = run ops (apply op w)

pub data CodeChange (env : Env) (w w' : World) : CodeOp → Type 0 where
  unchanged : {op : CodeOp} → w'.db ≡ w.db → CodeChange env w w' op
  spent :
      {op : CodeOp} (i : String) (f : OtpCode → OtpCode)
      → Spends f
      → ((c : OtpCode) → Bounded c → Bounded (f c))
      → w'.db ≡ set_codes (update (has_id i) f) w.db
      → CodeChange env w w' op
  deleted :
      {op : CodeOp} (p : OtpCode → Bool)
      → w'.db ≡ set_codes (delete p) w.db
      → CodeChange env w w' op
  issued :
      (identifier : String) (p : Purpose) (code : String) (ttl : ℕ) (k t : ℕ)
      → All
          (λ c. has_id (env.ulid k) c ≡ false)
          (update (outstanding identifier p) (consume t) w.db.otp_codes)
      → w'.db
        ≡ set_codes
            (λ rows.
              update (outstanding identifier p) (consume t) rows
              ++ new_code env (env.ulid k) identifier p code t ttl ∷ [])
            w.db
      → CodeChange env w w' (issues identifier p code ttl)
