-- ===== src/Otp/Redeem.antt =====
-- The cases that the redemption of an emailed token, consume_token, can end in.
use authsvc.Prelude.{
  suc, ◌≤◌, ◌≡◌, refl, ℕ, String, some, arith, ltb, Bool-cases, Option-cases, inl, inr,
  le_of_not_ltb,
}
use authsvc.Schema.{OtpCode, Purpose}
use authsvc.Exec.{Env, World, Result, Error, ok, err, failed, code_invalid, Outcome, ◌>>=◌, finish}
use authsvc.Table.{select_row, update}
use authsvc.Otp.{
  outstanding_token, has_id, consume, set_codes, redeem, consume_token, consume_token_body,
}

pub data Redemption (env : Env) (p : Purpose) (tok : String) (w : World) (r : Result String)
    (w' : World) : Type 0 where
  refused : (e : Error) → r ≡ err e → w'.db ≡ w.db → Redemption env p tok w r w'
  redeemed :
      (row : OtpCode) (k t : ℕ)
      → select_row (outstanding_token (env.sha256 tok) p) w.db.otp_codes ≡ some row
      → w.tick ≤ k
      → env.time k ≤ row.expires_at
      → r ≡ ok row.identifier
      → w'.db ≡ set_codes (update (has_id row.id) (consume t)) w.db
      → Redemption env p tok w r w'

module _ (env : Env) (p : Purpose) (tok : String) (w : World) where
  redeem_case :
      (row : OtpCode)
      → select_row (outstanding_token (env.sha256 tok) p) w.db.otp_codes ≡ some row
      → (out : Result (Outcome String) × World)
      → out
        ≡ redeem env row
            (env.time (suc (suc w.tick)))
            (record { db = w.db; tick = suc (suc (suc w.tick)) })
      → Redemption env p tok w (finish env w.db out.0 out.1).0 (finish env w.db out.0 out.1).1
  unfolding redeem ◌>>=◌
  redeem_case row found out e =
      rw e (elim (Bool-cases (ltb row.expires_at (env.time (suc (suc w.tick))))) [
        | inl over ↦ rw over (refused code_invalid refl refl)
        | inr intime ↦ rw intime (elim (Bool-cases (env.fails (suc (suc (suc (suc w.tick)))))) [
          | inl e ↦ rw e (refused failed refl refl)
          | inr e ↦ rw e (elim (Bool-cases (env.fails (suc (suc (suc (suc (suc w.tick))))))) [
            | inl e' ↦ rw e' (refused failed refl refl)
            | inr e' ↦ rw e' (
                redeemed row (suc (suc w.tick)) (env.time (suc (suc (suc w.tick)))) found
                  (omega arith) (le_of_not_ltb _ _ intime) refl refl)
          ])
        ])
      ])

  pub consume_token-Redemption :
      Redemption env p tok w (consume_token env p tok w).0 (consume_token env p tok w).1
  unfolding consume_token consume_token_body ◌>>=◌
  consume_token-Redemption = elim (Bool-cases (env.fails w.tick)) [
    | inl e ↦ rw e (refused failed refl refl)
    | inr e ↦ rw e (elim (Bool-cases (env.fails (suc w.tick))) [
      | inl e' ↦ rw e' (refused code_invalid refl refl)
      | inr e' ↦
          rw e'
            (elim (Option-cases
              (select_row (outstanding_token (env.sha256 tok) p) w.db.otp_codes)) [
                | inl missing ↦ rw missing (refused code_invalid refl refl)
                | inr (row, found) ↦ rw found (redeem_case row found _ refl)
              ])
    ])
  ]
