-- ===== src/Ticket/Cases.antt =====
-- The cases that the redemption of a ticket can end in.
use authsvc.Prelude.{
  ℕ, suc, ◌≤◌, ◌≡◌, refl, String, some, arith, ltb, Bool-cases, Option-cases, inl, inr,
  le_of_not_ltb,
}
use authsvc.Exec.{Env, World, Result, Error, ok, err, failed, not_found, Outcome, ◌>>=◌, finish}
use authsvc.Table.{select_row, update}
use authsvc.Ticket.{Ticket, has_key, unconsumed, take, check_expiry, consume_body, consume_ticket}

module _ {A : Type 0} (t : Ticket A) (env : Env) where
  pub data Taking (secret : String) (w : World) (r : Result A) (w' : World) : Type 0 where
    refused : (e : Error) → r ≡ err e → w'.db ≡ w.db → Taking secret w r w'
    taken :
        (a : A) (k n : ℕ)
        → select_row (unconsumed t (env.sha256 secret)) (t.rows w.db) ≡ some a
        → w.tick ≤ k
        → env.time k ≤ t.expires_at a
        → r ≡ ok a
        → w'.db ≡ t.set_rows (update (has_key t (env.sha256 secret)) (t.stamp n) (t.rows w.db)) w.db
        → Taking secret w r w'

  Taking-case :
      (secret : String) (w : World) (a : A)
      → select_row (unconsumed t (env.sha256 secret)) (t.rows w.db) ≡ some a
      → (out : Result (Outcome A) × World)
      → out
        ≡ check_expiry t env (env.sha256 secret) a (record { db = w.db; tick = suc (suc w.tick) })
      → Taking secret w (finish env w.db out.0 out.1).0 (finish env w.db out.0 out.1).1
  unfolding check_expiry take ◌>>=◌
  Taking-case secret w a found out e =
      rw e (elim (Bool-cases (ltb (t.expires_at a) (env.time (suc (suc w.tick))))) [
        | inl over ↦ rw over (refused not_found refl refl)
        | inr intime ↦ rw intime (elim (Bool-cases (env.fails (suc (suc (suc (suc w.tick)))))) [
          | inl e ↦ rw e (refused failed refl refl)
          | inr e ↦ rw e (elim (Bool-cases (env.fails (suc (suc (suc (suc (suc w.tick))))))) [
            | inl e' ↦ rw e' (refused failed refl refl)
            | inr e' ↦ rw e' (
                taken a (suc (suc w.tick)) (env.time (suc (suc (suc w.tick)))) found (omega arith)
                  (le_of_not_ltb _ _ intime) refl refl)
          ])
        ])
      ])

  pub consume_ticket-Taking :
      (secret : String) (w : World)
      → Taking secret w (consume_ticket t env secret w).0 (consume_ticket t env secret w).1
  unfolding consume_ticket consume_body ◌>>=◌
  consume_ticket-Taking secret w = elim (Bool-cases (env.fails w.tick)) [
    | inl e ↦ rw e (refused failed refl refl)
    | inr e ↦ rw e (elim (Bool-cases (env.fails (suc w.tick))) [
      | inl e' ↦ rw e' (refused not_found refl refl)
      | inr e' ↦
          rw e' (elim (Option-cases (select_row (unconsumed t (env.sha256 secret)) (t.rows w.db))) [
            | inl missing ↦ rw missing (refused not_found refl refl)
            | inr (a, found) ↦ rw found (Taking-case secret w a found _ refl)
          ])
    ])
  ]
