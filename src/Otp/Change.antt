-- ===== src/Otp/Change.antt =====
-- Every operation on codes makes a CodeChange, and keeps the invariant.
use authsvc.Prelude.{
  ℕ, suc, ◌≡◌, refl, false, String, List, [], ◌∷◌, ◌++◌, arith, Bool-cases, inl, inr,
}
use authsvc.Prelude.Lists.{All, All-always, All-append}
use authsvc.Schema.{OtpCode, Purpose}
use authsvc.Exec.{Env, World, Result, ◌>>=◌}
use authsvc.Table.{update}
use authsvc.Table.Laws.{All-update}
use authsvc.Table.Pairwise.{Pairwise-append}
use authsvc.Otp.{outstanding, has_id, consume, prune_codes}
use authsvc.Otp.Guess.{
  Guess, faulty, missing, late, exhausted, counted, burnt, right, consume_code-Guess,
}
use authsvc.Otp.Invariant.{
  CodesOk, update-CodesOk, delete-CodesOk, consume-Spends, count_attempt-Spends, burn-Spends,
}
use authsvc.Otp.Issue.{Issuance, void, stored, issue_code-Issuance}
use authsvc.Otp.Redeem.{Redemption, refused, redeemed, consume_token-Redemption}
use authsvc.Otp.Trace.{
  CodeOp, issues, guesses, redeems, prunes, apply, run, CodeChange, unchanged, spent, deleted,
  issued,
}

module _ (env : Env) where
  Guess-change :
      (identifier : String) (p : Purpose) (code : String) (w w' : World) (r : Result (Unit {0}))
      (op : CodeOp)
      → Guess env identifier p code w r w'
      → CodeChange env w w' op
  Guess-change identifier p code w w' r op (faulty k e hk bad eq same) = unchanged same
  Guess-change identifier p code w w' r op (missing e eq same) = unchanged same
  Guess-change identifier p code w w' r op (late row k found hk over eq same) = unchanged same
  Guess-change identifier p code w w' r op (exhausted row found full eq same) = unchanged same
  Guess-change identifier p code w w' r op (counted row t j other more eq change) =
      spent row.id _ (count_attempt-Spends _) (λ c b. (omega arith, λ _. more)) change
  Guess-change identifier p code w w' r op (burnt row t k j other last eq change) =
      spent row.id _ (burn-Spends _ _) (λ c b. (omega arith, λ e. cc)) change
  Guess-change identifier p code w w' r op (right row t k j same eq change) =
      spent row.id _ (consume-Spends _) (λ c b. (b.0, λ e. cc)) change

  Issuance-change :
      (identifier : String) (p : Purpose) (code : String) (ttl : ℕ) (w w' : World)
      (r : Result (Unit {0}))
      → Issuance env identifier p code ttl w r w'
      → CodeChange env w w' (issues identifier p code ttl)
  Issuance-change identifier p code ttl w w' r (void e same) = unchanged same
  Issuance-change identifier p code ttl w w' r (stored k t e fresh eq) =
      issued identifier p code ttl k t fresh eq

  Redemption-change :
      (p : Purpose) (tok : String) (w w' : World) (r : Result String) (op : CodeOp)
      → Redemption env p tok w r w'
      → CodeChange env w w' op
  Redemption-change p tok w w' r op (refused e eq same) = unchanged same
  Redemption-change p tok w w' r op (redeemed row k t found le early eq change) =
      spent row.id _ (consume-Spends _) (λ c b. (b.0, λ e. cc)) change

  prune_codes-CodeChange :
      (grace : ℕ) (w : World) (op : CodeOp) → CodeChange env w (prune_codes env grace w).1 op
  unfolding prune_codes ◌>>=◌
  prune_codes-CodeChange grace w op = elim (Bool-cases (env.fails (suc w.tick))) [
    | inl e ↦ rw e (unchanged refl)
    | inr e ↦ rw e (deleted _ refl)
  ]

  pub apply-CodeChange : (op : CodeOp) (w : World) → CodeChange env w (apply env op w) op
  unfolding apply
  apply-CodeChange (issues identifier p code ttl) w =
      Issuance-change identifier p code ttl w _ _ (issue_code-Issuance env identifier p code ttl w)
  apply-CodeChange (guesses identifier p code) w =
      Guess-change identifier p code w _ _ _ (consume_code-Guess env identifier p code w)
  apply-CodeChange (redeems p tok) w =
      Redemption-change p tok w _ _ _ (consume_token-Redemption env p tok w)
  apply-CodeChange (prunes grace) w = prune_codes-CodeChange grace w _

  issue-CodesOk :
      (identifier : String) (p : Purpose) (t : ℕ) (c : OtpCode) (rows : List OtpCode)
      → c.identifier ≡ identifier
      → c.purpose ≡ p
      → c.attempts ≡ 0
      → All (λ old. has_id c.id old ≡ false) (update (outstanding identifier p) (consume t) rows)
      → CodesOk rows
      → CodesOk (update (outstanding identifier p) (consume t) rows ++ c ∷ [])
  issue-CodesOk identifier p t c rows id purpose start fresh h =
      let h' =
        update-CodesOk (outstanding identifier p) (consume t) rows (consume-Spends t)
          (λ c b _. (b.0, λ e. absurd (cc))) h in
      record {
        ids = Pairwise-append _ c _ fresh h'.ids;
        bounded = All-append _ _ (c ∷ []) h'.bounded ((omega arith, λ _. omega arith), tt);
        one_good =
            Pairwise-append _ c _
              (All-update (λ y. Unit {0}) _ (outstanding identifier p) (consume t) rows
                (λ y _ _ _. refl) (λ y _ miss same. ground (arith, id, purpose))
                (All-always _ rows (λ y. tt)))
              h'.one_good;
      }

  Change-CodesOk :
      (w w' : World) (op : CodeOp)
      → CodeChange env w w' op
      → CodesOk w.db.otp_codes
      → CodesOk w'.db.otp_codes
  Change-CodesOk w w' op (unchanged e) h = rw e h
  Change-CodesOk w w' op (spent i f s b e) h =
      rw e (update-CodesOk (has_id i) f w.db.otp_codes s (λ c bc _. b c bc) h)
  Change-CodesOk w w' op (deleted p e) h = rw e (delete-CodesOk p w.db.otp_codes h)
  Change-CodesOk w w' op (issued identifier p code ttl k t fresh e) h =
      rw e (issue-CodesOk identifier p t _ w.db.otp_codes refl refl refl fresh h)

  pub apply-CodesOk :
      (op : CodeOp) (w : World) → CodesOk w.db.otp_codes → CodesOk (apply env op w).db.otp_codes
  apply-CodesOk op w h = Change-CodesOk w _ op (apply-CodeChange op w) h

  -- After any operations on codes, ids are distinct, a code that is not consumed has been guessed at
  -- fewer than MaxOTPAttempts times, and of each identifier and purpose one code at most is not
  -- consumed, if it was so before them.
  pub run-CodesOk :
      (ops : List CodeOp) (w : World)
      → CodesOk w.db.otp_codes
      → CodesOk (run env ops w).db.otp_codes
  unfolding run
  run-CodesOk [] w h = h
  run-CodesOk (op ∷ ops) w h = run-CodesOk ops (apply env op w) (apply-CodesOk op w h)
