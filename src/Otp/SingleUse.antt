-- ===== src/Otp/SingleUse.antt =====
-- Only the newest code of an identifier and purpose can be redeemed, and that once.
use authsvc.Prelude.{
  ℕ, ◌≡◌, refl, ap, ◌≢◌, ◌==◌, eq_iff, Bool, true, false, ◌&&◌, String, List, [], ◌∷◌, arith,
}
use authsvc.Prelude.Lists.{All, All-always, All-append}
use authsvc.Schema.{OtpCode, Purpose}
use authsvc.Exec.{Env, World, Result, ok}
use authsvc.Table.{update}
use authsvc.Table.Laws.{All-update, All-delete}
use authsvc.Otp.{purpose_eq, outstanding, has_id, consume, consume_code, issue_code}
use authsvc.Otp.Guess.{
  Guess, faulty, missing, late, exhausted, counted, burnt, right, consume_code-Guess,
}
use authsvc.Otp.Invariant.{CodesOk, Spends, consume-Spends}
use authsvc.Otp.Trace.{
  CodeOp, issues, guesses, redeems, prunes, apply, run, CodeChange, unchanged, spent, deleted,
  issued,
}
use authsvc.Otp.Issue.{Issuance, void, stored, issue_code-Issuance}
use authsvc.Otp.Newest.{newest-only, newest-matches}
use authsvc.Otp.Change.{apply-CodeChange}

-- does the operation issue a code for this identifier and purpose?
abbrev pub reissues : String → Purpose → CodeOp → Bool
reissues identifier p (issues i q code ttl) = i == identifier && purpose_eq q p
reissues identifier p (guesses i q code) = false
reissues identifier p (redeems q tok) = false
reissues identifier p (prunes grace) = false

module _ (env : Env) (identifier : String) (p : Purpose) (H : String → Type 0) where
  -- the hashes of the codes that are still good satisfy H
  abbrev pub GoodHashes : List OtpCode → Type 0
  GoodHashes = All (λ c. outstanding identifier p c ≡ true → H c.code_hash)

  update-GoodHashes :
      (q : OtpCode → Bool) (f : OtpCode → OtpCode) (rows : List OtpCode)
      → Spends f
      → GoodHashes rows
      → GoodHashes (update q f rows)
  update-GoodHashes q f rows s h =
      All-update _ _ q f rows
        (λ c good _ out.
          rw (s.hash c) (good (ground (arith, s.identifier c, s.purpose c, s.consumed c))))
        (λ c good _. good) h

  Change-GoodHashes :
      (w w' : World) (op : CodeOp)
      → reissues identifier p op ≡ false
      → CodeChange env w w' op
      → GoodHashes w.db.otp_codes
      → GoodHashes w'.db.otp_codes
  Change-GoodHashes w w' op other (unchanged e) h = rw e h
  Change-GoodHashes w w' op other (spent i f s b e) h = rw e (update-GoodHashes (has_id i) f _ s h)
  Change-GoodHashes w w' op other (deleted q e) h = rw e (All-delete _ q w.db.otp_codes h)
  Change-GoodHashes w w' op other (issued i q code ttl k t fresh e) h = rw e (
      All-append _ _ _ (update-GoodHashes (outstanding i q) (consume t) _ (consume-Spends t) h)
        (λ out. absurd (ground arith), tt))

  pub run-GoodHashes :
      (ops : List CodeOp) (w : World)
      → All (λ op. reissues identifier p op ≡ false) ops
      → GoodHashes w.db.otp_codes
      → GoodHashes (run env ops w).db.otp_codes
  unfolding run
  run-GoodHashes [] w other h = h
  run-GoodHashes (op ∷ ops) w other h =
      run-GoodHashes ops (apply env op w) other.1
        (Change-GoodHashes w _ op other.0 (apply-CodeChange env op w) h)

  guess-GoodHashes :
      (code : String) (w w' : World) (r : Result (Unit {0}))
      → GoodHashes w.db.otp_codes
      → Guess env identifier p code w r w'
      → r ≡ ok tt
      → H (env.sha256 code)
  guess-GoodHashes code w w' r h (faulty k e hk bad eq same) good = absurd (cc)
  guess-GoodHashes code w w' r h (missing e eq same) good = absurd (cc)
  guess-GoodHashes code w w' r h (late row k found hk over eq same) good = absurd (cc)
  guess-GoodHashes code w w' r h (exhausted row found full eq same) good = absurd (cc)
  guess-GoodHashes code w w' r h (counted row t j other more eq change) good = absurd (cc)
  guess-GoodHashes code w w' r h (burnt row t k j other last eq change) good = absurd (cc)
  guess-GoodHashes code w w' r h (right row t k j same eq change) good =
      rw (← (eq_iff _ _).0 same) (newest-matches identifier p (λ c. H c.code_hash) _ row j.found h)

module _ (env : Env) (identifier : String) (p : Purpose) where
  -- no code is good for them any more
  abbrev pub NoneGood : List OtpCode → Type 0
  NoneGood = GoodHashes env identifier p (λ h. ⊥)

  Guess-consumes :
      (code : String) (w w' : World) (r : Result (Unit {0}))
      → CodesOk w.db.otp_codes
      → Guess env identifier p code w r w'
      → r ≡ ok tt
      → NoneGood w'.db.otp_codes
  Guess-consumes code w w' r h (faulty k e hk bad eq same) good = absurd (cc)
  Guess-consumes code w w' r h (missing e eq same) good = absurd (cc)
  Guess-consumes code w w' r h (late row k found hk over eq same) good = absurd (cc)
  Guess-consumes code w w' r h (exhausted row found full eq same) good = absurd (cc)
  Guess-consumes code w w' r h (counted row t j other more eq change) good = absurd (cc)
  Guess-consumes code w w' r h (burnt row t k j other last eq change) good = absurd (cc)
  Guess-consumes code w w' r h (right row t k j same eq change) good = rw change (
      All-update _ _ (has_id row.id) (consume (env.time k)) w.db.otp_codes
        (λ c only _ out. absurd (ground arith))
        (λ c only miss out.
          absurd (ground (arith, eq_iff c.id row.id, ap (λ (x : OtpCode). x.id) (only out))))
        (newest-only identifier p w.db.otp_codes row h.one_good j.found))

  -- In a table that satisfies CodesOk, a code that ConsumeCode accepted is spent: no later
  -- guess for the identifier and purpose is accepted, whatever operations come in between, if
  -- none of them issues a code for them again.
  pub consume_code_once :
      (code code' : String) (w : World) (ops : List CodeOp)
      → CodesOk w.db.otp_codes
      → All (λ op. reissues identifier p op ≡ false) ops
      → (consume_code env identifier p code w).0 ≡ ok tt
      → (consume_code env identifier p code'
          (run env ops (consume_code env identifier p code w).1)).0
        ≢ ok tt
  consume_code_once code code' w ops h other good again =
      guess-GoodHashes env identifier p (λ h. ⊥) code' _ _ _
        (run-GoodHashes env identifier p (λ h. ⊥) ops _ other
          (Guess-consumes code w _ _ h (consume_code-Guess env identifier p code w) good))
        (consume_code-Guess env identifier p code' _) again

  issue_leaves_one :
      (code : String) (ttl : ℕ) (w w' : World) (r : Result (Unit {0}))
      → Issuance env identifier p code ttl w r w'
      → r ≡ ok tt
      → GoodHashes env identifier p (λ h. h ≡ env.sha256 code) w'.db.otp_codes
  issue_leaves_one code ttl w w' r (void e same) good = absurd (cc)
  issue_leaves_one code ttl w w' r (stored k t e fresh eq) good = rw eq (
      All-append _ _ _
        (All-update (λ c. Unit {0}) _ (outstanding identifier p) (consume t) w.db.otp_codes
          (λ c _ _ out. absurd (ground arith)) (λ c _ miss out. absurd (cc))
          (All-always _ w.db.otp_codes (λ c. tt)))
        (λ _. refl, tt))

  -- After an IssueCode that succeeds, and operations that issue no other code for the
  -- identifier and purpose, ConsumeCode accepts no guess but those that have the hash of the
  -- code just issued: the older codes are void.
  pub newest_code_only :
      (code guess : String) (ttl : ℕ) (w : World) (ops : List CodeOp)
      → All (λ op. reissues identifier p op ≡ false) ops
      → (issue_code env identifier p code ttl w).0 ≡ ok tt
      → (consume_code env identifier p guess
          (run env ops (issue_code env identifier p code ttl w).1)).0
        ≡ ok tt
      → env.sha256 guess ≡ env.sha256 code
  newest_code_only code guess ttl w ops other issue good =
      guess-GoodHashes env identifier p (λ h. h ≡ env.sha256 code) guess _ _ _
        (run-GoodHashes env identifier p (λ h. h ≡ env.sha256 code) ops _ other
          (issue_leaves_one code ttl w _ _ (issue_code-Issuance env identifier p code ttl w) issue))
        (consume_code-Guess env identifier p guess _) good
