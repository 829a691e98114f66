-- ===== src/Otp/Examples.antt =====
-- The theorems on codes at concrete tables, and tests.
use authsvc.Prelude.{String, ◌==◌, false, some, eq_iff, ◌≡◌, ◌≢◌, refl, [], ◌∷◌, map, arith}
use authsvc.Exec.{ok, ◌>>=◌}
use authsvc.Schema.{login_otp, password_reset}
use authsvc.Table.{select_row, select, update, insert, delete, affected, order_by, place, first}
use authsvc.Otp.{
  consume_code, consume_code_body, judge, right_guess, newest, issue_code, issue_body, insert_code,
  prune_codes,
}
use authsvc.Otp.Numeric.{count, decimal, pad, pow10, numeric_code, Numeral, numeric_code-Numeral}
use authsvc.Otp.Trace.{guesses, prunes, redeems, issues, apply, run}
use authsvc.Otp.Invariant.{CodesOk}
use authsvc.Otp.Change.{run-CodesOk}
use authsvc.Otp.SingleUse.{consume_code_once, newest_code_only}
use authsvc.Otp.BruteForce.{five_wrong_guesses}
use authsvc.Fixtures.{env, world, tables}

tables-CodesOk : CodesOk tables.otp_codes
tables-CodesOk = record {
  ids = (tt, tt);
  bounded = ((omega arith, λ e. omega arith), tt);
  one_good = (tt, tt);
}

code_accepted : (consume_code env "app|ann@example.org" login_otp "123456" world).0 ≡ ok tt
unfolding consume_code consume_code_body judge right_guess newest select update order_by place first
    ◌>>=◌
code_accepted = refl

consume_code_once_example :
    (consume_code env "app|ann@example.org" login_otp "123456" (
      run env
        (guesses "app|ann@example.org" login_otp "000000" ∷ prunes 5 ∷ [])
        (consume_code env "app|ann@example.org" login_otp "123456" world).1)).0
    ≢ ok tt
consume_code_once_example =
    consume_code_once env "app|ann@example.org" login_otp "123456" "123456" world
      (guesses "app|ann@example.org" login_otp "000000" ∷ prunes 5 ∷ []) tables-CodesOk
      (refl, (refl, tt)) code_accepted

run-CodesOk_example :
    CodesOk
      (run env
        (issues "app|ann@example.org" login_otp "654321" 1000 ∷ redeems password_reset "link" ∷ [])
        world).db.otp_codes
run-CodesOk_example =
    run-CodesOk env
      (issues "app|ann@example.org" login_otp "654321" 1000 ∷ redeems password_reset "link" ∷ [])
      world tables-CodesOk

code_issued : (issue_code env "app|ann@example.org" login_otp "654321" 1000 world).0 ≡ ok tt
unfolding issue_code issue_body insert_code select_row insert update ◌>>=◌
code_issued = refl

newest_accepted :
    (consume_code env "app|ann@example.org" login_otp "654321" (
      run env
        (prunes 5 ∷ [])
        (issue_code env "app|ann@example.org" login_otp "654321" 1000 world).1)).0
    ≡ ok tt
unfolding run apply prune_codes issue_code issue_body insert_code consume_code consume_code_body
    judge right_guess newest select_row select insert update delete affected order_by place first
    ◌>>=◌
newest_accepted = refl

newest_code_only_example : env.sha256 "654321" ≡ env.sha256 "654321"
newest_code_only_example =
    newest_code_only env "app|ann@example.org" login_otp "654321" "654321" 1000 world
      (prunes 5 ∷ []) (refl, tt) code_issued newest_accepted

misses : (g : String) → (g == "123456") ≡ false → env.sha256 g ≢ "123456"
misses g other same = ground (arith, eq_iff g "123456")

five_wrong_guesses_example :
    (consume_code env "app|ann@example.org" login_otp "123456" (
      run env
        (map
          (guesses "app|ann@example.org" login_otp)
          ("000000" ∷ "000001" ∷ "000002" ∷ "000003" ∷ "000004" ∷ []))
        world)).0
    ≢ ok tt
five_wrong_guesses_example =
    five_wrong_guesses env "app|ann@example.org" login_otp (λ i j le. le) "123456"
      ("000000" ∷ "000001" ∷ "000002" ∷ "000003" ∷ "000004" ∷ []) "123456" world (λ k le. refl)
      tables-CodesOk (λ e. refl, tt)
      (
        misses "000000" refl,
        (
          misses "000001" refl,
          (misses "000002" refl, (misses "000003" refl, (misses "000004" refl, tt))),
        ),
      )
      (omega arith)

seven : numeric_code 6 7 ≡ some "000007"
unfolding numeric_code pad decimal count
seven = refl

numeric_code-Numeral_example : (code : String) × ((numeric_code 6 7 ≡ some code) × Numeral 6 7 code)
unfolding pow10
numeric_code-Numeral_example = numeric_code-Numeral 6 7 (omega arith) (omega arith)
