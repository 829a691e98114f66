-- ===== src/Ticket/Once.antt =====
-- A ticket is redeemed at most once.
use authsvc.Prelude.{
  ℕ, suc, ◌≡◌, refl, ◌≢◌, ◌==◌, Bool, true, false, String, some, List, [], ◌∷◌, arith, is_none,
  Bool-cases, Option-cases, inl, inr,
}
use authsvc.Prelude.Lists.{All, All-always, All-append}
use authsvc.Schema.{Database}
use authsvc.Exec.{Env, World, Result, ok, ◌>>=◌}
use authsvc.Table.{update, insert}
use authsvc.Table.Laws.{All-update, All-delete, All-select_row, select_row-matches, insert-fresh}
use authsvc.Ticket.{
  Ticket, TicketLaws, has_key, insert_ticket, create_ticket, consume_ticket, delete_expired,
  TicketOp, creates, consumes, deletes, apply, run,
}
use authsvc.Ticket.Cases.{Taking, refused, taken, consume_ticket-Taking}

module _ {A : Type 0} (t : Ticket A) (env : Env) where
  -- Every ticket with this hash was redeemed.
  abbrev pub IsTaken : String → List A → Type 0
  IsTaken h = All (λ a. (t.key a == h) ≡ true → is_none (t.consumed_at a) ≡ false)

  -- the operation creates no ticket with this hash
  abbrev pub Spares : String → TicketOp A → Type 0
  Spares h (creates refers make) = (n : ℕ) → (t.key (make n) == h) ≡ false
  Spares h (consumes secret) = Unit
  Spares h (deletes cutoff) = Unit

  insert_ticket-IsTaken :
      (h : String) (refers : Database → A → Bool) (a : A) (d d' : Database)
      → TicketLaws t
      → (t.key a == h) ≡ false
      → insert_ticket t refers a d ≡ some d'
      → IsTaken h (t.rows d)
      → IsTaken h (t.rows d')
  unfolding insert_ticket
  insert_ticket-IsTaken h refers a d d' laws other e old = elim (Bool-cases (refers d a)) [
    | inl refs ↦ elim (Option-cases (insert (has_key t (t.key a)) a (t.rows d))) [
      | inl clash ↦ absurd (cc (rw (refs, clash) at e))
      | inr (rows, new) ↦
          let same : t.set_rows rows d ≡ d' = cc (rw (refs, new) at e) in
          rw (← same, laws.rows-set_rows rows d, (insert-fresh _ a (t.rows d) new).0)
            (All-append _ (t.rows d) (a ∷ []) old (λ hit. absurd (cc), tt))
    ]
    | inr dangling ↦ absurd (cc (rw dangling at e))
  ]

  create_ticket-IsTaken :
      (h : String) (refers : Database → A → Bool) (make : ℕ → A) (w : World)
      → TicketLaws t
      → ((n : ℕ) → (t.key (make n) == h) ≡ false)
      → IsTaken h (t.rows w.db)
      → IsTaken h (t.rows (create_ticket t env refers make w).1.db)
  unfolding create_ticket ◌>>=◌
  create_ticket-IsTaken h refers make w laws other old =
      elim (Bool-cases (env.fails (suc w.tick))) [
        | inl e ↦ rw e old
        | inr e ↦ rw e (elim (Option-cases (insert_ticket t refers (make (env.time w.tick)) w.db)) [
          | inl clash ↦ rw clash old
          | inr (d, done) ↦
              rw done (insert_ticket-IsTaken h refers _ w.db d laws (other _) done old)
        ])
      ]

  stamp-IsTaken :
      (h k : String) (n : ℕ) (rows : List A)
      → TicketLaws t
      → IsTaken h rows
      → IsTaken h (update (has_key t k) (t.stamp n) rows)
  stamp-IsTaken h k n rows laws old =
      All-update _ _ (has_key t k) (t.stamp n) rows
        (λ a _ _ _. rw (laws.consumed_at-stamp n a) refl) (λ a o _. o) old

  Taking-IsTaken :
      (h secret : String) (w w' : World) (r : Result A)
      → TicketLaws t
      → Taking t env secret w r w'
      → IsTaken h (t.rows w.db)
      → IsTaken h (t.rows w'.db)
  Taking-IsTaken h secret w w' r laws (refused e eq same) old = rw same old
  Taking-IsTaken h secret w w' r laws (taken a k n found le early eq change) old =
      rw (change, laws.rows-set_rows _ w.db) (stamp-IsTaken h _ n _ laws old)

  delete_expired-IsTaken :
      (h : String) (cutoff : ℕ) (w : World)
      → TicketLaws t
      → IsTaken h (t.rows w.db)
      → IsTaken h (t.rows (delete_expired t env cutoff w).1.db)
  unfolding delete_expired ◌>>=◌
  delete_expired-IsTaken h cutoff w laws old = elim (Bool-cases (env.fails w.tick)) [
    | inl e ↦ rw e old
    | inr e ↦ rw (e, laws.rows-set_rows _ w.db) (All-delete _ _ (t.rows w.db) old)
  ]

  run-IsTaken :
      (h : String) (ops : List (TicketOp A)) (w : World)
      → TicketLaws t
      → All (Spares h) ops
      → IsTaken h (t.rows w.db)
      → IsTaken h (t.rows (run t env ops w).db)
  unfolding run apply
  run-IsTaken h [] w laws spare old = old
  run-IsTaken h (creates refers make ∷ ops) w laws spare old =
      run-IsTaken h ops _ laws spare.1 (create_ticket-IsTaken h refers make w laws spare.0 old)
  run-IsTaken h (consumes secret ∷ ops) w laws spare old =
      run-IsTaken h ops _ laws spare.1
        (Taking-IsTaken h secret w _ _ laws (consume_ticket-Taking t env secret w) old)
  run-IsTaken h (deletes cutoff ∷ ops) w laws spare old =
      run-IsTaken h ops _ laws spare.1 (delete_expired-IsTaken h cutoff w laws old)

  took-IsTaken :
      (secret : String) (a : A) (w w' : World) (r : Result A)
      → TicketLaws t
      → Taking t env secret w r w'
      → r ≡ ok a
      → IsTaken (env.sha256 secret) (t.rows w'.db)
  took-IsTaken secret a w w' r laws (refused e eq same) good = absurd (cc)
  took-IsTaken secret a w w' r laws (taken a' k n found le early eq change) good =
      rw (change, laws.rows-set_rows _ w.db)
        (All-update (λ x. Unit {0}) _ (has_key t (env.sha256 secret)) (t.stamp n) (t.rows w.db)
          (λ x _ _ _. rw (laws.consumed_at-stamp n x) refl) (λ x _ miss hit. absurd (cc))
          (All-always _ (t.rows w.db) (λ x. tt)))

  taken_once :
      (secret : String) (a : A) (w w' : World) (r : Result A)
      → IsTaken (env.sha256 secret) (t.rows w.db)
      → Taking t env secret w r w'
      → r ≢ ok a
  taken_once secret a w w' r old (refused e eq same) good = cc
  taken_once secret a w w' r old (taken a' k n found le early eq change) good =
      let gone = All-select_row _ _ (t.rows w.db) a' old found in
      let here = select_row-matches _ (t.rows w.db) a' found in ground (arith, gone)

  -- A secret that was redeemed is not redeemed again, whatever operations come in between, if none
  -- of them creates a ticket with its hash.
  pub consume_ticket_once :
      (secret : String) (a a' : A) (w : World) (ops : List (TicketOp A))
      → TicketLaws t
      → All (Spares (env.sha256 secret)) ops
      → (consume_ticket t env secret w).0 ≡ ok a
      → (consume_ticket t env secret (run t env ops (consume_ticket t env secret w).1)).0 ≢ ok a'
  consume_ticket_once secret a a' w ops laws spare good =
      taken_once secret a' _ _ _
        (run-IsTaken (env.sha256 secret) ops _ laws spare
          (took-IsTaken secret a w _ _ laws (consume_ticket-Taking t env secret w) good))
        (consume_ticket-Taking t env secret _)
