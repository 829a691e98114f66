-- ===== src/Ticket/Lifetime.antt =====
-- A ticket can be redeemed from its creation until its expiry, and no longer.
use authsvc.Prelude.{
  ℕ, zero, suc, ◌≤◌, ◌≡◌, eq_iff, Bool, false, String, none, some, arith, ltb, Bool-cases,
  Option-cases, inl, inr, if◌then◌else◌,
}
use authsvc.Prelude.Lists.{All-mono}
use authsvc.Schema.{Database}
use authsvc.Exec.{Env, World, ok, err, not_found, ◌>>=◌}
use authsvc.Table.{select_row, insert}
use authsvc.Table.Laws.{insert-fresh, select_row-append}
use authsvc.Ticket.{
  Ticket, TicketLaws, has_key, unconsumed, insert_ticket, create_ticket, take, check_expiry,
  consume_body, consume_ticket,
}

module _ {A : Type 0} (t : Ticket A) (env : Env) where
  -- right after a ticket was inserted, the query for its hash finds it
  inserted_found :
      (h : String) (refers : Database → A → Bool) (a : A) (d d' : Database)
      → TicketLaws t
      → t.key a ≡ h
      → t.consumed_at a ≡ none
      → insert_ticket t refers a d ≡ some d'
      → select_row (unconsumed t h) (t.rows d') ≡ some a
  unfolding insert_ticket
  inserted_found h refers a d d' laws key new e = elim (Bool-cases (refers d a)) [
    | inl refs ↦ elim (Option-cases (insert (has_key t (t.key a)) a (t.rows d))) [
      | inl clash ↦ absurd (cc (rw (refs, clash) at e))
      | inr (rows, done) ↦
          let same : t.set_rows rows d ≡ d' = cc (rw (refs, done) at e) in
          let (eq, fresh) = insert-fresh (has_key t (t.key a)) a (t.rows d) done in
          rw (← same, laws.rows-set_rows rows d, eq)
            (select_row-append (unconsumed t h) a (t.rows d)
              (All-mono _ _ (t.rows d) (λ y other. ground (arith, key)) fresh)
              (ground (arith, key, new, eq_iff (t.key a) h)))
    ]
    | inr dangling ↦ absurd (cc (rw dangling at e))
  ]

  module _ (w : World) (sound : (k : ℕ) → w.tick ≤ k → env.fails k ≡ false) where
    -- the number of the n-th event from now
    abbrev ahead : ℕ → ℕ
    ahead zero = w.tick
    ahead (suc n) = suc (ahead n)

    consume_found :
        (secret : String) (a : A) (d : Database)
        → select_row (unconsumed t (env.sha256 secret)) (t.rows d) ≡ some a
        → (consume_ticket t env secret (record { db = d; tick = ahead 2 })).0
          ≡ (if ltb (t.expires_at a) (env.time (ahead 4)) then err not_found else ok a)
    unfolding consume_ticket consume_body check_expiry take ◌>>=◌
    consume_found secret a d found = elim (Bool-cases (ltb (t.expires_at a) (env.time (ahead 4)))) [
      | inl over ↦ rw (sound (ahead 2) (omega arith), sound (ahead 3) (omega arith), found, over)
      | inr intime ↦ rw (
        sound (ahead 2) (omega arith),
        sound (ahead 3) (omega arith),
        found,
        intime,
        sound (ahead 6) (omega arith),
        sound (ahead 7) (omega arith),
      )
    ]

    pub create_consume :
        (secret : String) (refers : Database → A → Bool) (make : ℕ → A)
        → TicketLaws t
        → ((n : ℕ) → t.key (make n) ≡ env.sha256 secret)
        → ((n : ℕ) → t.consumed_at (make n) ≡ none)
        → (create_ticket t env refers make w).0 ≡ ok tt
        → (consume_ticket t env secret (create_ticket t env refers make w).1).0 ≡ (
            if ltb (t.expires_at (make (env.time w.tick))) (env.time (ahead 4))
            then err not_found
            else ok (make (env.time w.tick)))
    unfolding create_ticket ◌>>=◌
    create_consume secret refers make laws key new good =
        elim (Option-cases (insert_ticket t refers (make (env.time w.tick)) w.db)) [
          | inl clash ↦ absurd (cc (rw (sound (ahead 1) (omega arith), clash) at good))
          | inr (d, done) ↦
              rw (sound (ahead 1) (omega arith), done)
                (consume_found secret _ d
                  (inserted_found (env.sha256 secret) refers _ w.db d laws (key _) (new _) done))
        ]
