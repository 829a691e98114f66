-- ===== src/Ticket.antt =====
-- What internal/store/oauth.go does twice, for the state of an OAuth round trip and for an
-- authorization code: a secret is stored hashed with an expiry and redeemed at most once.
pub mod Cases
pub mod Once
pub mod Lifetime
use authsvc.Prelude.{
  ℕ, ◌+◌, ◌≡◌, ◌==◌, Bool, ◌&&◌, String, Option, none, some, List, [], ◌∷◌, ltb, is_none,
  if◌then◌else◌,
}
use authsvc.Schema.{Database}
use authsvc.Exec.{
  Env, World, Exec, ok, not_found, ◌>>=◌, ◌>>◌, pure, or_else, now, query_row, exec, exec_checked,
  Outcome, commit, rollback, transaction,
}
use authsvc.Table.{select_row, update, delete, insert}

-- a table of such secrets, and its columns
pub record Ticket (A : Type 0) : Type 0 where
  pub rows : Database → List A
  pub set_rows : List A → Database → Database
  pub key : A → String
  pub expires_at : A → ℕ
  pub consumed_at : A → Option ℕ
  pub stamp : ℕ → A → A

-- what makes them columns of one table
pub record TicketLaws {A : Type 0} (t : Ticket A) : Type 0 where
  pub rows-set_rows : (rows : List A) (d : Database) → t.rows (t.set_rows rows d) ≡ rows
  pub key-stamp : (n : ℕ) (a : A) → t.key (t.stamp n a) ≡ t.key a
  pub consumed_at-stamp : (n : ℕ) (a : A) → t.consumed_at (t.stamp n a) ≡ some n

module _ {A : Type 0} (t : Ticket A) where
  abbrev pub has_key : String → A → Bool
  has_key h a = t.key a == h

  -- WHERE hash = $1 AND consumed_at IS NULL
  abbrev pub unconsumed : String → A → Bool
  unconsumed h a = t.key a == h && is_none (t.consumed_at a)

  abbrev store_rows : Database → Option (List A) → Option Database
  store_rows d none = none
  store_rows d (some rows) = some (t.set_rows rows d)

  unfoldable pub insert_ticket : (Database → A → Bool) → A → Database → Option Database
  insert_ticket refers a d =
      if refers d a then store_rows d (insert (has_key (t.key a)) a (t.rows d)) else none

  module _ (env : Env) where
    -- INSERT of a row that is made from the time
    unfoldable pub create_ticket : (Database → A → Bool) → (ℕ → A) → Exec (Unit {0})
    create_ticket refers make = do n ← now env; exec_checked env (insert_ticket refers (make n))

    unfoldable pub take : String → A → Exec (Outcome A)
    take h a = do
      n ← now env
      exec env (λ d. t.set_rows (update (has_key h) (t.stamp n) (t.rows d)) d)
      pure (commit (ok a))

    unfoldable pub check_expiry : String → A → Exec (Outcome A)
    check_expiry h a = do
      n ← now env
      if ltb (t.expires_at a) n then pure (rollback not_found) else take h a

    unfoldable pub consume_body : String → Exec (Outcome A)
    consume_body secret = do
      a ←
          or_else (query_row env (λ d. select_row (unconsumed (env.sha256 secret)) (t.rows d)))
            (λ e. not_found)
      check_expiry (env.sha256 secret) a

    unfoldable pub consume_ticket : String → Exec A
    consume_ticket secret = transaction env (consume_body secret)

    -- DELETE … WHERE expires_at < cutoff
    unfoldable pub delete_expired : ℕ → Exec (Unit {0})
    delete_expired cutoff =
        exec env (λ d. t.set_rows (delete (λ a. ltb (t.expires_at a) cutoff) (t.rows d)) d)

-- the operations on such a table
pub data TicketOp (A : Type 0) : Type 0 where
  creates : (refers : Database → A → Bool) (make : ℕ → A) → TicketOp A
  consumes : (secret : String) → TicketOp A
  deletes : (cutoff : ℕ) → TicketOp A

module _ {A : Type 0} (t : Ticket A) (env : Env) where
  unfoldable pub apply : TicketOp A → World → World
  apply (creates refers make) w = (create_ticket t env refers make w).1
  apply (consumes secret) w = (consume_ticket t env secret w).1
  apply (deletes cutoff) w = (delete_expired t env cutoff w).1

  unfoldable pub run : List (TicketOp A) → World → World
  run [] w = w
  run (op ∷ ops) w = run ops (apply op w)
