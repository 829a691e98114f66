-- ===== src/Web/Blind.antt =====
-- Calls that do not look at the accounts: on other users they give the same result and leave the same
-- tables, but for those users.
use authsvc.Prelude.{ℕ, ◌≡◌, refl, Option, none, some, List, Bool-cases, Option-cases, inl, inr}
use authsvc.Schema.{Database, User}
use authsvc.Exec.{
  Env, World, Exec, Error, Result, Outcome, ok, err, commit, rollback, ◌>>=◌, pure, or_else, now,
  make_ulid, query_row, exec, exec_checked, exec_returning, transaction, finish, next,
}
use authsvc.Web.Cases.{Result-cases}
use authsvc.Web.{Handler, checked, ask}

abbrev pub other_users : List User → World → World
other_users us w = record w { db = record w.db { users = us } }

abbrev pub Blind : {A : Type 0} → Exec A → Type 0
Blind m = (us : List User) (w : World) → m (other_users us w) ≡ ((m w).0, other_users us (m w).1)

-- a handler that replies the same
abbrev pub Alike : Handler → Type 0
Alike h = (us : List User) (w : World) → (h (other_users us w)).0 ≡ (h w).0

abbrev pub with_other : List User → Option Database → Option Database
with_other us none = none
with_other us (some d) = some (record d { users = us })

module _ {A B : Type 0} (m : Exec A) (f : A → Exec B) where
  pub bind-Blind : Blind m → ((a : A) → Blind (f a)) → Blind (m >>= f)
  unfolding ◌>>=◌
  bind-Blind hm hf us w = elim (Result-cases (m w).0) [
    | inl (e, failing) ↦ rw (hm us w, failing) refl
    | inr (a, done) ↦ rw (hm us w, done) (hf a us (m w).1)
  ]

module _ {A : Type 0} (m : Exec A) where
  pub or_else-Blind : (f : Error → Error) → Blind m → Blind (or_else m f)
  unfolding ◌>>=◌
  or_else-Blind f hm us w = rw (hm us w) refl

pub pure-Blind : {A : Type 0} (a : A) → Blind (pure a)
unfolding ◌>>=◌
pure-Blind a us w = refl

module _ (env : Env) where
  pub now-Blind : Blind (now env)
  unfolding ◌>>=◌
  now-Blind us w = refl

  pub make_ulid-Blind : Blind (make_ulid env)
  unfolding ◌>>=◌
  make_ulid-Blind us w = refl

  pub query_row-Blind :
      {A : Type 0} (f : Database → Option A)
      → ((us : List User) (d : Database) → f (record d { users = us }) ≡ f d)
      → Blind (query_row env f)
  unfolding ◌>>=◌
  query_row-Blind f h us w = elim (Bool-cases (env.fails w.tick)) [
    | inl e ↦ rw e refl
    | inr e ↦ elim (Option-cases (f w.db)) [
      | inl missing ↦ rw (e, h us w.db, missing) refl
      | inr (a, found) ↦ rw (e, h us w.db, found) refl
    ]
  ]

  pub exec-Blind :
      (f : Database → Database)
      → ((us : List User) (d : Database)
          → f (record d { users = us }) ≡ record (f d) { users = us })
      → Blind (exec env f)
  unfolding ◌>>=◌
  exec-Blind f h us w = elim (Bool-cases (env.fails w.tick)) [
    | inl e ↦ rw e refl
    | inr e ↦ rw (e, h us w.db) refl
  ]

  pub exec_returning-Blind :
      {A : Type 0} (f : Database → A × Database)
      → ((us : List User) (d : Database)
          → f (record d { users = us }) ≡ ((f d).0, record (f d).1 { users = us }))
      → Blind (exec_returning env f)
  unfolding ◌>>=◌
  exec_returning-Blind f h us w = elim (Bool-cases (env.fails w.tick)) [
    | inl e ↦ rw e refl
    | inr e ↦ rw (e, h us w.db) refl
  ]

  pub exec_checked-Blind :
      (f : Database → Option Database)
      → ((us : List User) (d : Database) → f (record d { users = us }) ≡ with_other us (f d))
      → Blind (exec_checked env f)
  unfolding ◌>>=◌
  exec_checked-Blind f h us w = elim (Bool-cases (env.fails w.tick)) [
    | inl e ↦ rw e refl
    | inr e ↦ elim (Option-cases (f w.db)) [
      | inl missing ↦ rw (e, h us w.db, missing) refl
      | inr (d, done) ↦ rw (e, h us w.db, done) refl
    ]
  ]

  finish-Blind :
      {A : Type 0} (d : Database) (r : Result (Outcome A)) (us : List User) (w : World)
      → finish env (record d { users = us }) r (other_users us w)
        ≡ ((finish env d r w).0, other_users us (finish env d r w).1)
  finish-Blind d (err e) us w = refl
  finish-Blind d (ok (rollback e)) us w = refl
  finish-Blind d (ok (commit r)) us w = elim (Bool-cases (env.fails w.tick)) [
    | inl e ↦ rw e refl
    | inr e ↦ rw e refl
  ]

  pub transaction-Blind : {A : Type 0} (m : Exec (Outcome A)) → Blind m → Blind (transaction env m)
  unfolding ◌>>=◌
  transaction-Blind m hm us w = elim (Bool-cases (env.fails w.tick)) [
    | inl e ↦ rw e refl
    | inr e ↦ rw (e, hm us (next w)) (finish-Blind w.db (m (next w)).0 us (m (next w)).1)
  ]

module _ {A : Type 0} (f : ℕ → Option A) where
  pub ask-Blind : Blind (ask f)
  unfolding ask
  ask-Blind us w = elim (Option-cases (f w.tick)) [
    | inl refused ↦ rw refused refl
    | inr (a, told) ↦ rw told refl
  ]

module _ {A : Type 0} (m : Exec A) (bad : Error → Handler) (good : A → Handler) where
  pub checked-Alike :
      Blind m
      → ((e : Error) → Alike (bad e))
      → ((a : A) → Alike (good a))
      → Alike (checked m bad good)
  unfolding checked
  checked-Alike hm hb hg us w = elim (Result-cases (m w).0) [
    | inl (e, failing) ↦ rw (hm us w, failing) (hb e us (m w).1)
    | inr (a, done) ↦ rw (hm us w, done) (hg a us (m w).1)
  ]
