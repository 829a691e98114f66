-- ===== src/Exec/Steps.antt =====
-- What every action does to the tick and, up to a preorder, to the tables: one rule for each way to
-- build an action.
use authsvc.Prelude.{
  ◌≤◌, ◌≡◌, Bool, true, false, Option, some, arith, Bool-cases, Option-cases, inl, inr,
  if◌then◌else◌,
}
use authsvc.Schema.{Database}
use authsvc.Exec.{
  Env, World, Error, Result, ok, err, Exec, ◌>>=◌, continue, pure, raise, or_else, attempt, now,
  make_ulid, random, query, query_row, exec, exec_returning, exec_checked, Outcome, commit,
  rollback, finish, transaction, next,
}

pub record Preorder (F : Database → Database → Type 0) : Type 0 where
  pub reflexive : (d : Database) → F d d
  pub transitive : {d e f : Database} → F d e → F e f → F d f

pub record Steps (F : Database → Database → Type 0) {A : Type 0} (m : Exec A) : Type 0 where
  pub later : (w : World) → w.tick ≤ (m w).1.tick
  pub related : (w : World) → F w.db (m w).1.db

module _ {F : Database → Database → Type 0} (o : Preorder F) (env : Env) where
  pub Steps-now : Steps F (now env)
  unfolding ◌>>=◌
  Steps-now = record { later = λ w. omega arith; related = λ w. o.reflexive w.db }

  pub Steps-make_ulid : Steps F (make_ulid env)
  unfolding ◌>>=◌
  Steps-make_ulid = record { later = λ w. omega arith; related = λ w. o.reflexive w.db }

  pub Steps-random : Steps F (random env)
  unfolding ◌>>=◌
  Steps-random = record {
    later = λ w. ground arith;
    related = λ w. elim (Bool-cases (env.fails w.tick)) [
      | inl e ↦ rw e (o.reflexive w.db)
      | inr e ↦ rw e (o.reflexive w.db)
    ];
  }

  pub Steps-exec : (f : Database → Database) → ((d : Database) → F d (f d)) → Steps F (exec env f)
  unfolding ◌>>=◌
  Steps-exec f h = record {
    later = λ w. ground arith;
    related = λ w. elim (Bool-cases (env.fails w.tick)) [
      | inl e ↦ rw e (o.reflexive w.db)
      | inr e ↦ rw e (h w.db)
    ];
  }

  pub Steps-exec_checked :
      (f : Database → Option Database)
      → ((d d' : Database) → f d ≡ some d' → F d d')
      → Steps F (exec_checked env f)
  unfolding ◌>>=◌
  Steps-exec_checked f h = record {
    later = λ w. ground arith;
    related = λ w. elim (Bool-cases (env.fails w.tick)) [
      | inl e ↦ rw e (o.reflexive w.db)
      | inr e ↦ rw e (elim (Option-cases (f w.db)) [
        | inl refused ↦ rw refused (o.reflexive w.db)
        | inr (d, done) ↦ rw done (h w.db d done)
      ])
    ];
  }

module _ {F : Database → Database → Type 0} (o : Preorder F) (env : Env) {A : Type 0} where
  pub Steps-exec_returning :
      (f : Database → A × Database)
      → ((d : Database) → F d (f d).1)
      → Steps F (exec_returning env f)
  unfolding ◌>>=◌
  Steps-exec_returning f h = record {
    later = λ w. ground arith;
    related = λ w. elim (Bool-cases (env.fails w.tick)) [
      | inl e ↦ rw e (o.reflexive w.db)
      | inr e ↦ rw e (h w.db)
    ];
  }

  pub Steps-query : (f : Database → A) → Steps F (query env f)
  unfolding ◌>>=◌
  Steps-query f = record {
    later = λ w. ground arith;
    related = λ w. elim (Bool-cases (env.fails w.tick)) [
      | inl e ↦ rw e (o.reflexive w.db)
      | inr e ↦ rw e (o.reflexive w.db)
    ];
  }

  pub Steps-query_row : (f : Database → Option A) → Steps F (query_row env f)
  unfolding ◌>>=◌
  Steps-query_row f = record {
    later = λ w. ground (arith, Option-cases (f w.db));
    related = λ w. elim (Bool-cases (env.fails w.tick)) [
      | inl e ↦ rw e (o.reflexive w.db)
      | inr e ↦ rw e (elim (Option-cases (f w.db)) [
        | inl missing ↦ rw missing (o.reflexive w.db)
        | inr (a, found) ↦ rw found (o.reflexive w.db)
      ])
    ];
  }

module _ {F : Database → Database → Type 0} (o : Preorder F) {A : Type 0} where
  pub Steps-pure : (a : A) → Steps F (pure a)
  unfolding ◌>>=◌
  Steps-pure a = record { later = λ w. omega arith; related = λ w. o.reflexive w.db }

  pub Steps-raise : (e : Error) → Steps F (raise {A = A} e)
  unfolding ◌>>=◌
  Steps-raise e = record { later = λ w. omega arith; related = λ w. o.reflexive w.db }

  pub Steps-or_else : (m : Exec A) (f : Error → Error) → Steps F m → Steps F (or_else m f)
  unfolding ◌>>=◌
  Steps-or_else m f h = record { later = h.later; related = h.related }

  pub Steps-attempt : (m : Exec A) → Steps F m → Steps F (attempt m)
  unfolding ◌>>=◌
  Steps-attempt m h = record { later = h.later; related = h.related }

  pub Steps-if : (b : Bool) (m n : Exec A) → Steps F m → Steps F n → Steps F (if b then m else n)
  Steps-if true m n hm hn = hm
  Steps-if false m n hm hn = hn

module _ {F : Database → Database → Type 0} (o : Preorder F) {A B : Type 0} where
  continue-later :
      (r : Result A) (f : A → Exec B) (w : World)
      → ((a : A) → Steps F (f a))
      → w.tick ≤ (continue r f w).1.tick
  continue-later (ok a) f w h = (h a).later w
  continue-later (err e) f w h = omega arith

  continue-related :
      (r : Result A) (f : A → Exec B) (w : World)
      → ((a : A) → Steps F (f a))
      → F w.db (continue r f w).1.db
  continue-related (ok a) f w h = (h a).related w
  continue-related (err e) f w h = o.reflexive w.db

  pub Steps-bind :
      (m : Exec A) (f : A → Exec B) → Steps F m → ((a : A) → Steps F (f a)) → Steps F (m >>= f)
  unfolding ◌>>=◌
  Steps-bind m f hm hf = record {
    later = λ w. omega (arith, hm.later w, continue-later (m w).0 f (m w).1 hf);
    related = λ w. o.transitive (hm.related w) (continue-related (m w).0 f (m w).1 hf);
  }

module _ {F : Database → Database → Type 0} (o : Preorder F) (env : Env) {A : Type 0} where
  finish-later :
      (d : Database) (r : Result (Outcome A)) (w : World) → w.tick ≤ (finish env d r w).1.tick
  finish-later d (err e) w = omega arith
  finish-later d (ok (rollback e)) w = omega arith
  finish-later d (ok (commit r)) w = ground arith

  finish-related :
      (d : Database) (r : Result (Outcome A)) (w : World) → F d w.db → F d (finish env d r w).1.db
  finish-related d (err e) w h = o.reflexive d
  finish-related d (ok (rollback e)) w h = o.reflexive d
  finish-related d (ok (commit r)) w h = elim (Bool-cases (env.fails w.tick)) [
    | inl e ↦ rw e (o.reflexive d)
    | inr e ↦ rw e h
  ]

  pub Steps-transaction : (m : Exec (Outcome A)) → Steps F m → Steps F (transaction env m)
  unfolding ◌>>=◌
  Steps-transaction m h = record {
    later = λ w. elim (Bool-cases (env.fails w.tick)) [
      | inl e ↦ rw e (omega arith)
      | inr e ↦
          rw e (omega (arith, h.later (next w), finish-later w.db (m (next w)).0 (m (next w)).1))
    ];
    related = λ w. elim (Bool-cases (env.fails w.tick)) [
      | inl e ↦ rw e (o.reflexive w.db)
      | inr e ↦ rw e (finish-related w.db (m (next w)).0 (m (next w)).1 (h.related (next w)))
    ];
  }

pub ruleset steps_rules = (
  Steps-now, Steps-make_ulid, Steps-random, Steps-exec, Steps-exec_checked, Steps-exec_returning,
  Steps-query, Steps-query_row, Steps-pure, Steps-raise, Steps-or_else, Steps-attempt, Steps-if,
  Steps-bind, Steps-transaction,
)

-- The preorder that says nothing: what is left is that the count of events never turns back.
pub data Anything (d d' : Database) : Type 0 where
  anything : Anything d d'

pub any_step : Preorder Anything
any_step = record { reflexive = λ d. anything; transitive = λ p q. anything }
