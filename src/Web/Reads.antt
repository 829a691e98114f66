-- ===== src/Web/Reads.antt =====
-- What the calls of the handlers say of the tables: the reads leave them and find their rows there.
use authsvc.Prelude.{
  ℕ, suc, ◌≡◌, ◌==◌, refl, String, Option, some, List, Bool-cases, Option-cases, inl, inr,
}
use authsvc.Schema.{Database, Client, User, Session, RateLimit}
use authsvc.Exec.{Env, World, ok, norows, or_else, query_row, random, ◌>>=◌}
use authsvc.Table.{select_row}
use authsvc.RateLimit.{truncate, count_up, allow}
use authsvc.Users.{client_by_id, user_by_id, has_id}
use authsvc.Sessions.{session_by_id, has_id as has_session_id}
use authsvc.Web.{ask}

module _ {A : Type 0} (env : Env) (f : Database → Option A) (w : World) where
  read-db : (or_else (query_row env f) norows w).1.db ≡ w.db
  unfolding ◌>>=◌
  read-db = elim (Bool-cases (env.fails w.tick)) [
    | inl e ↦ rw e refl
    | inr e ↦ rw e (elim (Option-cases (f w.db)) [
      | inl missing ↦ rw missing refl
      | inr (a, found) ↦ rw found refl
    ])
  ]

  pub read_ok : (a : A) → (or_else (query_row env f) norows w).0 ≡ ok a → f w.db ≡ some a
  unfolding ◌>>=◌
  read_ok a good = elim (Bool-cases (env.fails w.tick)) [
    | inl e ↦ absurd (cc (rw e at good))
    | inr e ↦ elim (Option-cases (f w.db)) [
      | inl missing ↦ absurd (cc (rw (e, missing) at good))
      | inr (b, found) ↦ cc (found, rw (e, found) at good)
    ]
  ]

module _ {A : Type 0} (f : ℕ → Option A) (w : World) where
  pub ask-db : (ask f w).1.db ≡ w.db
  unfolding ask
  ask-db = elim (Option-cases (f w.tick)) [
    | inl refused ↦ rw refused refl
    | inr (a, told) ↦ rw told refl
  ]

  pub ask_ok : (a : A) → (ask f w).0 ≡ ok a → f w.tick ≡ some a
  unfolding ask
  ask_ok a good = elim (Option-cases (f w.tick)) [
    | inl refused ↦ absurd (cc (rw refused at good))
    | inr (b, told) ↦ cc (told, rw told at good)
  ]

pub random-db : (env : Env) (w : World) → (random env w).1.db ≡ w.db
unfolding ◌>>=◌
random-db env w = elim (Bool-cases (env.fails w.tick)) [ inl e ↦ rw e refl | inr e ↦ rw e refl ]

module _ (env : Env) (id : String) (w : World) where
  pub client_by_id-db : (client_by_id env id w).1.db ≡ w.db
  unfolding client_by_id
  client_by_id-db = read-db env _ w

  pub client_by_id_ok :
      (c : Client)
      → (client_by_id env id w).0 ≡ ok c
      → select_row (λ (x : Client). x.id == id) w.db.app_clients ≡ some c
  unfolding client_by_id
  client_by_id_ok c good = read_ok env _ w c good

  pub user_by_id-db : (user_by_id env id w).1.db ≡ w.db
  unfolding user_by_id
  user_by_id-db = read-db env _ w

  pub user_by_id_ok :
      (u : User) → (user_by_id env id w).0 ≡ ok u → select_row (has_id id) w.db.users ≡ some u
  unfolding user_by_id
  user_by_id_ok u good = read_ok env _ w u good

  pub session_by_id-db : (session_by_id env id w).1.db ≡ w.db
  unfolding session_by_id
  session_by_id-db = read-db env _ w

  pub session_by_id_ok :
      (s : Session)
      → (session_by_id env id w).0 ≡ ok s
      → select_row (has_session_id id) w.db.sessions ≡ some s
  unfolding session_by_id
  session_by_id_ok s good = read_ok env _ w s good

-- the limiter writes its own table only
pub allow-db :
    (env : Env) (bucket : String) (n window : ℕ) (w : World)
    → (rows : List RateLimit) × ((allow env bucket n window w).1.db
        ≡ record w.db { rate_limits = rows })
unfolding allow ◌>>=◌
allow-db env bucket n window w = elim (Bool-cases (env.fails (suc w.tick))) [
  | inl e ↦ (w.db.rate_limits, rw e refl)
  | inr e ↦ ((count_up bucket (truncate (env.time w.tick) window) w.db.rate_limits).1, rw e refl)
]
