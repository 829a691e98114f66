-- ===== src/Users.antt =====
-- internal/store/users.go: accounts and the registered apps.
use authsvc.Prelude.{
  ℕ, ◌==◌, Bool, true, false, ◌||◌, String, Option, none, some, List, [], ◌∷◌, coalesce,
  if◌then◌else◌,
}
use authsvc.Schema.{Database, User, Client}
use authsvc.Exec.{
  Env, Exec, ◌>>=◌, ◌>>◌, pure, or_else, norows, now, make_ulid, query, query_row, exec,
  exec_checked,
}
use authsvc.Table.{select_row, update, insert, order_by}

abbrev pub has_id : String → User → Bool
has_id i u = u.id == i

abbrev with_users : Database → Option (List User) → Option Database
with_users d none = none
with_users d (some rows) = some (record d { users = rows })

abbrev with_clients : Database → Option (List Client) → Option Database
with_clients d none = none
with_clients d (some rows) = some (record d { app_clients = rows })

-- UPDATE users SET email_verified_at = COALESCE(email_verified_at, $2), updated_at = $2
abbrev pub verify : ℕ → User → User
verify t u = record u { email_verified_at = coalesce u.email_verified_at t; updated_at = t }

abbrev pub set_hash : String → ℕ → User → User
set_hash hash t u = record u { password_hash = some hash; updated_at = t }

unfoldable pub insert_client : Client → Database → Option Database
insert_client c d = with_clients d (insert (λ old. old.id == c.id) c d.app_clients)

module _ (env : Env) where
  -- emails are compared as citext
  abbrev pub has_email : String → User → Bool
  has_email e u = env.citext u.email == env.citext e

  -- the PRIMARY KEY and the UNIQUE column
  abbrev pub user_conflicts : User → User → Bool
  user_conflicts u old = old.id == u.id || has_email u.email old

  unfoldable pub insert_user : User → Database → Option Database
  insert_user u d = with_users d (insert (user_conflicts u) u d.users)

  unfoldable pub create_user : String → Option String → Exec User
  create_user email password_hash = do
    id ← make_ulid env
    t ← now env
    let u : User = record {
      id = id;
      email = email;
      email_verified_at = none;
      password_hash = password_hash;
      created_at = t;
      updated_at = t;
      disabled_at = none;
    }
    exec_checked env (insert_user u)
    pure u

  unfoldable pub user_by_email : String → Exec User
  user_by_email email = or_else (query_row env (λ d. select_row (has_email email) d.users)) norows

  unfoldable pub user_by_id : String → Exec User
  user_by_id id = or_else (query_row env (λ d. select_row (has_id id) d.users)) norows

  unfoldable pub mark_email_verified : String → Exec (Unit {0})
  mark_email_verified user_id = do
    t ← now env
    exec env (λ d. record d { users = update (has_id user_id) (verify t) d.users })

  unfoldable pub set_password_hash : String → String → Exec (Unit {0})
  set_password_hash user_id hash = do
    t ← now env
    exec env (λ d. record d { users = update (has_id user_id) (set_hash hash t) d.users })

  unfoldable pub create_client : Client → Exec (Unit {0})
  create_client c = exec_checked env (insert_client c)

  unfoldable pub client_by_id : String → Exec Client
  client_by_id id =
      or_else (query_row env (λ d. select_row (λ (c : Client). c.id == id) d.app_clients)) norows

  unfoldable pub list_clients : Exec (List Client)
  list_clients = query env (λ d. order_by (λ a b. env.collate a.id b.id) d.app_clients)

-- an exact match, and nothing looser
unfoldable pub contains : List String → String → Bool
contains [] uri = false
contains (u ∷ us) uri = if u == uri then true else contains us uri

unfoldable pub allows_redirect : Client → String → Bool
allows_redirect c uri = contains c.redirect_uris uri
