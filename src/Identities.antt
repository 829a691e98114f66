-- ===== src/Identities.antt =====
-- internal/store/identities.go: the provider accounts that are linked to users.
use authsvc.Prelude.{
  ℕ, ◌==◌, Bool, ◌&&◌, ◌||◌, String, Option, none, some, List, is_some, if◌then◌else◌,
}
use authsvc.Schema.{Database, User, Identity}
use authsvc.Exec.{
  Env, Exec, ok, ◌>>=◌, ◌>>◌, pure, or_else, norows, now, make_ulid, query, query_row, exec_checked,
  Outcome, commit, transaction,
}
use authsvc.Table.{select_row, select, insert, order_by}
use authsvc.Users.{has_id, insert_user}

-- WHERE provider = $1 AND subject = $2
abbrev pub has_subject : String → String → Identity → Bool
has_subject provider subject i = i.provider == provider && i.subject == subject

-- the PRIMARY KEY and UNIQUE (provider, subject)
abbrev pub identity_conflicts : Identity → Identity → Bool
identity_conflicts i old = old.id == i.id || has_subject i.provider i.subject old

abbrev with_identities : Database → Option (List Identity) → Option Database
with_identities d none = none
with_identities d (some rows) = some (record d { identities = rows })

unfoldable pub insert_identity : Identity → Database → Option Database
insert_identity i d =
    if is_some (select_row (has_id i.user_id) d.users)
    then with_identities d (insert (identity_conflicts i) i d.identities)
    else none

-- `if i.RawProfile == nil`
abbrev or_empty : Option String → Option String
or_empty none = some "{}"
or_empty (some raw) = some raw

abbrev pub filled : Identity → String → String → Identity
filled i id user_id = record i { id = id; user_id = user_id; raw_profile = or_empty i.raw_profile }

-- of the new account of CreateUserWithIdentity
abbrev pub new_user : String → String → Bool → ℕ → User
new_user id email vouched t = record {
  id = id;
  email = email;
  email_verified_at = if vouched then some t else none;
  password_hash = none;
  created_at = t;
  updated_at = t;
  disabled_at = none;
}

module _ (env : Env) where
  unfoldable pub identity_by_subject : String → String → Exec Identity
  identity_by_subject provider subject =
      or_else (query_row env (λ d. select_row (has_subject provider subject) d.identities)) norows

  unfoldable pub identities_for_user : String → Exec (List Identity)
  identities_for_user user_id = query env (λ d.
      order_by (λ a b. env.collate a.provider b.provider)
        (select (λ i. i.user_id == user_id) d.identities))

  unfoldable pub create_identity : Identity → Exec Identity
  create_identity i = do
    id ← make_ulid env
    exec_checked env (insert_identity (filled i id i.user_id))
    pure (filled i id i.user_id)

  unfoldable pub user_and_identity : String → Bool → Identity → Exec (Outcome (User × Identity))
  user_and_identity email vouched i = do
    t ← now env
    user_id ← make_ulid env
    exec_checked env (insert_user env (new_user user_id email vouched t))
    id ← make_ulid env
    exec_checked env (insert_identity (filled i id user_id))
    pure (commit (ok (new_user user_id email vouched t, filled i id user_id)))

  unfoldable pub create_user_with_identity : String → Bool → Identity → Exec (User × Identity)
  create_user_with_identity email vouched i = transaction env (user_and_identity email vouched i)
