-- ===== src/Linking.antt =====
-- internal/linking/linking.go: which account an OAuth profile signs in to.
pub mod Rows
pub mod Cases
pub mod Attach
pub mod Reach
pub mod Safety
pub mod Keys
pub mod Again
mod Examples
use authsvc.Prelude.{◌==◌, Bool, not, ◌||◌, String, Option, none, some, if◌then◌else◌}
use authsvc.Schema.{User, Identity, email_verified}
use authsvc.Exec.{
  Env, Exec, Result, ok, err, not_found, no_subject, manual_link_required, already_linked_elsewhere,
  ◌>>=◌, pure, raise, attempt,
}
use authsvc.Users.{user_by_email, user_by_id}
use authsvc.Identities.{identity_by_subject, create_identity, create_user_with_identity}

-- internal/oauth/oauth.go: Profile
pub record Profile : Type 0 where
  pub subject : String
  pub email : String
  pub email_verified : Bool
  pub name : String
  pub avatar : String
  pub raw : Option String

-- The constructors are OutcomeExisting, OutcomeLinked and OutcomeCreated.
pub data LinkOutcome : Type 0 where
  existing linked created : LinkOutcome

pub record Resolved : Type 0 where
  pub user : User
  pub outcome : LinkOutcome

-- the Go zero values stand for the fields that the store fills in
abbrev pub identity_of : String → String → Profile → Identity
identity_of user_id provider p = record {
  id = "";
  user_id = user_id;
  provider = provider;
  subject = p.subject;
  email = p.email;
  email_verified = p.email_verified;
  raw_profile = p.raw;
}

module _ (env : Env) where
  unfoldable pub owner_found : Result User → Exec (Option User)
  owner_found (ok u) = pure (some u)
  owner_found (err not_found) = pure none
  owner_found (err e) = raise e

  unfoldable pub owner_of : String → Exec (Option User)
  owner_of email =
      if email == "" then pure none else (do r ← attempt (user_by_email env email); owner_found r)

  unfoldable pub resolve_owner : String → Profile → Option User → Exec Resolved
  resolve_owner provider p none = do
    made ← create_user_with_identity env p.email p.email_verified (identity_of "" provider p)
    pure (record { user = made.0; outcome = created })
  resolve_owner provider p (some owner) =
      if not p.email_verified || not (email_verified owner) then raise manual_link_required else (do
        made ← create_identity env (identity_of owner.id provider p)
        pure (record { user = owner; outcome = linked }))

  unfoldable pub resolve_known : String → Profile → Result Identity → Exec Resolved
  resolve_known provider p (ok i) = do
    u ← user_by_id env i.user_id
    pure (record { user = u; outcome = existing })
  resolve_known provider p (err not_found) = do
    owner ← owner_of p.email
    resolve_owner provider p owner
  resolve_known provider p (err e) = raise e

  unfoldable pub resolve : String → Profile → Exec Resolved
  resolve provider p = if p.subject == "" then raise no_subject else (do
    known ← attempt (identity_by_subject env provider p.subject)
    resolve_known provider p known)

  unfoldable pub link_known : String → String → Profile → Result Identity → Exec Identity
  link_known user_id provider p (ok i) =
      if i.user_id == user_id then pure i else raise already_linked_elsewhere
  link_known user_id provider p (err not_found) =
      create_identity env (identity_of user_id provider p)
  link_known user_id provider p (err e) = raise e

  unfoldable pub link_to_user : String → String → Profile → Exec Identity
  link_to_user user_id provider p = if p.subject == "" then raise no_subject else (do
    known ← attempt (identity_by_subject env provider p.subject)
    link_known user_id provider p known)
