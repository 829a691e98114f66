-- ===== src/Linking/Examples.antt =====
-- The theorems on account linking at concrete tables, and tests.
use authsvc.Prelude.{◌≡◌, ◌≢◌, refl, true, false, none, [], ◌∷◌}
use authsvc.Schema.{User, Identity}
use authsvc.Exec.{World, ok, err, manual_link_required, ◌>>=◌}
use authsvc.Table.{select_row, insert}
use authsvc.Users.{user_by_email}
use authsvc.Identities.{filled, identity_by_subject, create_identity, insert_identity}
use authsvc.Linking.{
  Profile, existing, linked, created, identity_of, resolve, resolve_known, resolve_owner, owner_of,
  owner_found, link_to_user, link_known,
}
use authsvc.Linking.Safety.{Entitled, resolve-Entitled, resolve-blank_email}
use authsvc.Linking.Keys.{AccountsOk}
use authsvc.Linking.Again.{resolve_again}
use authsvc.Fixtures.{env, world, tables, ann}

abbrev octocat : Profile
octocat = record {
  subject = "42";
  email = "ann@example.org";
  email_verified = true;
  name = "Ann";
  avatar = "";
  raw = none;
}

anns_octocat : (resolve env "github" octocat world).0 ≡ ok (record { user = ann; outcome = linked })
unfolding resolve resolve_known resolve_owner owner_of owner_found user_by_email identity_by_subject
    create_identity insert_identity select_row insert ◌>>=◌
anns_octocat = refl

resolve-Entitled_example : Entitled env "github" octocat tables ann
resolve-Entitled_example =
    resolve-Entitled env "github" octocat (record { user = ann; outcome = linked }) world
      anns_octocat

-- the provider does not vouch for the address
unvouched :
    (resolve env "github" (record octocat { email_verified = false }) world).0
    ≡ err manual_link_required
unfolding resolve resolve_known resolve_owner owner_of owner_found user_by_email identity_by_subject
    select_row ◌>>=◌
unvouched = refl

abbrev nameless : User
nameless = record ann { id = "nameless"; email = "" }

abbrev with_nameless : World
with_nameless = record { db = record tables { users = ann ∷ nameless ∷ [] }; tick = 0 }

resolve-blank_email_example :
    (resolve env "github" (record octocat { email = "" }) with_nameless).0
    ≢ ok (record { user = nameless; outcome = created })
unfolding select_row
resolve-blank_email_example =
    resolve-blank_email env "github" (record octocat { email = "" }) nameless
      (record { user = nameless; outcome = created }) with_nameless refl refl refl

abbrev attached_octocat : Identity
attached_octocat = filled (identity_of "ann" "github" octocat) (env.ulid 1) "ann"

octocat_attached : (link_to_user env "ann" "github" octocat world).0 ≡ ok attached_octocat
unfolding link_to_user link_known identity_by_subject create_identity insert_identity select_row
    insert ◌>>=◌
octocat_attached = refl

tables-AccountsOk : AccountsOk env tables
tables-AccountsOk = record {
  users = (tt, tt);
  emails = (tt, tt);
  identities = tt;
  subjects = tt;
  owned = tt;
}

-- the address changed at the provider, which does not vouch for it any more
abbrev moved_octocat : Profile
moved_octocat = record octocat { email = "cat@example.org"; email_verified = false }

resolve_again_example :
    (resolve env "github" moved_octocat (resolve env "github" octocat world).1).0
    ≡ ok (record { user = ann; outcome = existing })
resolve_again_example =
    resolve_again env "github" octocat moved_octocat (record { user = ann; outcome = linked }) world
      (resolve env "github" octocat world).1 tables-AccountsOk anns_octocat refl refl refl
      (λ k le. refl)
