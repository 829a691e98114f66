-- ===== src/Web/Recipient.antt =====
-- The account that the callback of an OAuth round trip is for, in terms of the tables.
use authsvc.Prelude.{◌≡◌, String, none, some, List}
use authsvc.Prelude.Lists.{Holds}
use authsvc.Schema.{Database, User, OauthFlow}
use authsvc.Schema as Schema
use authsvc.Exec.{Env}
use authsvc.Table.{select_row}
use authsvc.Identities.{has_subject}
use authsvc.Oauth.{CodeData}
use authsvc.Linking.{Profile}
use authsvc.Linking.Reach.{Belongs}
use authsvc.Linking.Safety.{Entitled, by_identity, by_verified_email, by_new_account}

-- the account that a code is for, where d and d' are the tables before and after: the one that asked
-- for the link, or the one that is signed in to
pub data Recipient (env : Env) (provider : String) (p : Profile) (flow : OauthFlow)
    (d d' : Database) (user_id : String) : Type 0 where
  links :
      flow.link_user_id ≡ some user_id
      → ((i : Schema.Identity)
          → select_row (has_subject provider p.subject) d.identities ≡ some i
          → i.user_id ≡ user_id)
      → Belongs provider p.subject user_id d'
      → Recipient env provider p flow d d' user_id
  signs_in :
      (u : User)
      → flow.link_user_id ≡ none
      → u.disabled_at ≡ none
      → u.id ≡ user_id
      → Holds u d'.users
      → Entitled env provider p d u
      → Belongs provider p.subject user_id d'
      → Recipient env provider p flow d d' user_id

-- who is entitled does not depend on the flows
Entitled-flows :
    (env : Env) (provider : String) (p : Profile) (rows : List OauthFlow) (d : Database) (u : User)
    → Entitled env provider p (record d { oauth_flows = rows }) u
    → Entitled env provider p d u
Entitled-flows env provider p rows d u (by_identity i found own) = by_identity i found own
Entitled-flows env provider p rows d u (by_verified_email vouched verified same) =
    by_verified_email vouched verified same
Entitled-flows env provider p rows d u (by_new_account fresh unknown verified) =
    by_new_account fresh unknown verified

pub Recipient-flows :
    (env : Env) (provider : String) (p : Profile) (flow : OauthFlow) (rows : List OauthFlow)
    (d d' : Database) (user_id : String)
    → Recipient env provider p flow (record d { oauth_flows = rows }) d' user_id
    → Recipient env provider p flow d d' user_id
Recipient-flows env provider p flow rows d d' user_id (links asked own after) =
    links asked own after
Recipient-flows env provider p flow rows d d' user_id (signs_in u asked on id row right after) =
    signs_in u asked on id row (Entitled-flows env provider p rows d u right) after

abbrev pub granted_to : OauthFlow → String → CodeData
granted_to flow user_id = record {
  user_id = user_id;
  client_id = flow.client_id;
  redirect_uri = flow.redirect_uri;
}

-- tables with the same accounts and identities as those after the sign-in
pub Belongs-same :
    (provider subject user_id : String) (d d' : Database)
    → d'.identities ≡ d.identities
    → Belongs provider subject user_id d
    → Belongs provider subject user_id d'
Belongs-same provider subject user_id d d' same x = record {
  identity = x.identity;
  found = rw same x.found;
  owner = x.owner;
}
