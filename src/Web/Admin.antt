-- ===== src/Web/Admin.antt =====
-- internal/httpapi/admin.go, and requireAdmin of middleware.go: the registration of apps.
use authsvc.Prelude.{
  ℕ, ◌≡◌, ◌≢◌, refl, ◌==◌, false, ◌||◌, String, Option, none, some, List, [], ◌∷◌, ◌++◌, ◌∙◌, arith,
  map, Bool-cases, inl, inr, Option-cases, if◌then◌else◌,
}
use authsvc.Prelude.Lists.{All, All-mono}
use authsvc.Schema.{Client}
use authsvc.Exec.{Env, World, ok, random, ◌>>=◌}
use authsvc.Table.{insert}
use authsvc.Table.Laws.{insert-fresh}
use authsvc.Users.{insert_client, create_client, list_clients}
use authsvc.Web.{
  unset, app_created, apps, AppView, Site, Reply, Handler, answer, write_err, checked, or_internal,
  ask,
}
use authsvc.Web.Redirect.{
  Url, all_valid, SafeRedirect, other_than, all_valid-All, valid_redirect-SafeRedirect,
}
use authsvc.Web.Cases.{checked_both}
use authsvc.Web.Reads.{random-db, ask_ok, ask-db}

-- createClientReq
pub record ClientReq : Type 0 where
  pub id : String
  pub name : String
  pub redirect_uris : List String
  pub audience : String

abbrev audience_of : ClientReq → String
audience_of req = if req.audience == "" then req.id else req.audience

abbrev app_view : Client → AppView
app_view c = record {
  id = c.id;
  name = c.name;
  audience = c.audience;
  redirect_uris = c.redirect_uris;
}

-- the row that is made of a request
abbrev client_of : ClientReq → String → Client
client_of req hash = record {
  id = req.id;
  name = req.name;
  secret_hash = hash;
  redirect_uris = req.redirect_uris;
  audience = audience_of req;
}

module _ (site : Site) where
  -- any error of CreateClient is answered as a conflict
  unfoldable pub register_client : ClientReq → Handler
  register_client req = or_internal (random site.env) (λ secret.
      or_internal (ask (λ k. site.hash_password k secret)) (λ hash.
        checked (create_client site.env (client_of req hash))
          (λ e. answer (write_err 409 "client_exists"))
          (λ _. answer (record {
            status = 201;
            cookie = unset;
            background = none;
            body = app_created (app_view (client_of req hash)) secret;
          }))))

  unfoldable pub handle_create_client : (String → Option Url) → ClientReq → Handler
  handle_create_client parse req =
      if req.id == "" || req.name == ""
      then answer (write_err 400 "invalid_request")
      else if all_valid parse req.redirect_uris
      then register_client req
      else answer (write_err 400 "invalid_redirect_uri")

  unfoldable pub handle_list_clients : Handler
  handle_list_clients = or_internal (list_clients site.env) (λ rows.
      answer (record {
        status = 200;
        cookie = unset;
        background = none;
        body = apps (map app_view rows);
      }))

-- the key comes from the bearer token or, without one, from a header
unfoldable pub require_admin : String → String → String → Handler → Handler
require_admin admin_key bearer header proceed =
    if (if bearer == "" then header else bearer) == admin_key
    then proceed
    else answer (write_err 401 "unauthorized")

-- An app was registered as it was asked for: a new row, with the hash of the secret.
pub record Registered (site : Site) (parse : String → Option Url) (req : ClientReq) (view : AppView)
    (secret : String) (w w' : World) : Type 0 where
  pub client : Client
  pub added : w'.db.app_clients ≡ w.db.app_clients ++ client ∷ []
  pub asked :
      (client.id ≡ req.id) × ((client.name ≡ req.name) × (client.redirect_uris ≡ req.redirect_uris))
  pub named : (client.id ≢ "") × (client.name ≢ "")
  pub at : ℕ
  pub salted : site.hash_password at secret ≡ some client.secret_hash
  pub safe : All (SafeRedirect parse) client.redirect_uris
  pub shown : view ≡ app_view client

create_client-added :
    (env : Env) (c : Client) (w : World)
    → (create_client env c w).0 ≡ ok tt
    → (create_client env c w).1.db.app_clients ≡ w.db.app_clients ++ c ∷ []
unfolding create_client insert_client ◌>>=◌
create_client-added env c w good = elim (Bool-cases (env.fails w.tick)) [
  | inl e ↦ absurd (cc (rw e at good))
  | inr e ↦ elim (Option-cases (insert (λ old. old.id == c.id) c w.db.app_clients)) [
    | inl clash ↦ absurd (cc (rw (e, clash) at good))
    | inr (rows, new) ↦
        let (rows_eq, fresh) = insert-fresh (λ old. old.id == c.id) c w.db.app_clients new in
        rw (e, new) rows_eq
  ]
]

module _ (site : Site) (parse : String → Option Url) (req : ClientReq) (view : AppView)
    (secret : String) where
  register_client-Registered :
      (w : World)
      → (req.id == "" || req.name == "") ≡ false
      → All (SafeRedirect parse) req.redirect_uris
      → (register_client site req w).0.body ≡ app_created view secret
      → Registered site parse req view secret w (register_client site req w).1
  unfolding register_client
  register_client-Registered w named safe =
      checked_both (random site.env) _ _ w Q (λ e failing h. cc)
        (λ s drawn.
          let w1 : World = (random site.env w).1 in
          checked_both (ask (λ k. site.hash_password k s)) _ _ w1 Q (λ e failing h. cc)
            (λ hash salted.
              let w2 : World = (ask (λ k. site.hash_password k s) w1).1 in
              checked_both (create_client site.env (client_of req hash)) _ _ w2 Q
                (λ e failing h. cc)
                (λ _ good h.
                  let same = ask-db (λ k. site.hash_password k s) w1 ∙ random-db site.env w in
                  let told : s ≡ secret = cc in
                  record {
                    client = client_of req hash;
                    added = rw same at (create_client-added site.env (client_of req hash) w2 good);
                    asked = (refl, (refl, refl));
                    named = (
                      other_than req.id "" (ground arith),
                      other_than req.name "" (ground arith),
                    );
                    at = w1.tick;
                    salted = rw told at (ask_ok (λ k. site.hash_password k s) w1 hash salted);
                    safe = safe;
                    shown = cc;
                  })))
    where
      Q : Reply × World → Type 0
      Q out = out.0.body ≡ app_created view secret → Registered site parse req view secret w out.1

  -- Where the registration of an app answers with its secret, the app is a new row with the id, name
  -- and redirect URIs that were asked for, id and name not empty, under a hash of that secret; and every
  -- redirect URI of it is an absolute URL without a fragment, over https or over http to the local
  -- host, that has no `*`.
  pub handle_create_client-Registered :
      (w : World)
      → (handle_create_client site parse req w).0.body ≡ app_created view secret
      → Registered site parse req view secret w (handle_create_client site parse req w).1
  unfolding handle_create_client
  handle_create_client-Registered w = elim (Bool-cases (req.id == "" || req.name == "")) [
    | inl empty ↦ rw empty (λ h. cc)
    | inr named ↦ rw named (elim (Bool-cases (all_valid parse req.redirect_uris)) [
      | inr bad ↦ rw bad (λ h. cc)
      | inl good ↦
          let safe =
            All-mono _ _ req.redirect_uris (valid_redirect-SafeRedirect parse)
              (all_valid-All parse req.redirect_uris good) in
          rw good (register_client-Registered w named safe)
    ])
  ]
