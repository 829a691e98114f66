-- ===== src/Web/Signup.antt =====
-- What a registration that answers with tokens does.
use Prim.Native.String.{◌++◌}
use mathlib.Core.Path.{subst}
use authsvc.Prelude.{ℕ, ◌≡◌, refl, sym, ◌∙◌, ap, String, some, List, Bool-cases, inl, inr}
use authsvc.Schema.{Database, User, Client}
use authsvc.Exec.{World}
use authsvc.Users.{create_user, user_by_email}
use authsvc.Sessions.{SessionMeta}
use authsvc.Web.{
  answer, write_err, Site, Handler, Reply, TokenResponse, tokens, limit, hour, lookup_client, done,
  ask, issue_session,
}
use authsvc.Web.Cases.{checked_ok}
use authsvc.Web.Exchange.{Grants}
use authsvc.Web.Minted.{Answers, Minted, issue_session-Minted}
use authsvc.Web.Password.{no_grant}
use authsvc.Web.Through.{let_through, client_named}
use authsvc.Web.Reads.{ask_ok, ask-db}
use authsvc.Web.Register.{accepted, handle_register, create_account, taken_or_internal, valid_email}
use authsvc.Web.Login.{is_weak}
use authsvc.Web.Registration.{Fresh, create_user_ok, sent-body, sent-world}

-- what a registration with tokens leaves: a new account, with a hash of the password
pub record Signup (site : Site) (client_id email password : String) (before : List User)
    (after : Database) (t : TokenResponse) : Type 0 where
  pub user : User
  pub at : ℕ
  pub hash : String
  pub hashed : site.hash_password at password ≡ some hash
  pub fresh : Fresh site.env email (some hash) before user after.users
  pub client : Client
  pub asked : client.id ≡ client_id
  pub minted : Minted site user client t after

body_of : {o out : Reply × World} → o ≡ out → o.0.body ≡ out.0.body
body_of e = ap (λ (o : Reply × World). o.0.body) e

abbrev register_guarded : Site → String → String → String → SessionMeta → Handler
register_guarded site client_id address password m =
    limit site ("register:ip:" ++ m.ip) 10 hour
      (lookup_client site client_id (create_account site (site.normalize_email address) password m))

-- `out` is an answer with tokens
module _ (site : Site) (t : TokenResponse) (address password : String) (m : SessionMeta)
    (out : Reply × World) (granted : Grants t out) where
  abbrev email : String
  email = site.normalize_email address

  sent_not_granted : done "verification_sent" ≡ tokens t → ⊥
  sent_not_granted e = cc

  refused : (status : ℕ) (code : String) (w : World) → (write_err status code, w) ≡ out → ⊥
  refused status code w e = no_grant t status code w (body_of e ∙ granted)

  not_taken : (w : World) → taken_or_internal site email w ≡ out → ⊥
  unfolding taken_or_internal
  not_taken w h =
      let (u, (_, h1)) =
        checked_ok (user_by_email site.env email) _ _ w (λ o. o ≡ out) (λ e x. refused _ _ _ x) h in
      sent_not_granted (
        sym (sent-body u (answer (accepted "verification_sent")) (user_by_email site.env email w).1)
        ∙ (body_of h1 ∙ granted))

  created :
      (client_id : String) (c : Client) (w : World)
      → c.id ≡ client_id
      → create_account site email password m c w ≡ out
      → Signup site client_id email password w.db.users out.1.db t
  unfolding create_account
  created client_id c w asked h =
      let (hash, (hashed, h1)) =
        checked_ok (ask (λ k. site.hash_password k password)) _ _ w (λ o. o ≡ out)
          (λ e x. refused _ _ _ x) h in
      let w1 : World = (ask (λ k. site.hash_password k password) w).1 in
      let (u, (made, h2)) =
        checked_ok (create_user site.env email (some hash)) _ _ w1 (λ o. o ≡ out)
          (λ e x. not_taken _ x) h1 in
      let w2 : World = (create_user site.env email (some hash) w1).1 in
      let start = issue_session site 201 m u c in
      let opened : Answers t out.1.db (start w2) = (
        sym (sent-body u start w2) ∙ (body_of h2 ∙ granted),
        ap (λ (x : World). x.db) (sym (sent-world u start w2))
            ∙ ap (λ (o : Reply × World). o.1.db) h2,
      ) in
      let (minted, kept) = issue_session-Minted site t out.1.db 201 m u c w2 opened in
      record {
        user = u;
        at = w.tick;
        hash = hash;
        hashed = ask_ok (λ k. site.hash_password k password) w hash hashed;
        fresh =
            subst (λ us. Fresh site.env email (some hash) w.db.users u us) (sym kept)
              (subst (λ (d : Database). Fresh site.env email (some hash) d.users u w2.db.users)
                (ask-db (λ k. site.hash_password k password) w)
                (create_user_ok site.env email (some hash) w1 u made));
        client = c;
        asked = asked;
        minted = minted;
      }

guarded :
    (site : Site) (t : TokenResponse) (client_id address password : String) (m : SessionMeta)
    (w : World)
    → Grants t (register_guarded site client_id address password m w)
    → Signup site client_id
        (site.normalize_email address)
        password
        w.db.users
        (register_guarded site client_id address password m w).1.db
        t
guarded site t client_id address password m w h =
    let out = register_guarded site client_id address password m w in
    let never = refused site t address password m out h in
    let (w1, (same1, h1)) = let_through site (λ o. o ≡ out) never _ _ _ _ w refl in
    let (c, (asked, (w2, (same2, h2)))) =
      client_named site (λ o. o ≡ out) never client_id _ w1 h1 in
    subst (λ us. Signup site client_id (site.normalize_email address) password us out.1.db t)
      (same2 ∙ same1) (created site t address password m out h client_id c w2 asked h2)

-- Where a registration answers with tokens, no account had the address before, and there is one new
-- account: it has the address, not verified, and a hash of the password. The access token is signed
-- over claims that name this account and a session; that session is in the table afterwards, it is of
-- this account and the client that was asked for, and the refresh token is the one it is stored under.
pub handle_register-Signup :
    (site : Site) (t : TokenResponse) (bytes : String → ℕ) (client_id address password : String)
    (m : SessionMeta) (w : World)
    → (handle_register site bytes client_id address password m w).0.body ≡ tokens t
    → Signup site client_id
        (site.normalize_email address)
        password
        w.db.users
        (handle_register site bytes client_id address password m w).1.db
        t
unfolding handle_register
handle_register-Signup site t bytes client_id address password m w h =
    let email = site.normalize_email address in
    elim (Bool-cases (valid_email email)) [
      | inr odd ↦ absurd (cc (rw odd at h))
      | inl fine ↦ elim (Bool-cases (is_weak bytes password)) [
        | inl weak ↦ absurd (cc (rw (fine, weak) at h))
        | inr strong ↦
            rw (fine, strong)
              (guarded site t client_id address password m w (rw (fine, strong) at h))
      ]
    ]
