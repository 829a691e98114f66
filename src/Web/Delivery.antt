-- ===== src/Web/Delivery.antt =====
-- To whom the callback of an OAuth round trip delivers an authorization code.
mod Examples
use authsvc.Prelude.{
  ℕ, [], ◌≡◌, refl, sym, ap, ◌∙◌, ◌==◌, eq_iff, String, Option, none, some, List, ◌∷◌, ◌++◌, inl,
  inr, is_some, is_some-eq_false, Bool-cases,
}
use authsvc.Schema.{Database, OauthFlow, AuthCode}
use authsvc.Schema as Schema
use authsvc.Exec.{World, random}
use authsvc.Table.{select_row}
use authsvc.Ticket.{unconsumed}
use authsvc.Oauth.{flows, create_auth_code, consume_oauth_flow}
use authsvc.Linking.{Profile, resolve, link_to_user}
use authsvc.Linking.Reach.{resolve-Belongs, link_to_user-Belongs}
use authsvc.Linking.Safety.{resolve-Entitled}
use authsvc.Web.{Site, Reply, to_app, write_err, ask}
use authsvc.Web.Cases.{checked_ok}
use authsvc.Web.Reads.{ask_ok, ask-db, random-db}
use authsvc.Web.Recipient.{Recipient, links, signs_in, Recipient-flows, Belongs-same, granted_to}
use authsvc.Web.Issue.{
  stored_code, create_auth_code-stored, resolve-auth_codes, link_to_user-auth_codes,
  link_to_user-own, consume_oauth_flow_ok,
}
use authsvc.Web.Roundtrip.{
  handle_oauth_callback, fetch_profile, sign_in, hand_over, redirect_with_error,
}

-- What a code that the callback hands to an app says of the tables.
pub record Delivery (site : Site) (provider state granted uri code app_state : String)
    (d after : Database) : Type 0 where
  pub flow : OauthFlow
  pub recorded : select_row (unconsumed flows (site.env.sha256 state)) d.oauth_flows ≡ some flow
  pub same_provider : flow.provider ≡ provider
  pub same_uri : uri ≡ flow.redirect_uri
  pub same_state : app_state ≡ flow.app_state
  pub at : ℕ
  pub profile : Profile
  pub vouched : site.exchange at provider granted flow.code_verifier ≡ some profile
  pub user_id : String
  pub recipient :
      Recipient site.env provider
        (record profile { email = site.normalize_email profile.email })
        flow
        d
        after
        user_id
  pub time : ℕ
  pub stored :
      after.auth_codes
      ≡ d.auth_codes ++ stored_code site.env code (granted_to flow user_id) time ∷ []

-- what follows is of an answer `out` that carries a code to an app
module _ (site : Site) (uri code app_state : String) (out : Reply × World)
    (sent : out.0.body ≡ to_app uri "code" code app_state) where
  pub data Handed (flow : OauthFlow) (user_id : String) (rows : List AuthCode) : Type 0 where
    handed :
        (time : ℕ)
        → uri ≡ flow.redirect_uri
        → app_state ≡ flow.app_state
        → out.1.db.auth_codes
          ≡ rows ++ stored_code site.env code (granted_to flow user_id) time ∷ []
        → Handed flow user_id rows

  bodies : {o : Reply × World} → o ≡ out → o.0.body ≡ to_app uri "code" code app_state
  bodies e = ap (λ (o : Reply × World). o.0.body) e ∙ sent

  not_refused : (status : ℕ) (error : String) (w : World) → (write_err status error, w) ≡ out → ⊥
  not_refused status error w e = cc (bodies e)

  not_redirected :
      (flow : OauthFlow) (error : String) (w : World)
      → (redirect_with_error flow error, w) ≡ out
      → ⊥
  not_redirected flow error w e = cc (bodies e)

  hand_over-Handed :
      (flow : OauthFlow) (user_id : String) (w : World)
      → hand_over site flow user_id w ≡ out
      → Handed flow user_id w.db.auth_codes
        × ((out.1.db.users ≡ w.db.users) × (out.1.db.identities ≡ w.db.identities))
  unfolding hand_over
  hand_over-Handed flow user_id w h =
      let (secret, (drawn, h1)) =
        checked_ok (random site.env) _ _ w (λ o. o ≡ out) (λ e. not_refused _ _ _) h in
      let w1 : World = (random site.env w).1 in
      let (done, (good, h2)) =
        checked_ok (create_auth_code site.env secret (granted_to flow user_id)) _ _ w1
          (λ o. o ≡ out) (λ e. not_refused _ _ _) h1 in
      let (time, stored) =
        create_auth_code-stored site.env secret (granted_to flow user_id) w1 good in
      let body : to_app flow.redirect_uri "code" secret flow.app_state
          ≡ to_app uri "code" code app_state =
        bodies h2 in
      let same : secret ≡ code = cc body in
      let rows =
        w.db.auth_codes ++ stored_code site.env secret (granted_to flow user_id) time ∷ [] in
      let whole : out.1.db ≡ record w.db { auth_codes = rows } =
        ap (λ (o : Reply × World). o.1.db) (sym h2)
        ∙ (stored
            ∙ ap
                (λ (d : Database). record d {
                  auth_codes =
                      d.auth_codes
                      ++ stored_code site.env secret (granted_to flow user_id) time ∷ [];
                })
                (random-db site.env w)) in
      (
        handed time (cc body) (cc body) (rw (← same) (ap (λ (d : Database). d.auth_codes) whole)),
        (ap (λ (d : Database). d.users) whole, ap (λ (d : Database). d.identities) whole),
      )

  sign_in-Handed :
      (flow : OauthFlow) (provider : String) (p : Profile) (link_user_id : Option String)
      (w : World)
      → flow.link_user_id ≡ link_user_id
      → sign_in site flow provider p link_user_id w ≡ out
      → (user_id : String) × (Recipient site.env provider p flow w.db out.1.db user_id
          × Handed flow user_id w.db.auth_codes)
  unfolding sign_in
  sign_in-Handed flow provider p (some user_id) w asked h =
      let (i, (linked, h1)) =
        checked_ok (link_to_user site.env user_id provider p) _ _ w (λ o. o ≡ out)
          (λ e. not_redirected flow _ _) h in
      let rows = link_to_user-auth_codes site.env user_id provider p w in
      let (given, (_, ids)) = hand_over-Handed flow user_id _ h1 in
      (
        user_id,
        (
          links asked (link_to_user-own site.env user_id provider p w i linked) (
              Belongs-same provider p.subject user_id _ out.1.db ids
                (link_to_user-Belongs site.env provider p user_id i w linked)),
          rw rows at given,
        ),
      )
  sign_in-Handed flow provider p none w asked h =
      let (res, (resolved, h1)) =
        checked_ok (resolve site.env provider p) _ _ w (λ o. o ≡ out) (λ e. not_redirected flow _ _)
          h in
      let rows = resolve-auth_codes site.env provider p w in
      elim (Bool-cases (is_some res.user.disabled_at)) [
        | inl off ↦ absurd (not_redirected flow _ _ (rw off at h1))
        | inr on ↦
            let (given, (users, ids)) = hand_over-Handed flow res.user.id _ (rw on at h1) in
            let (own, listed) = resolve-Belongs site.env provider p res w resolved in
            (
              res.user.id,
              (
                signs_in res.user asked (is_some-eq_false res.user.disabled_at on) refl
                    (rw users listed) (resolve-Entitled site.env provider p res w resolved)
                    (Belongs-same provider p.subject res.user.id _ out.1.db ids own),
                rw rows at given,
              ),
            )
      ]

  fetched :
      (flow : OauthFlow) (provider granted : String) (w : World)
      → fetch_profile site flow provider granted w ≡ out
      → (profile : Profile) × ((at : ℕ) × ((site.exchange at provider granted flow.code_verifier
              ≡ some profile)
            × ((user_id : String) × (Recipient site.env provider
                    (record profile { email = site.normalize_email profile.email })
                    flow
                    w.db
                    out.1.db
                    user_id
                  × Handed flow user_id w.db.auth_codes))))
  unfolding fetch_profile
  fetched flow provider granted w h =
      let exchange : ℕ → Option Profile =
        λ k. site.exchange k provider granted flow.code_verifier in
      let (profile, (told, h1)) =
        checked_ok (ask exchange) _ _ w (λ o. o ≡ out) (λ e. not_redirected flow _ _) h in
      let same = ask-db exchange w in
      (
        profile,
        (
          w.tick,
          (
            ask_ok exchange w profile told,
            rw same at
                (sign_in-Handed flow provider _ flow.link_user_id (ask exchange w).1 refl h1),
          ),
        ),
      )

  assembled :
      (provider state granted : String) (d : Database) (flow : OauthFlow)
      → select_row (unconsumed flows (site.env.sha256 state)) d.oauth_flows ≡ some flow
      → flow.provider ≡ provider
      → (profile : Profile) (at : ℕ)
      → site.exchange at provider granted flow.code_verifier ≡ some profile
      → (user_id : String)
      → Recipient site.env provider
          (record profile { email = site.normalize_email profile.email })
          flow
          d
          out.1.db
          user_id
      → Handed flow user_id d.auth_codes
      → Delivery site provider state granted uri code app_state d out.1.db
  assembled provider state granted d flow recorded same profile at vouched user_id recipient
        (handed time uri_is state_is stored) =
      record {
        flow = flow;
        recorded = recorded;
        same_provider = same;
        same_uri = uri_is;
        same_state = state_is;
        at = at;
        profile = profile;
        vouched = vouched;
        user_id = user_id;
        recipient = recipient;
        time = time;
        stored = stored;
      }

  delivered :
      (provider state error granted : String) (w : World)
      → handle_oauth_callback site provider state error granted w ≡ out
      → Delivery site provider state granted uri code app_state w.db out.1.db
  unfolding handle_oauth_callback
  delivered provider state error granted w h =
      let (flow, (good, h1)) =
        checked_ok (consume_oauth_flow site.env state) _ _ w (λ o. o ≡ out) (λ e. not_refused _ _ _)
          h in
      let (recorded, (rows, change)) = consume_oauth_flow_ok site.env state w flow good in
      elim (Bool-cases (flow.provider == provider)) [
        | inr other ↦ absurd (not_refused _ _ _ (rw other at h1))
        | inl same ↦ elim (Bool-cases (error == "")) [
          | inr reported ↦ absurd (not_redirected flow _ _ (rw (same, reported) at h1))
          | inl fine ↦ elim (Bool-cases (granted == "")) [
            | inl blank ↦ absurd (not_redirected flow _ _ (rw (same, fine, blank) at h1))
            | inr present ↦
                let (profile, (at, (vouched, (user_id, (recipient, given))))) =
                  fetched flow provider granted (consume_oauth_flow site.env state w).1
                    (rw (same, fine, present) at h1) in
                assembled provider state granted w.db flow recorded ((eq_iff _ _).0 same) profile at
                  vouched user_id
                  (Recipient-flows site.env provider
                    (record profile { email = site.normalize_email profile.email }) flow rows w.db
                    out.1.db user_id (rw change at recipient))
                  (rw change at given)
          ]
        ]
      ]

-- Where the callback of a round trip hands a code to an app, a flow was recorded under its state and
-- not consumed, for the same provider, and the code goes to the redirect URI and with the app's state
-- of that flow; the provider vouched for a profile under the flow's verifier; and the code is stored,
-- hashed, for the flow's app and an account that the profile's identity belongs to in the tables
-- afterwards. That is the account that asked for the link, where no other account had the identity
-- before, or else the one of a row that is among the accounts afterwards, that is not disabled and
-- that the profile has a right to.
pub handle_oauth_callback-Delivery :
    (site : Site) (provider state error granted uri code app_state : String) (w : World)
    → (handle_oauth_callback site provider state error granted w).0.body
      ≡ to_app uri "code" code app_state
    → Delivery site provider state granted uri code app_state w.db
        (handle_oauth_callback site provider state error granted w).1.db
handle_oauth_callback-Delivery site provider state error granted uri code app_state w h =
    delivered site uri code app_state _ h provider state error granted w refl
