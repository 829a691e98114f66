-- ===== src/Web/Issue.antt =====
-- What the calls of the callback of an OAuth round trip tell of the flows and codes, and what they
-- leave of them.
use authsvc.Prelude.{
  ℕ, suc, ◌≡◌, ap, ◌∙◌, Bool, String, some, List, [], ◌∷◌, ◌++◌, inl, inr, Bool-cases, Option-cases,
}
use authsvc.Schema.{Database, User, OauthFlow, AuthCode}
use authsvc.Schema as Schema
use authsvc.Exec.{Env, World, Result, ok, ◌>>=◌}
use authsvc.Table.{select_row, insert}
use authsvc.Table.Laws.{insert-fresh}
use authsvc.Identities.{has_subject}
use authsvc.Ticket.{has_key, unconsumed, insert_ticket, create_ticket}
use authsvc.Ticket.Cases.{Taking, refused, taken, consume_ticket-Taking}
use authsvc.Oauth.{
  flows, codes, code_refers, new_auth_code, CodeData, create_auth_code, consume_oauth_flow,
}
use authsvc.Linking.{Profile, Resolved, resolve, link_to_user}
use authsvc.Linking.Cases.{Resolution, rejected, known, joined, founded, resolve-Resolution}
use authsvc.Linking.Attach.{denied, Linkage, already, attached, link_to_user-Linkage}

abbrev pub stored_code : Env → String → CodeData → ℕ → AuthCode
stored_code env code grant at = new_auth_code (env.sha256 code) grant at

insert_ticket-appended :
    (refers : Database → AuthCode → Bool) (c : AuthCode) (d d' : Database)
    → insert_ticket codes refers c d ≡ some d'
    → d' ≡ record d { auth_codes = d.auth_codes ++ c ∷ [] }
unfolding insert_ticket
insert_ticket-appended refers c d d' e = elim (Bool-cases (refers d c)) [
  | inr dangling ↦ absurd (cc (rw dangling at e))
  | inl refs ↦ elim (Option-cases (insert (has_key codes c.code_hash) c d.auth_codes)) [
    | inl clash ↦ absurd (cc (rw (refs, clash) at e))
    | inr (rows, done) ↦
        let (eq, fresh) = insert-fresh (has_key codes c.code_hash) c d.auth_codes done in
        let same : d' ≡ codes.set_rows rows d = cc (rw (refs, done) at e) in
        same ∙ ap (λ (xs : List AuthCode). codes.set_rows xs d) eq
  ]
]

pub create_auth_code-stored :
    (env : Env) (code : String) (grant : CodeData) (w : World)
    → (create_auth_code env code grant w).0 ≡ ok tt
    → (at : ℕ) × ((create_auth_code env code grant w).1.db
        ≡ record w.db { auth_codes = w.db.auth_codes ++ stored_code env code grant at ∷ [] })
unfolding create_auth_code create_ticket ◌>>=◌
create_auth_code-stored env code grant w good =
    let row = stored_code env code grant (env.time w.tick) in
    elim (Bool-cases (env.fails (suc w.tick))) [
      | inl e ↦ absurd (cc (rw e at good))
      | inr e ↦ elim (Option-cases (insert_ticket codes code_refers row w.db)) [
        | inl clash ↦ absurd (cc (rw (e, clash) at good))
        | inr (d, done) ↦
            (env.time w.tick, rw (e, done) (insert_ticket-appended code_refers row w.db d done))
      ]
    ]

pub resolve-auth_codes :
    (env : Env) (provider : String) (p : Profile) (w : World)
    → (resolve env provider p w).1.db.auth_codes ≡ w.db.auth_codes
resolve-auth_codes env provider p w = of_resolution (resolve-Resolution env provider p w)
  where
    of_resolution :
        {r : Result Resolved} {w' : World}
        → Resolution env provider p w r w'
        → w'.db.auth_codes ≡ w.db.auth_codes
    of_resolution (rejected e eq same) = ap (λ (d : Database). d.auth_codes) same
    of_resolution (known i u found here eq same) = ap (λ (d : Database). d.auth_codes) same
    of_resolution (joined u id mail found v v' eq new) =
        ap (λ (d : Database). d.auth_codes) new.added
    of_resolution (founded u id d missing mail v eq new new') =
        ap (λ (d : Database). d.auth_codes) new'.added
        ∙ ap (λ (d : Database). d.auth_codes) new.added

pub link_to_user-auth_codes :
    (env : Env) (user_id provider : String) (p : Profile) (w : World)
    → (link_to_user env user_id provider p w).1.db.auth_codes ≡ w.db.auth_codes
link_to_user-auth_codes env user_id provider p w =
    of_linkage (link_to_user-Linkage env user_id provider p w)
  where
    of_linkage :
        {r : Result Schema.Identity} {w' : World}
        → Linkage env user_id provider p w r w'
        → w'.db.auth_codes ≡ w.db.auth_codes
    of_linkage (denied e eq same) = ap (λ (d : Database). d.auth_codes) same
    of_linkage (already i found own eq same) = ap (λ (d : Database). d.auth_codes) same
    of_linkage (attached id missing eq new) = ap (λ (d : Database). d.auth_codes) new.added

pub link_to_user-own :
    (env : Env) (user_id provider : String) (p : Profile) (w : World) (made : Schema.Identity)
    → (link_to_user env user_id provider p w).0 ≡ ok made
    → (i : Schema.Identity) → select_row (has_subject provider p.subject) w.db.identities ≡ some i
    → i.user_id ≡ user_id
link_to_user-own env user_id provider p w made good i found =
    of_linkage (link_to_user-Linkage env user_id provider p w) good
  where
    of_linkage :
        {r : Result Schema.Identity} {w' : World}
        → Linkage env user_id provider p w r w'
        → r ≡ ok made
        → i.user_id ≡ user_id
    of_linkage (denied e eq same) good = absurd (cc)
    of_linkage (already i' found' own eq same) good = let here : i' ≡ i = cc in rw (← here) own
    of_linkage (attached id missing eq new) good = absurd (cc)

pub consume_oauth_flow_ok :
    (env : Env) (state : String) (w : World) (flow : OauthFlow)
    → (consume_oauth_flow env state w).0 ≡ ok flow
    → (select_row (unconsumed flows (env.sha256 state)) w.db.oauth_flows ≡ some flow)
      × ((rows : List OauthFlow) × ((consume_oauth_flow env state w).1.db
            ≡ record w.db { oauth_flows = rows }))
unfolding consume_oauth_flow
consume_oauth_flow_ok env state w flow good =
    of_taking (consume_ticket-Taking flows env state w) good
  where
    of_taking :
        {r : Result OauthFlow} {w' : World}
        → Taking flows env state w r w'
        → r ≡ ok flow
        → (select_row (unconsumed flows (env.sha256 state)) w.db.oauth_flows ≡ some flow)
          × ((rows : List OauthFlow) × (w'.db ≡ record w.db { oauth_flows = rows }))
    of_taking (refused e eq same) good = absurd (cc)
    of_taking (taken a k n found le early eq change) good = (cc, (_, change))
