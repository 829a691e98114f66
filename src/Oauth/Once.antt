-- ===== src/Oauth/Once.antt =====
-- What holds of OAuth states and authorization codes.
use authsvc.Prelude.{ℕ, suc, ◌+◌, ◌≤◌, ◌≡◌, refl, ◌≢◌, false, String, List, ltb, if◌then◌else◌}
use authsvc.Prelude.Lists.{All}
use authsvc.Schema.{OauthFlow, AuthCode}
use authsvc.Exec.{Env, World, ok, err, not_found}
use authsvc.Ticket.{TicketOp, run}
use authsvc.Ticket.Once.{Spares, consume_ticket_once}
use authsvc.Ticket.Lifetime.{create_consume}
use authsvc.Oauth.{
  flows, codes, flows-TicketLaws, codes-TicketLaws, FlowData, CodeData, create_oauth_flow,
  consume_oauth_flow, create_auth_code, consume_auth_code, flow_refers, code_refers, new_flow,
  new_auth_code, oauth_flow_ttl, auth_code_ttl,
}

-- A state that was redeemed is refused for good, whatever operations on the flows come in between,
-- if none of them starts a flow under a state with the same hash.
pub oauth_flow_once :
    (env : Env) (state : String) (f f' : OauthFlow) (w : World) (ops : List (TicketOp OauthFlow))
    → All (Spares flows env (env.sha256 state)) ops
    → (consume_oauth_flow env state w).0 ≡ ok f
    → (consume_oauth_flow env state (run flows env ops (consume_oauth_flow env state w).1)).0
      ≢ ok f'
unfolding consume_oauth_flow
oauth_flow_once env state f f' w ops spare good =
    consume_ticket_once flows env state f f' w ops flows-TicketLaws spare good

-- An authorization code that was redeemed is refused for good, whatever operations on the codes come
-- in between, if none of them stores a code with the same hash.
pub auth_code_once :
    (env : Env) (code : String) (c c' : AuthCode) (w : World) (ops : List (TicketOp AuthCode))
    → All (Spares codes env (env.sha256 code)) ops
    → (consume_auth_code env code w).0 ≡ ok c
    → (consume_auth_code env code (run codes env ops (consume_auth_code env code w).1)).0 ≢ ok c'
unfolding consume_auth_code
auth_code_once env code c c' w ops spare good =
    consume_ticket_once codes env code c c' w ops codes-TicketLaws spare good

module _ (env : Env) (w : World) (sound : (k : ℕ) → w.tick ≤ k → env.fails k ≡ false) where
  -- Where nothing fails, a state under which a flow was just recorded gives back that flow, its
  -- redirect and its verifier as they were, unless more than OAuthFlowTTL has passed: then it is
  -- refused.
  pub oauth_flow_lifetime :
      (state : String) (f : FlowData)
      → (create_oauth_flow env state f w).0 ≡ ok tt
      → (consume_oauth_flow env state (create_oauth_flow env state f w).1).0 ≡ (
          if ltb (env.time w.tick + oauth_flow_ttl) (env.time (suc (suc (suc (suc w.tick)))))
          then err not_found
          else ok (new_flow (env.sha256 state) f (env.time w.tick)))
  unfolding create_oauth_flow consume_oauth_flow
  oauth_flow_lifetime state f good =
      create_consume flows env w sound state flow_refers (new_flow (env.sha256 state) f)
        flows-TicketLaws (λ n. refl) (λ n. refl) good

  -- Where nothing fails, an authorization code that was just stored gives back its user, client and
  -- redirect, unless more than AuthCodeTTL has passed: then it is refused.
  auth_code_lifetime :
      (code : String) (c : CodeData)
      → (create_auth_code env code c w).0 ≡ ok tt
      → (consume_auth_code env code (create_auth_code env code c w).1).0 ≡ (
          if ltb (env.time w.tick + auth_code_ttl) (env.time (suc (suc (suc (suc w.tick)))))
          then err not_found
          else ok (new_auth_code (env.sha256 code) c (env.time w.tick)))
  unfolding create_auth_code consume_auth_code
  auth_code_lifetime code c good =
      create_consume codes env w sound code code_refers (new_auth_code (env.sha256 code) c)
        codes-TicketLaws (λ n. refl) (λ n. refl) good
