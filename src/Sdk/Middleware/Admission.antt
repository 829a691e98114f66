-- ===== src/Sdk/Middleware/Admission.antt =====
-- Whom the middleware lets through to an app's handler.
use authsvc.Prelude.{
  ℕ, ◌-◌, ◌≡◌, ◌==◌, false, String, Option, some, List, Bool-cases, Option-cases, inl, inr,
}
use authsvc.Text.{bearer_token}
use authsvc.Sdk.{Config, Got}
use authsvc.Sdk.Keys.{KeyCache, Reached, too_stale}
use authsvc.Sdk.Keys.Refinement.{last_good, get-served}
use authsvc.Sdk.Middleware.{Token, User, user_of, require_user, verify, passed}

module _ {B K : Type 0} (parse : B → Option K) (size : K → ℕ)
    (parse_jwt : K → String → String → String → Option Token) (cfg : Config) where
  -- why a request with this header is let through as this user
  pub record Admitted (log : List (ℕ × Got B)) (now : ℕ) (header : String) (u : User) : Type 0 where
    pub set : K
    pub at : ℕ
    pub newest : last_good parse size log ≡ some (set, at)
    pub fresh : too_stale cfg (now - at) ≡ false
    pub token : Token
    pub signed : parse_jwt set cfg.issuer cfg.audience (bearer_token header) ≡ some token
    pub describes : u ≡ user_of token

  -- RequireUser hands a request on only as the user of a token that is verified with the newest keys that
  -- were fetched, for the issuer and the audience of the app, while these keys are not too old.
  pub require_user-Admitted :
      {log : List (ℕ × Got B)} {k : KeyCache K} {n : ℕ}
      → Reached parse size log k n
      → (now : ℕ) (header : String) (u : User) → require_user parse_jwt cfg now k header ≡ passed u
      → Admitted log now header u
  unfolding require_user verify
  require_user-Admitted {log} {k} {n} r now header u h =
      let view = (get-served parse size cfg now r).0 in
      elim (Bool-cases (bearer_token header == "")) [
        | inl blank ↦ absurd (cc (rw blank at h))
        | inr sent ↦ elim (Option-cases (last_good parse size log)) [
          | inl cold ↦ absurd (cc (rw (sent, view, cold) at h))
          | inr ((set, at), good) ↦ elim (Bool-cases (too_stale cfg (now - at))) [
            | inl old ↦ absurd (cc (rw (sent, view, good, old) at h))
            | inr new ↦
                elim (Option-cases (parse_jwt set cfg.issuer cfg.audience (bearer_token header))) [
                  | inl bad ↦ absurd (cc (rw (sent, view, good, new, bad) at h))
                  | inr (tok, fine) ↦ record {
                    set = set;
                    at = at;
                    newest = good;
                    fresh = new;
                    token = tok;
                    signed = fine;
                    describes = cc (rw (sent, view, good, new, fine) at h);
                  }
                ]
          ]
        ]
      ]
