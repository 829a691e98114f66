-- ===== src/Web/Spent.antt =====
-- That a refresh token is spent once it was exchanged over HTTP.
use mathlib.Core.Path.{subst}
use Prim.Native.String.{◌++◌}
use authsvc.Prelude.{
  ℕ, ◌≤◌, ◌≡◌, ◌==◌, refl, sym, ◌∙◌, ap, String, Option, List, arith, Bool-cases, inl, inr, is_some,
}
use authsvc.Schema.{Database, User, RateLimit}
use authsvc.Exec.{Env, World, ◌>>=◌}
use authsvc.RateLimit.{allow}
use authsvc.Users.{user_by_id, client_by_id}
use authsvc.Sessions.{SessionMeta, IssuedSession, rotate, revoke_all_for_user}
use authsvc.Sessions.WellFormed.{WellFormed}
use authsvc.Sessions.Rotation.{rotate-Rotation}
use authsvc.Sessions.SingleUse.{IsSpent, IsUnguessed, Rotation-IsSpent}
use authsvc.Web.{
  answer, ask, Site, Reply, TokenResponse, tokens, limit, checked, or_internal, hour, claims_of,
  respond_with_tokens,
}
use authsvc.Web.Cases.{checked_ok}
use authsvc.Web.Reads.{allow-db, user_by_id-db, client_by_id-db, ask-db}
use authsvc.Web.Exchange.{Grants}
use authsvc.Web.Account.{handle_refresh, refresh_for, rotation_refused}
use authsvc.Web.Grant.{not_granted}

tick-le-allow :
    (env : Env) (bucket : String) (n window : ℕ) (w : World)
    → w.tick ≤ (allow env bucket n window w).1.tick
unfolding allow ◌>>=◌
tick-le-allow env bucket n window w = ground arith

limited-WellFormed :
    (d : Database) (rows : List RateLimit)
    → WellFormed d
    → WellFormed (record d { rate_limits = rows })
limited-WellFormed d rows wf = record { ids = wf.ids; tokens = wf.tokens; refer = wf.refer }

-- `out` is an answer with tokens
module _ (site : Site) (t : TokenResponse) (out : Reply × World) (granted : Grants t out) where
  abbrev IsOut : Reply × World → Type 0
  IsOut o = o ≡ out

  refused : (r : Reply) (w : World) → (r.body ≡ tokens t → ⊥) → IsOut (r, w) → ⊥
  refused r w never e = never (ap (λ (o : Reply × World). o.0.body) e ∙ granted)

  refreshed-sessions :
      (iss : IssuedSession) (u : User) (w : World)
      → IsOut (refresh_for site iss u w)
      → out.1.db ≡ w.db
  unfolding refresh_for respond_with_tokens
  refreshed-sessions iss u w h = elim (Bool-cases (is_some u.disabled_at)) [
    | inl off ↦
        let (_, (_, never)) =
          checked_ok (revoke_all_for_user site.env u.id) _ _ w IsOut (λ e. refused _ _ (λ x. cc))
            (rw off at h) in
        absurd (refused _ _ (λ x. cc) never)
    | inr on ↦
        let (c, (_, h1)) =
          checked_ok (client_by_id site.env iss.session.client_id) _ _ w IsOut
            (λ e. refused _ _ (λ x. cc)) (rw on at h) in
        let w1 : World = (client_by_id site.env iss.session.client_id w).1 in
        let signed : ℕ → Option String = λ k. site.sign_access k (claims_of u c.audience iss) in
        let (access, (_, h2)) =
          checked_ok (ask signed) _ _ w1 IsOut (λ e. refused _ _ (λ x. cc)) h1 in
        ap (λ (o : Reply × World). o.1.db) (sym h2)
        ∙ (ask-db signed w1 ∙ client_by_id-db site.env iss.session.client_id w)
  ]

  rotated-IsSpent :
      (tok : String) (m : SessionMeta) (w : World)
      → WellFormed w.db
      → IsUnguessed site.env w (site.env.sha256 tok)
      → IsOut (
          checked
            (rotate site.env tok m)
            (λ e. answer (rotation_refused e))
            (λ iss. or_internal (user_by_id site.env iss.session.user_id) (refresh_for site iss))
            w)
      → IsSpent (site.env.sha256 tok) out.1.db.sessions
  rotated-IsSpent tok m w wf new h =
      let (iss, (good, h1)) =
        checked_ok (rotate site.env tok m) _ _ w IsOut (λ e. refused _ _ (not_granted t e)) h in
      let w1 : World = (rotate site.env tok m w).1 in
      let (u, (_, h2)) =
        checked_ok (user_by_id site.env iss.session.user_id) _ _ w1 IsOut
          (λ e. refused _ _ (λ x. cc)) h1 in
      let same : out.1.db ≡ w1.db =
        refreshed-sessions iss u _ h2 ∙ user_by_id-db site.env iss.session.user_id w1 in
      subst (λ (d : Database). IsSpent (site.env.sha256 tok) d.sessions) (sym same)
        (Rotation-IsSpent site.env tok m w w1 _ iss wf new (rotate-Rotation site.env m tok w) good)

  handled-IsSpent :
      (tok : String) (m : SessionMeta) (w : World)
      → WellFormed w.db
      → IsUnguessed site.env w (site.env.sha256 tok)
      → IsOut (handle_refresh site tok m w)
      → IsSpent (site.env.sha256 tok) out.1.db.sessions
  unfolding handle_refresh limit
  handled-IsSpent tok m w wf new h = elim (Bool-cases (tok == "")) [
    | inl blank ↦ absurd (refused _ _ (λ x. cc) (rw blank at h))
    | inr sent ↦
        let bucket = "refresh:ip:" ++ m.ip in
        let (fine, (_, h1)) =
          checked_ok (allow site.env bucket 120 hour) _ _ w IsOut (λ e. refused _ _ (λ x. cc))
            (rw sent at h) in
        let (rows, kept) = allow-db site.env bucket 120 hour w in
        elim (Bool-cases fine) [
          | inr full ↦ absurd (refused _ _ (λ x. cc) (rw full at h1))
          | inl room ↦
              rotated-IsSpent tok m _ (rw kept (limited-WellFormed w.db rows wf))
                (λ k le. new k (omega (arith, tick-le-allow site.env bucket 120 hour w)))
                (rw room at h1)
        ]
  ]

-- once a refresh was answered with tokens, its token is spent
pub handle_refresh-IsSpent :
    (site : Site) (t : TokenResponse) (tok : String) (m : SessionMeta) (w : World)
    → WellFormed w.db
    → IsUnguessed site.env w (site.env.sha256 tok)
    → Grants t (handle_refresh site tok m w)
    → IsSpent (site.env.sha256 tok) (handle_refresh site tok m w).1.db.sessions
handle_refresh-IsSpent site t tok m w wf new h = handled-IsSpent site t _ h tok m w wf new refl
