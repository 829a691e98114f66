-- ===== src/Api/Guarded.antt =====
-- What a request must carry to change the tables.
use authsvc.Prelude.{
  ℕ, zero, suc, ◌≡◌, refl, ◌==◌, eq_iff, Bool, true, false, ◌||◌, ◌⊎◌, String, Option, none, some,
  List, [], ◌∷◌, is_some, Bool-cases, Option-cases, inl, inr, if◌then◌else◌,
}
use authsvc.Prelude.Lists.{All}
use authsvc.Exec.{World, query}
use authsvc.Web.{Claims, Handler, Reply, ask}
use authsvc.Web.Cases.{checked_both}
use authsvc.Web.Reads.{ask-db}
use authsvc.Web.Guard.{IsLive, Admission, refused, admitted, require_user-Admission}
use authsvc.Web.Admin.{require_admin}
use authsvc.Http.{Request, bearer, lit, wild, Pattern, matched, fits_method}
use authsvc.Api.{
  Server, Route, routes, mux, serve, otherwise, guard_user, guard_admin, handle_jwks, handle_health,
}

-- the patterns whose requests need no token: they carry a password, a secret, a code or a state
abbrev pub public_patterns : List Pattern
public_patterns =
    ("POST", lit "v1" ∷ lit "auth" ∷ lit "register" ∷ [])
    ∷ ("POST", lit "v1" ∷ lit "auth" ∷ lit "login" ∷ [])
    ∷ ("POST", lit "v1" ∷ lit "auth" ∷ lit "email" ∷ lit "verify" ∷ [])
    ∷ ("POST", lit "v1" ∷ lit "auth" ∷ lit "password" ∷ lit "forgot" ∷ [])
    ∷ ("POST", lit "v1" ∷ lit "auth" ∷ lit "password" ∷ lit "reset" ∷ [])
    ∷ ("POST", lit "v1" ∷ lit "auth" ∷ lit "otp" ∷ lit "request" ∷ [])
    ∷ ("POST", lit "v1" ∷ lit "auth" ∷ lit "otp" ∷ lit "verify" ∷ [])
    ∷ ("GET", lit "v1" ∷ lit "oauth" ∷ wild ∷ lit "start" ∷ [])
    ∷ ("GET", lit "v1" ∷ lit "oauth" ∷ wild ∷ lit "callback" ∷ [])
    ∷ ("POST", lit "v1" ∷ lit "token" ∷ lit "exchange" ∷ [])
    ∷ ("POST", lit "v1" ∷ lit "token" ∷ lit "refresh" ∷ [])
    ∷ []

abbrev fits_any : List Pattern → Request → Bool
fits_any [] r = false
fits_any (p ∷ ps) r = let rest = fits_any ps r in is_some (matched p r) || rest

abbrev nth : List Pattern → ℕ → Option Pattern
nth [] n = none
nth (p ∷ ps) zero = some p
nth (p ∷ ps) (suc n) = nth ps n

or_true : (b : Bool) → (b || true) ≡ true
or_true true = refl
or_true false = refl

fits_any-nth :
    (ps : List Pattern) (n : ℕ) (p : Pattern) (r : Request) (vs : List String)
    → nth ps n ≡ some p
    → matched p r ≡ some vs
    → fits_any ps r ≡ true
fits_any-nth [] n p r vs e h = cc
fits_any-nth (q ∷ ps) zero p r vs e h = let same : q ≡ p = cc in rw (same, h) refl
fits_any-nth (q ∷ ps) (suc n) p r vs e h =
    rw (fits_any-nth ps n p r vs e h) (or_true (is_some (matched q r)))

path-cases :
    (path : List String) → (path ≡ []) ⊎ ((v : String) × ((vs : List String) × (path ≡ v ∷ vs)))
path-cases [] = inl refl
path-cases (v ∷ vs) = inr (v, (vs, refl))

module _ (server : Server) (r : Request) (w : World) where
  -- Why a request may leave the world `w'`: it changes no table, its pattern is public, its bearer
  -- token is verified and of a live session, or it carries the admin key.
  pub data Permitted (w' : World) : Type 0 where
    unchanged : w'.db ≡ w.db → Permitted w'
    public : fits_any public_patterns r ≡ true → Permitted w'
    as_user :
        (claims : Claims) (k : ℕ)
        → server.site.verify_access k (bearer r) ≡ some claims
        → IsLive claims w.db
        → Permitted w'
    as_admin :
        (if bearer r == "" then r.x_admin_key else bearer r) ≡ server.admin_api_key → Permitted w'

  abbrev Safe : Route → Type 0
  Safe route =
      (vs : List String) → matched route.pattern r ≡ some vs → Permitted (route.handler vs r w).1

  mux-Permitted :
      (rs : List Route) (rest : Handler)
      → All Safe rs
      → Permitted (rest w).1
      → Permitted (mux rs r rest w).1
  unfolding mux
  mux-Permitted [] rest safe kept = kept
  mux-Permitted (route ∷ rs) rest safe kept = elim (Option-cases (matched route.pattern r)) [
    | inl missed ↦ rw missed (mux-Permitted rs rest safe.1 kept)
    | inr (vs, hit) ↦ rw hit (safe.0 vs hit)
  ]

  open_at :
      (n : ℕ) {p : Pattern} (w' : World) (vs : List String)
      → nth public_patterns n ≡ some p
      → matched p r ≡ some vs
      → Permitted w'
  open_at n {p} w' vs e h = public (fits_any-nth public_patterns n p r vs e h)

  for_user : (proceed : Claims → Handler) → Permitted (guard_user server r proceed w).1
  for_user proceed = of_admission (require_user-Admission server.site (bearer r) proceed w)
    where
      of_admission :
          {out : Reply × World} → Admission server.site (bearer r) proceed w out → Permitted out.1
      of_admission (refused code is same) = unchanged same
      of_admission (admitted claims k w' told live same eq) = as_user claims k told live

  for_admin : (proceed : Handler) → Permitted (guard_admin server r proceed w).1
  unfolding require_admin
  for_admin proceed =
      elim (Bool-cases
        ((if bearer r == "" then r.x_admin_key else bearer r) == server.admin_api_key)) [
          | inl known ↦ as_admin ((eq_iff _ _).0 known)
          | inr other ↦ rw other (unchanged refl)
        ]

  jwks_kept : (handle_jwks server w).1.db ≡ w.db
  unfolding handle_jwks
  jwks_kept =
      checked_both (ask server.jwks) _ _ w (λ o. o.1.db ≡ w.db) (λ e failing. ask-db server.jwks w)
        (λ set made. ask-db server.jwks w)

  health_kept : (handle_health server w).1.db ≡ w.db
  unfolding handle_health query
  health_kept =
      let kept : (query server.site.env (λ d. tt) w).1.db ≡ w.db =
        elim (Bool-cases (server.site.env.fails w.tick)) [
          | inl e ↦ rw e refl
          | inr e ↦ rw e refl
        ] in
      checked_both (query server.site.env (λ d. tt)) _ _ w (λ o. o.1.db ≡ w.db) (λ e failing. kept)
        (λ one made. kept)

  otherwise_kept : (otherwise server r w).1.db ≡ w.db
  otherwise_kept = elim (Bool-cases (fits_method "GET" r.method)) [
    | inr other ↦ rw other refl
    | inl get ↦
        rw get (elim (path-cases r.path) [
          | inl root ↦ rw root refl
          | inr (v, (vs, deep)) ↦ rw deep refl
        ])
  ]

  every_route : All Safe (routes server)
  unfolding routes
  every_route = (
    λ vs h. unchanged jwks_kept,
    (
      λ vs h. unchanged health_kept,
      (
        λ vs h. unchanged refl,
        (
          λ vs h. unchanged refl,
          (
            λ vs h. open_at 0 _ vs refl h,
            (
              λ vs h. open_at 1 _ vs refl h,
              (
                λ vs h. open_at 2 _ vs refl h,
                (
                  λ vs h. open_at 3 _ vs refl h,
                  (
                    λ vs h. open_at 4 _ vs refl h,
                    (
                      λ vs h. open_at 5 _ vs refl h,
                      (
                        λ vs h. open_at 6 _ vs refl h,
                        (
                          λ vs h. open_at 7 _ vs refl h,
                          (
                            λ vs h. open_at 8 _ vs refl h,
                            (
                              λ vs h. for_user _,
                              (
                                λ vs h. open_at 9 _ vs refl h,
                                (
                                  λ vs h. open_at 10 _ vs refl h,
                                  (
                                    λ vs h. for_user _,
                                    (
                                      λ vs h. for_user _,
                                      (
                                        λ vs h. for_user _,
                                        (
                                          λ vs h. for_user _,
                                          (
                                            λ vs h. for_user _,
                                            (λ vs h. for_admin _, (λ vs h. for_admin _, tt)),
                                          ),
                                        ),
                                      ),
                                    ),
                                  ),
                                ),
                              ),
                            ),
                          ),
                        ),
                      ),
                    ),
                  ),
                ),
              ),
            ),
          ),
        ),
      ),
    ),
  )

  -- Whatever the request, the service changes no table, or the request fits one of the eleven public
  -- patterns, or its bearer token was verified and the session that this names, if it names one, is
  -- in the table and not revoked, or it carries the admin key.
  pub serve-Permitted : Permitted (serve server r w).1
  unfolding serve
  serve-Permitted =
      mux-Permitted (routes server) (otherwise server r) every_route (unchanged otherwise_kept)
