-- ===== src/RateLimit/Examples.antt =====
-- The theorem on the rate limit at a concrete table, and a test.
use authsvc.Prelude.{◌-◌, ◌≤◌, ◌≡◌, refl, [], ◌∷◌}
use authsvc.Exec.{◌>>=◌}
use authsvc.RateLimit.{truncate, count_up, allow}
use authsvc.RateLimit.Bound.{Call, grants, grants-le-limit}
use authsvc.Fixtures.{env, world}

abbrev login : Call
login = record { bucket = "login:10.0.0.1"; limit = 2; window = 1000 }

two_granted : grants env "login:10.0.0.1" 0 (login ∷ login ∷ login ∷ []) world ≡ 2
unfolding grants truncate allow count_up ◌>>=◌
two_granted = refl

grants-le-limit_example : grants env "login:10.0.0.1" 0 (login ∷ login ∷ login ∷ []) world ≤ 2 - 0
grants-le-limit_example =
    grants-le-limit env "login:10.0.0.1" 0 2 (login ∷ login ∷ login ∷ []) world
      ((λ e. refl), ((λ e. refl), ((λ e. refl), tt)))
