-- ===== src/RateLimit.antt =====
-- internal/store/ratelimit.go: fixed-window counters.
pub mod Bound
mod Examples
use authsvc.Prelude.{
  ℕ, suc, ◌+◌, ◌-◌, ◌%◌, ◌==◌, Bool, ◌&&◌, String, Option, none, some, List, [], ◌∷◌, ◌++◌, leb,
  ltb, eqb, if◌then◌else◌,
}
use authsvc.Schema.{Database, RateLimit}
use authsvc.Exec.{Env, Exec, ◌>>=◌, pure, now, exec_returning}
use authsvc.Table.{delete, affected}

-- t.Truncate(d), where d is 0 too
unfoldable pub truncate : ℕ → ℕ → ℕ
truncate t d = t - t % d

abbrev pub in_window : String → ℕ → RateLimit → Bool
in_window bucket start r = r.bucket == bucket && eqb r.window_start start

-- INSERT … ON CONFLICT DO UPDATE SET count = count + 1 RETURNING count
unfoldable pub count_up : String → ℕ → List RateLimit → ℕ × List RateLimit
count_up bucket start [] = (1, record { bucket = bucket; window_start = start; count = 1 } ∷ [])
count_up bucket start (r ∷ rs) =
    let rest = count_up bucket start rs in
    if in_window bucket start r
    then (r.count + 1, record r { count = r.count + 1 } ∷ rs)
    else (rest.0, r ∷ rest.1)

module _ (env : Env) where
  unfoldable pub allow : String → ℕ → ℕ → Exec Bool
  allow bucket limit window = do
    t ← now env
    count ← exec_returning env (λ d.
        let out = count_up bucket (truncate t window) d.rate_limits in
        (out.0, record d { rate_limits = out.1 }))
    pure (leb count limit)

  unfoldable pub prune_rate_limits : ℕ → Exec ℕ
  prune_rate_limits older_than = do
    t ← now env
    let old = λ (r : RateLimit). ltb r.window_start (t - older_than)
    exec_returning env
        (λ d. (affected old d.rate_limits, record d { rate_limits = delete old d.rate_limits }))
