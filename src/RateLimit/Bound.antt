-- ===== src/RateLimit/Bound.antt =====
-- In one window a bucket is granted no more than its limit.
use authsvc.Prelude.{
  ℕ, suc, ◌+◌, ◌-◌, ◌≤◌, ◌≡◌, ◌==◌, eq_iff, Bool, true, false, ◌&&◌, String, List, [], ◌∷◌, arith,
  leb, eqb, Bool-cases, inl, inr, if◌then◌else◌,
}
use authsvc.Prelude.Lists.{All}
use authsvc.Schema.{RateLimit}
use authsvc.Exec.{Env, World, Result, ok, err, ◌>>=◌}
use authsvc.RateLimit.{truncate, in_window, count_up, allow}

pub record Call : Type 0 where
  pub bucket : String
  pub limit : ℕ
  pub window : ℕ

abbrev granted : Result Bool → ℕ
granted (ok true) = 1
granted (ok false) = 0
granted (err e) = 0

-- the count of a bucket's window, 0 while there is no row
abbrev count_of : String → ℕ → List RateLimit → ℕ
count_of b s [] = 0
count_of b s (r ∷ rs) = if in_window b s r then r.count else count_of b s rs

count_up_self :
    (b : String) (s : ℕ) (rs : List RateLimit)
    → ((count_up b s rs).0 ≡ count_of b s rs + 1)
      × (count_of b s (count_up b s rs).1 ≡ count_of b s rs + 1)
unfolding count_up
count_up_self b s [] = (omega arith, ground (arith, eq_iff b b))
count_up_self b s (r ∷ rs) = ground (arith, count_up_self b s rs)

count_up-other :
    (b b' : String) (s s' : ℕ) (rs : List RateLimit)
    → ((b' == b) && eqb s' s) ≡ false
    → count_of b s (count_up b' s' rs).1 ≡ count_of b s rs
unfolding count_up
count_up-other b b' s s' [] other = ground arith
count_up-other b b' s s' (r ∷ rs) other =
    ground (arith, count_up-other b b' s s' rs, eq_iff r.bucket b, eq_iff r.bucket b', eq_iff b' b)

-- what a granted call is charged is taken off what the window has left
charge :
    (b b' : String) (s s' limit limit' : ℕ) (rs : List RateLimit)
    → ((b' == b) ≡ true → limit' ≡ limit)
    → (if (b' == b) && eqb s' s then granted (ok (leb (count_up b' s' rs).0 limit')) else 0)
        + (limit - count_of b s (count_up b' s' rs).1)
      ≤ limit - count_of b s rs
charge b b' s s' limit limit' rs same = elim (Bool-cases ((b' == b) && eqb s' s)) [
  | inl hit ↦
      let bucket : b' ≡ b = (eq_iff b' b).0 (ground arith) in
      let start : s' ≡ s = ground arith in
      rw (hit, bucket, start) (ground (arith, count_up_self b s rs, same (ground arith)))
  | inr miss ↦ rw (miss, count_up-other b b' s s' rs miss) (omega arith)
]

module _ (env : Env) (b : String) (s : ℕ) where
  -- does a call at this tick count in the window?
  abbrev counts : Call → World → Bool
  counts c w = (c.bucket == b) && eqb (truncate (env.time w.tick) c.window) s

  -- the calls that a sequence grants to the bucket in the window
  unfoldable pub grants : List Call → World → ℕ
  grants [] w = 0
  grants (c ∷ cs) w =
      let out = allow env c.bucket c.limit c.window w in
      (if counts c w then granted out.0 else 0) + grants cs out.1

  allow_charges :
      (limit : ℕ) (c : Call) (w : World)
      → ((c.bucket == b) ≡ true → c.limit ≡ limit)
      → (if counts c w then granted (allow env c.bucket c.limit c.window w).0 else 0)
          + (limit - count_of b s (allow env c.bucket c.limit c.window w).1.db.rate_limits)
        ≤ limit - count_of b s w.db.rate_limits
  unfolding allow ◌>>=◌
  allow_charges limit c w same = elim (Bool-cases (env.fails (suc w.tick))) [
    | inl e ↦ rw e (ground arith)
    | inr e ↦ rw e (charge b c.bucket s _ limit c.limit w.db.rate_limits same)
  ]

  -- Of any sequence of calls, no more than the limit are granted to a bucket in one window, less
  -- what was counted there before, if all its calls have that limit.
  pub grants-le-limit :
      (limit : ℕ) (cs : List Call) (w : World)
      → All (λ c. (c.bucket == b) ≡ true → c.limit ≡ limit) cs
      → grants cs w ≤ limit - count_of b s w.db.rate_limits
  unfolding grants
  grants-le-limit limit [] w same = omega arith
  grants-le-limit limit (c ∷ cs) w same = omega (
    arith,
    allow_charges limit c w same.0,
    grants-le-limit limit cs (allow env c.bucket c.limit c.window w).1 same.1,
  )
