-- ===== src/Command/Pruning.antt =====
-- What pruneOnce leaves in the tables.
use authsvc.Prelude.{
  ℕ, suc, ◌+◌, ◌-◌, ◌*◌, ◌≤◌, ◌≡◌, refl, ap, ◌∙◌, Bool, true, false, List, [], ◌∷◌, leb, ltb, arith,
  Bool-cases, inl, inr,
}
use authsvc.Schema.{Database, Session, OtpCode, RateLimit, OauthFlow, AuthCode}
use authsvc.Exec.{Env, World, ◌>>=◌}
use authsvc.Table.{select, delete}
use authsvc.Sessions.{prune_sessions}
use authsvc.Otp.{prune_codes}
use authsvc.RateLimit.{prune_rate_limits}
use authsvc.Ticket.{delete_expired}
use authsvc.Oauth.{prune_oauth}
use authsvc.Web.{hour}
use authsvc.Command.{session_grace, prune_once}

select-delete :
    {A : Type 0} (keep old : A → Bool) (xs : List A)
    → ((x : A) → keep x ≡ true → old x ≡ false)
    → select keep (delete old xs) ≡ select keep xs
unfolding select delete
select-delete keep old [] apart = refl
select-delete keep old (x ∷ xs) apart = elim (Bool-cases (keep x)) [
  | inl kept ↦
      let stays = apart x kept in
      rw (stays, kept) (ap (λ ys. x ∷ ys) (select-delete keep old xs apart))
  | inr other ↦ elim (Bool-cases (old x)) [
    | inl gone ↦ rw (gone, other) (select-delete keep old xs apart)
    | inr stays ↦ rw (stays, other) (select-delete keep old xs apart)
  ]
]

-- a row with this timestamp is younger than its grace at the time `t`
abbrev within : ℕ → ℕ → ℕ → Bool
within t grace stamp = leb t (stamp + grace)

within-kept :
    (t now grace stamp : ℕ)
    → now ≤ t
    → within t grace stamp ≡ true
    → ltb stamp (now - grace) ≡ false
within-kept t now grace stamp early young = ground arith

-- the tables with those rows only that are not past their grace at the time `t`
abbrev pub young : ℕ → Database → Database
young t d = record {
  users = d.users;
  identities = d.identities;
  app_clients = d.app_clients;
  sessions = select (λ (s : Session). within t session_grace s.expires_at) d.sessions;
  auth_codes = select (λ (c : AuthCode). within t hour c.expires_at) d.auth_codes;
  otp_codes = select (λ (c : OtpCode). within t (24 * hour) c.expires_at) d.otp_codes;
  rate_limits = select (λ (r : RateLimit). within t (24 * hour) r.window_start) d.rate_limits;
  oauth_flows = select (λ (f : OauthFlow). within t hour f.expires_at) d.oauth_flows;
}

abbrev Spares : ℕ → World → World → Type 0
Spares t w w' = young t w'.db ≡ young t w.db

module _ (env : Env) (t : ℕ) (w : World) (early : env.time w.tick ≤ t) where
  sessions_spared : Spares t w (prune_sessions env session_grace w).1
  unfolding prune_sessions ◌>>=◌
  sessions_spared = elim (Bool-cases (env.fails (suc w.tick))) [
    | inl e ↦ rw e refl
    | inr e ↦ rw e (
        ap (λ rows. record (young t w.db) { sessions = rows })
          (select-delete _ _ w.db.sessions
            (λ s fresh. within-kept t (env.time w.tick) session_grace s.expires_at early fresh)))
  ]

  codes_spared : Spares t w (prune_codes env (24 * hour) w).1
  unfolding prune_codes ◌>>=◌
  codes_spared = elim (Bool-cases (env.fails (suc w.tick))) [
    | inl e ↦ rw e refl
    | inr e ↦ rw e (
        ap (λ rows. record (young t w.db) { otp_codes = rows })
          (select-delete _ _ w.db.otp_codes
            (λ c fresh. within-kept t (env.time w.tick) (24 * hour) c.expires_at early fresh)))
  ]

  limits_spared : Spares t w (prune_rate_limits env (24 * hour) w).1
  unfolding prune_rate_limits ◌>>=◌
  limits_spared = elim (Bool-cases (env.fails (suc w.tick))) [
    | inl e ↦ rw e refl
    | inr e ↦ rw e (
        ap (λ rows. record (young t w.db) { rate_limits = rows })
          (select-delete _ _ w.db.rate_limits
            (λ r fresh. within-kept t (env.time w.tick) (24 * hour) r.window_start early fresh)))
  ]

  flows_young :
      (rows : List OauthFlow)
      → select
          (λ (f : OauthFlow). within t hour f.expires_at)
          (delete (λ (f : OauthFlow). ltb f.expires_at (env.time w.tick - hour)) rows)
        ≡ select (λ (f : OauthFlow). within t hour f.expires_at) rows
  flows_young rows =
      select-delete _ _ rows
        (λ f fresh. within-kept t (env.time w.tick) hour f.expires_at early fresh)

  auth_codes_young :
      (rows : List AuthCode)
      → select
          (λ (c : AuthCode). within t hour c.expires_at)
          (delete (λ (c : AuthCode). ltb c.expires_at (env.time w.tick - hour)) rows)
        ≡ select (λ (c : AuthCode). within t hour c.expires_at) rows
  auth_codes_young rows =
      select-delete _ _ rows
        (λ c fresh. within-kept t (env.time w.tick) hour c.expires_at early fresh)

  oauth_spared : Spares t w (prune_oauth env w).1
  unfolding prune_oauth delete_expired ◌>>=◌
  oauth_spared = elim (Bool-cases (env.fails (suc w.tick))) [
    | inl e ↦ rw e refl
    | inr e ↦
        let after_flows =
          ap (λ rows. record (young t w.db) { oauth_flows = rows })
            (flows_young w.db.oauth_flows) in
        rw e (elim (Bool-cases (env.fails (suc (suc w.tick)))) [
          | inl e' ↦ rw e' after_flows
          | inr e' ↦ rw e' (
              ap
                (λ rows. record (young t w.db) {
                  oauth_flows =
                      select (λ (f : OauthFlow). within t hour f.expires_at)
                        (delete (λ (f : OauthFlow). ltb f.expires_at (env.time w.tick - hour))
                          w.db.oauth_flows);
                  auth_codes = rows;
                })
                (auth_codes_young w.db.auth_codes)
              ∙ after_flows)
        ])
  ]

module _ (env : Env) (w : World) where
  sessions_later : w.tick ≤ (prune_sessions env session_grace w).1.tick
  unfolding prune_sessions ◌>>=◌
  sessions_later = ground arith

  codes_later : w.tick ≤ (prune_codes env (24 * hour) w).1.tick
  unfolding prune_codes ◌>>=◌
  codes_later = ground arith

  limits_later : w.tick ≤ (prune_rate_limits env (24 * hour) w).1.tick
  unfolding prune_rate_limits ◌>>=◌
  limits_later = ground arith

  oauth_later : w.tick ≤ (prune_oauth env w).1.tick
  unfolding prune_oauth delete_expired ◌>>=◌
  oauth_later = ground arith

-- Where the clock shows no more than `t` until a pruning ends, whichever of its statements fail, it
-- leaves the accounts, the identities and the apps, and of every other table all rows that are not
-- past their grace at `t`, in their order: 30 days after its expiry for a session, a day for a code
-- and after the start of a window, and an hour for a flow and an authorization code.
pub prune_once-young :
    (env : Env) (t : ℕ) (w : World)
    → ((k : ℕ) → k ≤ (prune_once env w).1.tick → env.time k ≤ t)
    → young t (prune_once env w).1.db ≡ young t w.db
unfolding prune_once ◌>>=◌
prune_once-young env t w early =
    let w1 : World = (prune_sessions env session_grace w).1 in
    let w2 : World = (prune_codes env (24 * hour) w1).1 in
    let w3 : World = (prune_rate_limits env (24 * hour) w2).1 in
    let after4 = oauth_later env w3 in
    let after3 = limits_later env w2 in
    let after2 = codes_later env w1 in
    let after1 = sessions_later env w in
    oauth_spared env t w3 (early w3.tick after4)
    ∙ (limits_spared env t w2 (early w2.tick (omega (arith, after3, after4)))
        ∙ (codes_spared env t w1 (early w1.tick (omega (arith, after2, after3, after4)))
            ∙ sessions_spared env t w
                (early w.tick (omega (arith, after1, after2, after3, after4)))))
