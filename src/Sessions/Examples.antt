-- ===== src/Sessions/Examples.antt =====
-- The theorems on sessions at concrete tables, and tests.
use authsvc.Prelude.{ℕ, ◌+◌, ◌≡◌, ◌≢◌, refl, sym, eq_iff, none, some, [], ◌∷◌, arith}
use authsvc.Schema.{Session}
use authsvc.Exec.{World, ok, err, not_found, token_reuse, ◌>>=◌}
use authsvc.Table.{select_row, update, insert, delete, affected}
use authsvc.Sessions.{
  SessionMeta, IssuedSession, refresh_ttl, rotate, rotate_row, rotate_spent, rotate_unrevoked,
  rotate_live, insert_session, insert_row, prune_sessions, session_by_token, revoke_family,
  revoke_by_token,
}
use authsvc.Sessions.Trace.{rotates, prunes, apply, run}
use authsvc.Sessions.WellFormed.{WellFormed}
use authsvc.Sessions.SingleUse.{rotate_once}
use authsvc.Sessions.Lineage.{IsLinear, run-IsLinear}
use authsvc.Sessions.Revocation.{reuse_locks_family, logout_for_good}
use authsvc.Sessions.Effects.{IsNew, Succeeds, rotate-Succeeds, rotate_live_row}
use authsvc.Fixtures.{env, world, tables, phone, no_secret, no_ulid, ulids_apart}

abbrev browser : SessionMeta
browser = record { user_agent = "browser"; ip = "10.0.0.1" }

-- what a rotation that starts at tick t makes of a row
abbrev rotated_at : ℕ → Session → IssuedSession
rotated_at t row = record {
  session = record {
    id = env.ulid (t + 5);
    user_id = row.user_id;
    client_id = row.client_id;
    family_id = row.family_id;
    parent_id = some row.id;
    token_hash = env.secret (t + 6);
    issued_at = t + 7;
    expires_at = t + 7 + refresh_ttl;
    used_at = none;
    revoked_at = none;
    user_agent = "browser";
    ip = "10.0.0.1";
  };
  refresh_token = env.secret (t + 6);
}

rotate-phone : (rotate env "token" browser world).0 ≡ ok (rotated_at 0 phone)
unfolding rotate rotate_row rotate_unrevoked rotate_live insert_session insert_row select_row update
    insert ◌>>=◌
rotate-phone = refl

tables-WellFormed : WellFormed tables
unfolding select_row
tables-WellFormed = record { ids = (tt, tt); tokens = (tt, tt); refer = (refl, tt) }

rotate_once_example :
    (rotate env "token" browser
      (run env (prunes 5 ∷ rotates "other" browser ∷ []) (rotate env "token" browser world).1)).0
    ≢ ok (rotated_at 0 phone)
rotate_once_example =
    rotate_once env "token" browser browser world (rotated_at 0 phone) (rotated_at 0 phone)
      (prunes 5 ∷ rotates "other" browser ∷ []) tables-WellFormed (λ k le. no_secret "oken" k)
      rotate-phone

run-IsLinear_example : IsLinear (run env (rotates "token" browser ∷ []) world).db.sessions
run-IsLinear_example =
    run-IsLinear env (rotates "token" browser ∷ []) world ulids_apart (λ k le. no_ulid "irst" k, tt)
      (tt, tt)

-- the family of the phone has a spent row, and the user has a laptop, too
abbrev spent_phone : Session
spent_phone = record phone { used_at = some 5 }

abbrev laptop : Session
laptop = record phone { id = "second"; family_id = "second"; token_hash = "tlaptop" }

abbrev two_families : World
two_families = record { db = record tables { sessions = spent_phone ∷ laptop ∷ [] }; tick = 0 }

phone_reused : (rotate env "token" browser two_families).0 ≡ err token_reuse
unfolding rotate rotate_row rotate_spent select_row update ◌>>=◌
phone_reused = refl

laptop_after_reuse :
    (rotate env "tlaptop" browser
      (run env (prunes 5 ∷ []) (rotate env "token" browser two_families).1)).0
    ≡ ok (rotated_at 7 laptop)
unfolding run apply prune_sessions rotate rotate_row rotate_spent rotate_unrevoked rotate_live
    insert_session insert_row select_row update insert delete affected ◌>>=◌
laptop_after_reuse = refl

reuse_locks_family_example : (rotated_at 7 laptop).session.family_id ≢ spent_phone.family_id
unfolding select_row
reuse_locks_family_example =
    reuse_locks_family env "token" "tlaptop" browser browser two_families spent_phone
      (prunes 5 ∷ []) (rotated_at 7 laptop) refl (λ k le same. no_ulid "irst" k (sym same))
      phone_reused laptop_after_reuse

phone_logged_out : (revoke_by_token env "token" two_families).0 ≡ ok tt
unfolding revoke_by_token session_by_token revoke_family select_row update ◌>>=◌
phone_logged_out = refl

laptop_after_logout :
    (rotate env "tlaptop" browser
      (run env (prunes 5 ∷ []) (revoke_by_token env "token" two_families).1)).0
    ≡ ok (rotated_at 5 laptop)
unfolding run apply prune_sessions revoke_by_token session_by_token revoke_family rotate rotate_row
    rotate_spent rotate_unrevoked rotate_live insert_session insert_row select_row update insert
    delete affected ◌>>=◌
laptop_after_logout = refl

logout_for_good_example : (rotated_at 5 laptop).session.family_id ≢ spent_phone.family_id
unfolding select_row
logout_for_good_example =
    logout_for_good env "token" "tlaptop" browser two_families spent_phone (prunes 5 ∷ [])
      (rotated_at 5 laptop) refl (λ k le same. no_ulid "irst" k (sym same)) phone_logged_out
      laptop_after_logout

rotate-Succeeds_example :
    (row : Session) × Succeeds env "token" world
      (rotate env "token" browser world).1
      (rotated_at 0 phone)
      row
rotate-Succeeds_example =
    rotate-Succeeds env "token" browser world (rotated_at 0 phone) rotate-phone

unknown_token : (rotate env "other" browser world).0 ≡ err not_found
unfolding rotate select_row ◌>>=◌
unknown_token = refl

world-IsNew : IsNew env world
world-IsNew k j le le' = (
  ground (
    arith,
    eq_iff "first" (env.ulid k),
    no_ulid "irst" k,
    eq_iff "token" (env.secret j),
    no_secret "oken" j,
  ),
  tt,
)

rotate_live_row_example : (s : IssuedSession) × ((rotate env "token" browser world).0 ≡ ok s)
unfolding select_row
rotate_live_row_example =
    rotate_live_row env "token" browser world phone (λ k le. refl) refl tables-WellFormed
      world-IsNew refl refl refl
