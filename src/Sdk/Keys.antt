-- ===== src/Sdk/Keys.antt =====
-- sdk/go/keys.go: the cache of verification keys. A fetch is two steps, since the network may take its
-- time: one takes the lock, the other stores the answer. `K` is jwk.Set, and `size` is its Len.
pub mod Refinement
use authsvc.Prelude.{
  ℕ, suc, ◌-◌, ◌≡◌, Bool, true, false, ◌&&◌, Option, none, some, List, [], ◌∷◌, ltb, eqb,
  if◌then◌else◌,
}
use authsvc.Sdk.{is_positive, Config, Fault, Got, got, fault, malformed}
use authsvc.Prelude.Int.{ℤ, pos, negsuc}

pub record KeyCache (K : Type 0) : Type 0 where
  pub set : Option K
  pub fetched_at : ℕ
  pub last_err : Option Fault
  -- the lock that a refresh holds
  pub refreshing : Bool

-- ErrNoKeys and ErrKeysTooStale
pub data KeyProblem : Type 0 where
  no_keys keys_too_stale : KeyProblem

pub data Lookup (K : Type 0) : Type 0 where
  found : K → Lookup K
  missing : KeyProblem → Lookup K

abbrev pub new_key_cache : {K : Type 0} → KeyCache K
new_key_cache = record { set = none; fetched_at = 0; last_err = none; refreshing = false }

-- age > d, of a duration that may be negative
abbrev pub older_than : ℕ → ℤ → Bool
older_than age (pos d) = ltb d age
older_than age (negsuc d) = true

abbrev pub too_stale : Config → ℕ → Bool
too_stale cfg age = is_positive cfg.jwks_max_stale && older_than age cfg.jwks_max_stale

module _ {K : Type 0} (cfg : Config) where
  abbrev get_set : Option K → ℕ → Lookup K × Bool
  get_set none age = (missing no_keys, true)
  get_set (some set) age = (
    if too_stale cfg age then missing keys_too_stale else found set,
    older_than age cfg.jwks_refresh,
  )

  -- get, at a time; the Boolean says whether it starts a refresh
  unfoldable pub get : ℕ → KeyCache K → Lookup K × Bool
  get now k = get_set k.set (now - k.fetched_at)

module _ {B K : Type 0} (parse : B → Option K) (size : K → ℕ) where
  abbrev keep_err : Fault → KeyCache K → KeyCache K
  keep_err e k = record k { last_err = some e }

  abbrev store_parsed : ℕ → Option K → KeyCache K → KeyCache K
  store_parsed now none k = keep_err malformed k
  store_parsed now (some set) k =
      if eqb (size set) 0
      then keep_err malformed k
      else record { set = some set; fetched_at = now; last_err = none; refreshing = k.refreshing }

  -- fetch, from the answer of getWithFallback on
  unfoldable pub store_fetched : ℕ → Got B → KeyCache K → KeyCache K
  store_fetched now (fault e) k = keep_err e k
  store_fetched now (got body) k = store_parsed now (parse body) k

  -- warm, which New calls before anything else has the cache
  unfoldable pub warm : ℕ → Got B → KeyCache K
  unfolding store_fetched
  warm now answer = store_fetched now answer new_key_cache

  -- refresh: TryLock, and then the end of the fetch with the deferred Unlock
  unfoldable pub lock_refresh : KeyCache K → KeyCache K
  lock_refresh k = record k { refreshing = true }

  unfoldable pub end_refresh : ℕ → Got B → KeyCache K → KeyCache K
  unfolding store_fetched
  end_refresh now answer k = record (store_fetched now answer k) { refreshing = false }

  -- The caches that goroutines of refresh can reach, with the log of the answers so far, newest first, and
  -- the number of fetches under way. A refresh that finds the lock taken returns.
  pub data Reached : List (ℕ × Got B) → KeyCache K → ℕ → Type 0 where
    warmed : (now : ℕ) (answer : Got B) → Reached ((now, answer) ∷ []) (warm now answer) 0
    locked :
        {log : List (ℕ × Got B)} {k : KeyCache K} {n : ℕ}
        → Reached log k n
        → k.refreshing ≡ false
        → Reached log (lock_refresh k) (suc n)
    ended :
        {log : List (ℕ × Got B)} {k : KeyCache K} {n : ℕ} (now : ℕ) (answer : Got B)
        → Reached log k (suc n)
        → Reached ((now, answer) ∷ log) (end_refresh now answer k) n
