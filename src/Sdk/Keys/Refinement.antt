-- ===== src/Sdk/Keys/Refinement.antt =====
-- The cache of keys as the last good answer in the log of the fetches.
use authsvc.Prelude.{
  ℕ, ◌-◌, ◌≤◌, ◌≡◌, refl, Bool, true, false, Option, none, some, List, [], ◌∷◌, eqb, if◌then◌else◌,
  arith, Bool-cases, Option-cases, inl, inr,
}
use authsvc.Sdk.{Config, Got, got, fault}
use authsvc.Sdk.Keys.{
  KeyCache, Lookup, found, missing, no_keys, keys_too_stale, older_than, too_stale, get, Reached,
  warmed, locked, ended, warm, lock_refresh, end_refresh, store_fetched,
}

-- what get promises of the last good answer
abbrev pub served : {K : Type 0} → Config → ℕ → Option (K × ℕ) → Lookup K × Bool
served cfg now none = (missing no_keys, true)
served cfg now (some (set, at)) = (
  if too_stale cfg (now - at) then missing keys_too_stale else found set,
  older_than (now - at) cfg.jwks_refresh,
)

module _ {B K : Type 0} (parse : B → Option K) (size : K → ℕ) where
  abbrev nonempty : Option K → Option K
  nonempty none = none
  nonempty (some set) = if eqb (size set) 0 then none else some set

  -- the keys of an answer, where it has some
  abbrev keys_of : Got B → Option K
  keys_of (fault e) = none
  keys_of (got body) = nonempty (parse body)

  abbrev or_older : ℕ → Option K → Option (K × ℕ) → Option (K × ℕ)
  or_older now none older = older
  or_older now (some set) older = some (set, now)

  -- the newest answer with keys, and its time
  unfoldable pub last_good : List (ℕ × Got B) → Option (K × ℕ)
  last_good [] = none
  last_good ((now, answer) ∷ log) = or_older now (keys_of answer) (last_good log)

  abbrev held : Option K → ℕ → Option (K × ℕ)
  held none at = none
  held (some set) at = some (set, at)

  abbrev view : KeyCache K → Option (K × ℕ)
  view k = held k.set k.fetched_at

  store_fetched-view :
      (now : ℕ) (answer : Got B) (k : KeyCache K)
      → view (store_fetched parse size now answer k) ≡ or_older now (keys_of answer) (view k)
  unfolding store_fetched
  store_fetched-view now (fault e) k = refl
  store_fetched-view now (got body) k = elim (Option-cases (parse body)) [
    | inl odd ↦ rw odd refl
    | inr (set, fine) ↦ elim (Bool-cases (eqb (size set) 0)) [
      | inl empty ↦ rw (fine, empty) refl
      | inr full ↦ rw (fine, full) refl
    ]
  ]

  store_fetched-refreshing :
      (now : ℕ) (answer : Got B) (k : KeyCache K)
      → (store_fetched parse size now answer k).refreshing ≡ k.refreshing
  unfolding store_fetched
  store_fetched-refreshing now (fault e) k = refl
  store_fetched-refreshing now (got body) k = elim (Option-cases (parse body)) [
    | inl odd ↦ rw odd refl
    | inr (set, fine) ↦ elim (Bool-cases (eqb (size set) 0)) [
      | inl empty ↦ rw (fine, empty) refl
      | inr full ↦ rw (fine, full) refl
    ]
  ]

  abbrev permits : Bool → ℕ
  permits true = 1
  permits false = 0

  permits-le : (b : Bool) → permits b ≤ 1
  permits-le true = omega arith
  permits-le false = omega arith

  -- one fetch is under way while the lock is held, and none else
  Reached-permits :
      {log : List (ℕ × Got B)} {k : KeyCache K} {n : ℕ}
      → Reached parse size log k n
      → n ≡ permits k.refreshing
  unfolding warm lock_refresh end_refresh
  Reached-permits (warmed now answer) = rw (store_fetched-refreshing now answer _) refl
  Reached-permits (locked r free) = rw (Reached-permits r, free) refl
  Reached-permits (ended {k = k} now answer r) =
      omega (arith, Reached-permits r, permits-le k.refreshing)

  Reached-view :
      {log : List (ℕ × Got B)} {k : KeyCache K} {n : ℕ}
      → Reached parse size log k n
      → view k ≡ last_good log
  unfolding warm lock_refresh end_refresh last_good
  Reached-view (warmed now answer) = store_fetched-view now answer _
  Reached-view (locked r free) = Reached-view r
  Reached-view (ended now answer r) = rw (← Reached-view r) (store_fetched-view now answer _)

  get-view : (cfg : Config) (now : ℕ) (k : KeyCache K) → get cfg now k ≡ served cfg now (view k)
  unfolding get
  get-view cfg now k = elim (Option-cases k.set) [
    | inl cold ↦ rw cold refl
    | inr (set, has) ↦ rw has refl
  ]

  -- However fetches start and end, the cache serves the keys of the last answer that had some, until they
  -- are too old, starts a refresh where they are older than asked for, and one fetch at most is under way.
  pub get-served :
      (cfg : Config) (now : ℕ) {log : List (ℕ × Got B)} {k : KeyCache K} {n : ℕ}
      → Reached parse size log k n
      → (get cfg now k ≡ served cfg now (last_good log)) × (n ≤ 1)
  get-served cfg now {log} {k} {n} r = (
    rw (← Reached-view r) (get-view cfg now k),
    omega (arith, Reached-permits r, permits-le k.refreshing),
  )
