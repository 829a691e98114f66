-- ===== src/Exec.antt =====
-- Methods of internal/store/store.go's DB: actions that read the clock, mint identifiers, run SQL
-- statements and may fail. What lies outside the repository (the clock, the random source, whether
-- a statement reaches Postgres, sha256, the collations of citext and of text) is the parameter `Env`: event
-- number k of a run reads `time k`, mints `ulid k` or `secret k`, and breaks off if `fails k`.
pub mod Steps
use authsvc.Prelude.{
  ℕ, suc, ◌≡◌, refl, Bool, true, false, String, Option, none, some, if◌then◌else◌,
}
use authsvc.Schema.{Database}

-- the sentinel errors of store, linking and pgx, and `failed` for every other error
pub data Error : Type 0 where
  no_rows not_found token_reuse code_invalid code_attempts : Error
  no_subject manual_link_required already_linked_elsewhere : Error
  failed : Error

pub data Result {ℓ} (A : Type ℓ) : Type ℓ where
  ok : A → Result A
  err : Error → Result A

pub ok-injective {ℓ} : {A : Type ℓ} {a b : A} → ok a ≡ ok b → a ≡ b
ok-injective e = cc

pub err-injective {ℓ} : {A : Type ℓ} {e e' : Error} → ◌≡◌ {A = Result A} (err e) (err e') → e ≡ e'
err-injective h = cc

pub record Env : Type 0 where
  pub time : ℕ → ℕ
  pub ulid : ℕ → String
  pub secret : ℕ → String
  pub fails : ℕ → Bool
  pub sha256 : String → String
  pub citext : String → String
  pub collate : String → String → Bool

-- the committed tables, and how many events have happened
pub record World : Type 0 where
  pub db : Database
  pub tick : ℕ

abbrev pub Exec : Type 0 → Type 0
Exec A = World → Result A × World

abbrev pub continue : {A B : Type 0} → Result A → (A → Exec B) → Exec B
continue (ok a) f w = f a w
continue (err e) f w = (err e, w)

unfoldable pub pure : {A : Type 0} → A → Exec A
pure a w = (ok a, w)

unfoldable pub raise : {A : Type 0} → Error → Exec A
raise e w = (err e, w)

-- the next event
abbrev pub next : World → World
next w = record w { tick = suc w.tick }

abbrev map_err : {A : Type 0} → (Error → Error) → Result A → Result A
map_err f (ok a) = ok a
map_err f (err e) = err (f e)

-- `if err != nil { return nil, f(err) }`
unfoldable pub or_else : {A : Type 0} → Exec A → (Error → Error) → Exec A
or_else m f w = let (r, w') = m w in (map_err f r, w')

-- a call whose error the caller looks at
unfoldable pub attempt : {A : Type 0} → Exec A → Exec (Result A)
attempt m w = let (r, w') = m w in (ok r, w')

-- store.go: norows
abbrev pub norows : Error → Error
norows no_rows = not_found
norows e = e

module _ (env : Env) where
  -- db.now()
  unfoldable pub now : Exec ℕ
  now w = (ok (env.time w.tick), next w)

  -- ulid.Make().String()
  unfoldable pub make_ulid : Exec String
  make_ulid w = (ok (env.ulid w.tick), next w)

  -- rand.Read and its encoding
  unfoldable pub random : Exec String
  random w = if env.fails w.tick then (err failed, next w) else (ok (env.secret w.tick), next w)

  -- a query, and a query of one row
  unfoldable pub query : {A : Type 0} → (Database → A) → Exec A
  query f w = if env.fails w.tick then (err failed, next w) else (ok (f w.db), next w)

  abbrev pub scan : {A : Type 0} → Option A → Exec A
  scan none w = (err no_rows, w)
  scan (some a) w = (ok a, w)

  unfoldable pub query_row : {A : Type 0} → (Database → Option A) → Exec A
  unfolding query
  query_row f w = let (r, w') = query f w in continue r scan w'

  -- a statement that no constraint can stop, and one that is refused where `f` gives none
  unfoldable pub exec : (Database → Database) → Exec (Unit {0})
  exec f w =
      if env.fails w.tick
      then (err failed, next w)
      else (ok tt, record { db = f w.db; tick = suc w.tick })

  -- a statement that also tells its RETURNING columns or its count of rows
  unfoldable pub exec_returning : {A : Type 0} → (Database → A × Database) → Exec A
  exec_returning f w =
      if env.fails w.tick
      then (err failed, next w)
      else (ok (f w.db).0, record { db = (f w.db).1; tick = suc w.tick })

  abbrev store : World → Option Database → Result (Unit {0}) × World
  store w none = (err failed, next w)
  store w (some d) = (ok tt, record { db = d; tick = suc w.tick })

  unfoldable pub exec_checked : (Database → Option Database) → Exec (Unit {0})
  exec_checked f w = if env.fails w.tick then (err failed, next w) else store w (f w.db)

-- How the body of a transaction ends: by tx.Commit with what is returned then, or by a return that
-- leaves the deferred tx.Rollback to undo its statements.
pub data Outcome (A : Type 0) : Type 0 where
  commit : Result A → Outcome A
  rollback : Error → Outcome A

module _ (env : Env) where
  abbrev pub finish : {A : Type 0} → Database → Result (Outcome A) → World → Result A × World
  finish saved (err e) w = (err e, record w { db = saved })
  finish saved (ok (rollback e)) w = (err e, record w { db = saved })
  finish saved (ok (commit r)) w =
      if env.fails w.tick
      then (err failed, record { db = saved; tick = suc w.tick })
      else (r, next w)

  abbrev pub body_of : {A : Type 0} → Database → Exec (Outcome A) → Exec A
  body_of saved m w = let (r, w') = m w in finish saved r w'

  -- db.Pool.Begin, the body, and Commit or Rollback. Between Begin and the end Postgres shows the
  -- body's writes to no other transaction, and FOR UPDATE makes a second one on the row wait.
  unfoldable pub transaction : {A : Type 0} → Exec (Outcome A) → Exec A
  transaction m w = if env.fails w.tick then (err failed, next w) else body_of w.db m (next w)

infixl 5 ◌>>=◌ ◌>>◌
-- opening this opens every action of this module
unfoldable pub ◌>>=◌ : {A B : Type 0} → Exec A → (A → Exec B) → Exec B
unfolding pure raise or_else attempt now make_ulid random query query_row exec exec_returning
    exec_checked transaction
◌>>=◌ m f w = let (r, w') = m w in continue r f w'

abbrev pub ◌>>◌ : {B : Type 0} → Exec (Unit {0}) → Exec B → Exec B
m >> n = m >>= λ _. n
