-- ===== src/Sessions/Lineage.antt =====
-- The rows of a family are one line: all of them but one are spent.
use authsvc.Prelude.{
  ℕ, ◌≤◌, ◌<◌, ◌≡◌, refl, ap, ◌≢◌, ◌==◌, eq_iff, Bool, true, ◌||◌, none, some, List, [], ◌∷◌, ◌++◌,
  arith, is_some, Bool-cases, inl, inr, ◌⊎◌,
}
use authsvc.Prelude.Lists.{All, All-mono, All-append}
use authsvc.Schema.{Session}
use authsvc.Exec.{Env, World}
use authsvc.Table.{select_row, update}
use authsvc.Table.Laws.{All-update, All-delete, All-select_row}
use authsvc.Table.Pairwise.{Pairwise, Pairwise-update, Pairwise-delete, Pairwise-append}
use authsvc.Sessions.{has_id, revoke, spend}
use authsvc.Sessions.Trace.{Op, apply, run, tick-le-apply}
use authsvc.Sessions.Change.{Change, unchanged, revoked, deleted, started, continued, apply-Change}

-- Of two rows of one family, one at least is spent.
abbrev OneHead : Session → Session → Type 0
OneHead x y = (x.family_id == y.family_id) ≡ true → (is_some x.used_at || is_some y.used_at) ≡ true

abbrev pub IsLinear : List Session → Type 0
IsLinear = Pairwise OneHead

-- The families that are there have ULIDs that were made before.
abbrev pub AreOld : Env → World → Type 0
AreOld env w = All (λ s. (k : ℕ) → w.tick ≤ k → s.family_id ≢ env.ulid k) w.db.sessions

IsLinear-update :
    (p : Session → Bool) (f : Session → Session) (xs : List Session)
    → ((s : Session) → (f s).family_id ≡ s.family_id)
    → ((s : Session) → is_some s.used_at ≡ true → is_some (f s).used_at ≡ true)
    → IsLinear xs
    → IsLinear (update p f xs)
IsLinear-update p f xs same more h =
    Pairwise-update _ p f xs (λ x y one. ground (arith, same x, more x))
      (λ x y one. ground (arith, same y, more y)) h

-- a row may come last if all the others of its family are spent
IsLinear-append :
    (s : Session) (xs : List Session)
    → All (λ y. (y.family_id == s.family_id) ≡ true → is_some y.used_at ≡ true) xs
    → IsLinear xs
    → IsLinear (xs ++ s ∷ [])
IsLinear-append s xs spent h =
    Pairwise-append _ s xs (All-mono _ _ xs (λ y u same. ground (arith, u same)) spent) h

after_head :
    (x y row : Session)
    → x ≡ row
    → row.used_at ≡ none
    → OneHead x y
    → (y.family_id == row.family_id) ≡ true
    → is_some y.used_at ≡ true
after_head x y row first unused one same = ground (
  arith,
  eq_iff x.family_id y.family_id,
  eq_iff y.family_id row.family_id,
  ap (λ (s : Session). s.family_id) first,
  ap (λ (s : Session). s.used_at) first,
)

-- where one row of a family is not spent, every other is
others_spent :
    (p : Session → Bool) (xs : List Session) (row : Session)
    → IsLinear xs
    → select_row p xs ≡ some row
    → row.used_at ≡ none
    → All (λ y. (y.family_id == row.family_id) ≡ true → (y ≡ row) ⊎ (is_some y.used_at ≡ true)) xs
unfolding select_row
others_spent p [] row h found unused = tt
others_spent p (x ∷ xs) row h found unused = elim (Bool-cases (p x)) [
  | inl hit ↦
      let first : x ≡ row = cc (rw hit at found) in
      (
        λ _. inl first,
        All-mono _ _ xs (λ y one same. inr (after_head x y row first unused one same)) h.0,
      )
  | inr miss ↦
      let one = All-select_row _ p xs row h.0 (rw miss at found) in
      (λ same. inr (ground (arith, one same)), others_spent p xs row h.1 (rw miss at found) unused)
]

spent_line :
    (t : ℕ) (row : Session) (xs : List Session)
    → All (λ y. (y.family_id == row.family_id) ≡ true → (y ≡ row) ⊎ (is_some y.used_at ≡ true)) xs
    → All
        (λ y. (y.family_id == row.family_id) ≡ true → is_some y.used_at ≡ true)
        (update (has_id row.id) (spend t) xs)
spent_line t row xs h =
    All-update _ _ (has_id row.id) (spend t) xs (λ y _ _ _. refl)
      (λ y other miss same. elim (other same) [
        | inl e ↦ absurd (ground (arith, eq_iff y.id row.id, ap (λ (s : Session). s.id) e))
        | inr spent ↦ spent
      ])
      h

module _ (env : Env) where
  Change-IsLinear :
      (w w' : World)
      → Change env w w'
      → AreOld env w
      → IsLinear w.db.sessions
      → IsLinear w'.db.sessions
  Change-IsLinear w w' (unchanged e) old line = rw e line
  Change-IsLinear w w' (revoked p t e) old line =
      rw e (IsLinear-update p (revoke t) w.db.sessions (λ s. refl) (λ s u. u) line)
  Change-IsLinear w w' (deleted p e) old line = rw e (Pairwise-delete _ p w.db.sessions line)
  Change-IsLinear w w' (started k k' user_id client_id m hk hk' lt ins) old line = rw ins.added (
      IsLinear-append _ w.db.sessions
        (All-mono _ _ w.db.sessions (λ y o same. absurd (o k hk ((eq_iff _ _).0 same))) old) line)
  Change-IsLinear w w' (continued tok row k t m hk found unused live ins) old line = rw ins.added (
      IsLinear-append _ _
        (spent_line t row w.db.sessions (others_spent _ w.db.sessions row line found unused))
        (IsLinear-update (has_id row.id) (spend t) w.db.sessions (λ s. refl) (λ s u. refl) line))

  -- Distinct events make distinct ULIDs.
  abbrev AreFresh : Type 0
  AreFresh = (i j : ℕ) → i < j → env.ulid i ≢ env.ulid j

  Change-AreOld :
      (w w' : World) → w.tick ≤ w'.tick → Change env w w' → AreFresh → AreOld env w → AreOld env w'
  Change-AreOld w w' le (unchanged e) new old =
      rw e (All-mono _ _ w.db.sessions (λ s o k h. o k (omega arith)) old)
  Change-AreOld w w' le (revoked p t e) new old = rw e (
      All-update _ _ p (revoke t) w.db.sessions (λ s o _ k h. o k (omega arith))
        (λ s o _ k h. o k (omega arith)) old)
  Change-AreOld w w' le (deleted p e) new old =
      rw e (
        All-delete _ p w.db.sessions
          (All-mono _ _ w.db.sessions (λ s o k h. o k (omega arith)) old))
  Change-AreOld w w' le (started k k' user_id client_id m hk hk' lt ins) new old = rw ins.added (
      All-append _ w.db.sessions _ (All-mono _ _ w.db.sessions (λ s o j h. o j (omega arith)) old)
        (λ j h. new k j (omega arith), tt))
  Change-AreOld w w' le (continued tok row k t m hk found unused live ins) new old = rw ins.added (
      All-append _ _ _
        (All-update _ _ (has_id row.id) (spend t) w.db.sessions (λ s o _ j h. o j (omega arith))
          (λ s o _ j h. o j (omega arith)) old)
        (λ j h. All-select_row _ _ w.db.sessions row old found j (omega arith), tt))

  -- From a world in which each family has at most one row that is not spent, and in which the ids
  -- of the families are ULIDs of the past, no operations lead to one where a family has two rows
  -- that are not spent, provided that the ULIDs of a run are distinct.
  pub run-IsLinear :
      (ops : List Op) (w : World)
      → ((i j : ℕ) → i < j → env.ulid i ≢ env.ulid j)
      → AreOld env w
      → IsLinear w.db.sessions
      → IsLinear (run env ops w).db.sessions
  unfolding run
  run-IsLinear [] w new old line = line
  run-IsLinear (op ∷ ops) w new old line =
      run-IsLinear ops (apply env op w) new
        (Change-AreOld w _ (tick-le-apply env op w) (apply-Change env op w) new old)
        (Change-IsLinear w _ (apply-Change env op w) old line)
