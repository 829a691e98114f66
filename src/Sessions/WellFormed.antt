-- ===== src/Sessions/WellFormed.antt =====
-- The table of sessions keeps its PRIMARY KEY and its UNIQUE column, and its references.
use authsvc.Prelude.{ℕ, ◌≡◌, refl, ◌∙◌, Bool, true, String, [], ◌∷◌, arith}
use authsvc.Prelude.Lists.{All, All-mono, All-append}
use authsvc.Schema.{Database, Session}
use authsvc.Exec.{Env, World}
use authsvc.Table.{update, delete}
use authsvc.Table.Laws.{All-update, All-delete}
use authsvc.Table.Pairwise.{Pairwise-delete, Pairwise-append}
use authsvc.Table.Unique.{Distinct, Distinct-update}
use authsvc.Sessions.{references, revoke, spend, has_id}
use authsvc.Sessions.Cases.{Inserted, spend_row}
use authsvc.Sessions.Trace.{Op, apply}
use authsvc.Sessions.Change.{Change, unchanged, revoked, deleted, started, continued, apply-Change}

pub record WellFormed (d : Database) : Type 0 where
  pub ids : Distinct (λ (s : Session). s.id) d.sessions
  pub tokens : Distinct (λ (s : Session). s.token_hash) d.sessions
  pub refer : All (λ s. references d s ≡ true) d.sessions

Inserted-WellFormed :
    (s : Session) (d d' : Database) → Inserted s d d' → WellFormed d → WellFormed d'
Inserted-WellFormed s d d' ins h = rw ins.added (record {
  ids =
      Pairwise-append _ s d.sessions (All-mono _ _ d.sessions (λ old e. ground arith) ins.fresh)
        h.ids;
  tokens =
      Pairwise-append _ s d.sessions (All-mono _ _ d.sessions (λ old e. ground arith) ins.fresh)
        h.tokens;
  refer = All-append _ d.sessions (s ∷ []) h.refer (ins.refers, tt);
})

update-WellFormed :
    (p : Session → Bool) (f : Session → Session) (d : Database)
    → ((s : Session) → (f s).id ≡ s.id)
    → ((s : Session) → (f s).token_hash ≡ s.token_hash)
    → ((s : Session) → references d (f s) ≡ references d s)
    → WellFormed d
    → WellFormed (record d { sessions = update p f d.sessions })
update-WellFormed p f d id token refs h = record {
  ids = Distinct-update _ p f d.sessions id h.ids;
  tokens = Distinct-update _ p f d.sessions token h.tokens;
  refer = All-update _ _ p f d.sessions (λ s e _. refs s ∙ e) (λ s e _. e) h.refer;
}

delete-WellFormed :
    (p : Session → Bool) (d : Database)
    → WellFormed d
    → WellFormed (record d { sessions = delete p d.sessions })
delete-WellFormed p d h = record {
  ids = Pairwise-delete _ p d.sessions h.ids;
  tokens = Pairwise-delete _ p d.sessions h.tokens;
  refer = All-delete _ p d.sessions h.refer;
}

pub spend_row-WellFormed :
    (id : String) (t : ℕ) (d : Database) → WellFormed d → WellFormed (spend_row id t d)
spend_row-WellFormed id t d h =
    update-WellFormed (has_id id) (spend t) d (λ s. refl) (λ s. refl) (λ s. refl) h

module _ (env : Env) where
  Change-WellFormed : (w w' : World) → Change env w w' → WellFormed w.db → WellFormed w'.db
  Change-WellFormed w w' (unchanged e) h = rw e h
  Change-WellFormed w w' (revoked p t e) h =
      rw e (update-WellFormed p (revoke t) w.db (λ s. refl) (λ s. refl) (λ s. refl) h)
  Change-WellFormed w w' (deleted p e) h = rw e (delete-WellFormed p w.db h)
  Change-WellFormed w w' (started k k' user_id client_id m hk hk' lt ins) h =
      Inserted-WellFormed _ w.db w'.db ins h
  Change-WellFormed w w' (continued tok row k t m hk found unused live ins) h =
      Inserted-WellFormed _ _ w'.db ins (spend_row-WellFormed row.id t w.db h)

  -- From a table where ids and token hashes are distinct and each row refers to a user and a
  -- client that are there, every operation leads to one where this holds, whatever fails on
  -- the way.
  apply-WellFormed : (op : Op) (w : World) → WellFormed w.db → WellFormed (apply env op w).db
  apply-WellFormed op w h = Change-WellFormed w (apply env op w) (apply-Change env op w) h
