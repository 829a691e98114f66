-- ===== src/Web/Through.antt =====
-- What no refusal answers comes from behind the guards: the rate limit and the lookup of the client.
use authsvc.Prelude.{ℕ, ◌≡◌, ◌==◌, ap, eq_iff, String, Bool-cases, inl, inr}
use authsvc.Schema.{Database, Client}
use authsvc.Exec.{World, Error, not_found}
use authsvc.Table.Laws.{select_row-matches}
use authsvc.RateLimit.{allow}
use authsvc.Users.{client_by_id}
use authsvc.Web.{Site, Handler, Reply, write_err, limit, lookup_client, no_client}
use authsvc.Web.Cases.{checked_ok}
use authsvc.Web.Reads.{allow-db, client_by_id-db, client_by_id_ok}

module _ (site : Site) (Q : Reply × World → Type 0)
    (never : (status : ℕ) (code : String) (w : World) → Q (write_err status code, w) → ⊥) where
  pub let_through :
      (bucket : String) (n window : ℕ) (proceed : Handler) (w : World)
      → Q (limit site bucket n window proceed w)
      → (w' : World) × ((w'.db.users ≡ w.db.users) × Q (proceed w'))
  unfolding limit
  let_through bucket n window proceed w h =
      let (fine, (_, h1)) =
        checked_ok (allow site.env bucket n window) _ _ w Q (λ e. never _ _ _) h in
      let (rows, kept) = allow-db site.env bucket n window w in
      elim (Bool-cases fine) [
        | inr full ↦ absurd (never _ _ _ (rw full at h1))
        | inl room ↦ (
          (allow site.env bucket n window w).1,
          (ap (λ (d : Database). d.users) kept, rw room at h1),
        )
      ]

  no_client-refused : (e : Error) (w : World) → Q (no_client e, w) → ⊥
  no_client-refused not_found w h = never _ _ _ h
  no_client-refused e w h = never _ _ _ h

  pub client_named :
      (id : String) (proceed : Client → Handler) (w : World)
      → Q (lookup_client site id proceed w)
      → (c : Client) × ((c.id ≡ id)
          × ((w' : World) × ((w'.db.users ≡ w.db.users) × Q (proceed c w'))))
  unfolding lookup_client
  client_named id proceed w h = elim (Bool-cases (id == "")) [
    | inl blank ↦ absurd (never _ _ _ (rw blank at h))
    | inr named ↦
        let (c, (found, h1)) =
          checked_ok (client_by_id site.env id) _ _ w Q (λ e. no_client-refused e _)
            (rw named at h) in
        let row = client_by_id_ok site.env id w c found in
        (
          c,
          (
            (eq_iff c.id id).0 (select_row-matches _ _ c row),
            (_, (ap (λ (d : Database). d.users) (client_by_id-db site.env id w), h1)),
          ),
        )
  ]

  pub client_found :
      (id : String) (proceed : Client → Handler) (w : World)
      → Q (lookup_client site id proceed w)
      → (c : Client) × ((w' : World) × ((w'.db.users ≡ w.db.users) × Q (proceed c w')))
  client_found id proceed w h = let (c, (_, rest)) = client_named id proceed w h in (c, rest)
