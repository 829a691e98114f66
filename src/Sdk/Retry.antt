-- ===== src/Sdk/Retry.antt =====
-- sdk/go/client.go against internal/httpapi/sessions.go: a refresh whose answer is lost on the way back,
-- and that the client sends again to its fallback URL.
use Prim.Native.String.{◌++◌}
use authsvc.Prelude.{
  ◌≡◌, ◌≢◌, ◌==◌, eq_refl, not, Bool, true, false, String, Option, none, some, ◌∷◌, Bool-cases, inl,
  inr, ltb, ◌||◌,
}
use authsvc.Exec.{World}
use authsvc.Table.Laws.{All-select_row, select_row-matches}
use authsvc.Sessions.{SessionMeta}
use authsvc.Sessions.WellFormed.{WellFormed}
use authsvc.Sessions.SingleUse.{IsSpent, IsUnguessed}
use authsvc.Web.{Site, Body, Reply, TokenResponse, tokens}
use authsvc.Web.Account.{handle_refresh}
use authsvc.Web.Grant.{handle_refresh-Refreshes}
use authsvc.Web.Spent.{handle_refresh-IsSpent}
use authsvc.Sdk.{
  Config, Network, Payload, fields, Response, got, refresh, post_with_fallback, with_fallback, send,
  should_fail_over, judged, decoded,
}

-- json.Unmarshal of a response of tokens
abbrev pub parse_tokens : Body → Option TokenResponse
parse_tokens (tokens t) = some t
parse_tokens b = none

abbrev token_in : Payload → String
token_in (fields ((key, tok) ∷ rest)) = tok
token_in p = ""

abbrev delivered : Bool → Reply × World → Option (Response Body) × World
delivered true (r, w) = (none, w)
delivered false (r, w) = (some (record { code = r.status; content = r.body }), w)

-- One service behind both URLs, whose answers get lost on the way from the first.
unfoldable pub lossy : Site → SessionMeta → Config → Network World Body
lossy site m cfg url body w =
    delivered (url == (cfg.base_url ++ "/v1/token/refresh"))
      (handle_refresh site (token_in body) m w)

parsed-tokens : (b : Body) (t : TokenResponse) → decoded parse_tokens (got b) ≡ got t → b ≡ tokens t
parsed-tokens (tokens t') t e = cc
parsed-tokens b t e = absurd (cc)

-- what is delivered decodes to tokens only where the body is tokens
delivered-tokens :
    (lost : Bool) (o : Reply × World) (t : TokenResponse)
    → decoded parse_tokens (judged (delivered lost o).0) ≡ got t
    → o.0.body ≡ tokens t
delivered-tokens true o t e = absurd (cc)
delivered-tokens false o t e = elim (Bool-cases (ltb o.0.status 200 || ltb 299 o.0.status)) [
  | inl bad ↦ absurd (cc (rw bad at e))
  | inr fine ↦ parsed-tokens o.0.body t (rw fine at e)
]

spent-refused :
    (site : Site) (m : SessionMeta) (tok : String) (w : World) (t : TokenResponse)
    → IsSpent (site.env.sha256 tok) w.db.sessions
    → (handle_refresh site tok m w).0.body ≢ tokens t
spent-refused site m tok w t spent h =
    let x = handle_refresh-Refreshes site t tok m w h in
    let used =
      All-select_row _ _ w.db.sessions x.row spent x.found
        (select_row-matches _ w.db.sessions x.row x.found) in
    cc (used, x.unspent)

module _ (site : Site) (m : SessionMeta) (cfg : Config) (tok : String) where
  -- Where the answer to a refresh that the service carried out is lost, Client.Refresh never returns a
  -- session, though it sends the token again to the fallback URL: the token is spent by then.
  pub refresh-lost :
      (w : World) (t t' : TokenResponse)
      → WellFormed w.db
      → IsUnguessed site.env w (site.env.sha256 tok)
      → (handle_refresh site tok m w).0.body ≡ tokens t
      → (refresh (lossy site m cfg) parse_tokens cfg tok w).0 ≢ got t'
  unfolding refresh post_with_fallback with_fallback send should_fail_over lossy
  refresh-lost w t t' wf new h back =
      let spent = handle_refresh-IsSpent site t tok m w wf new h in
      let url = cfg.fallback_url ++ "/v1/token/refresh" in
      elim (Bool-cases (not (cfg.fallback_url == ""))) [
        | inr alone ↦
            absurd (cc (rw (eq_refl (cfg.base_url ++ "/v1/token/refresh"), alone) at back))
        | inl again ↦ spent-refused site m tok _ t' spent (
            delivered-tokens (url == (cfg.base_url ++ "/v1/token/refresh")) _ t'
              (rw (eq_refl (cfg.base_url ++ "/v1/token/refresh"), again) at back))
      ]
