-- ===== src/Web/Account.antt =====
-- internal/httpapi/sessions.go: refresh, logout, the account and its sessions.
use Prim.Native.String.{◌++◌}
use authsvc.Prelude.{none, ℕ, ◌==◌, not, String, map, is_some, if◌then◌else◌}
use authsvc.Schema.{User, Session}
use authsvc.Exec.{Error, not_found, token_reuse}
use authsvc.Users.{user_by_id, client_by_id}
use authsvc.Sessions.{
  SessionMeta, IssuedSession, rotate, revoke_family, revoke_all_for_user, session_by_id,
  active_sessions_for_user,
}
use authsvc.Web.{
  Site, Claims, Reply, Handler, SessionView, answer, write_err, internal, checked, or_internal,
  limit, hour, respond_with_tokens, user_json, unset, cleared, nothing, failure, me, sessions,
}

abbrev pub clear_and_refuse : ℕ → String → Reply
clear_and_refuse status code = record {
  status = status;
  cookie = cleared;
  background = none;
  body = failure code;
}

abbrev pub no_content : Reply
no_content = record { status = 204; cookie = unset; background = none; body = nothing }

abbrev pub logged_out : Reply
logged_out = record { status = 204; cookie = cleared; background = none; body = nothing }

abbrev pub rotation_refused : Error → Reply
rotation_refused token_reuse = clear_and_refuse 401 "token_reuse"
rotation_refused not_found = clear_and_refuse 401 "unauthorized"
rotation_refused e = internal

abbrev pub missing : Error → Reply
missing not_found = write_err 404 "not_found"
missing e = internal

module _ (site : Site) where
  unfoldable pub refresh_for : IssuedSession → User → Handler
  refresh_for iss u =
      if is_some u.disabled_at
      then checked (revoke_all_for_user site.env u.id)
          (λ e. answer (clear_and_refuse 403 "account_disabled"))
          (λ _. answer (clear_and_refuse 403 "account_disabled"))
      else or_internal (client_by_id site.env iss.session.client_id)
          (λ client. respond_with_tokens site 200 u client.audience iss)

  -- `tok` is what refreshTokenFrom finds in the cookie or else in the body
  unfoldable pub handle_refresh : String → SessionMeta → Handler
  handle_refresh tok m =
      if tok == ""
      then answer (write_err 401 "unauthorized")
      else limit site ("refresh:ip:" ++ m.ip) 120 hour (
          checked (rotate site.env tok m) (λ e. answer (rotation_refused e))
            (λ iss. or_internal (user_by_id site.env iss.session.user_id) (refresh_for iss)))

  unfoldable pub handle_logout : Claims → Handler
  handle_logout claims =
      if claims.session_id == ""
      then answer logged_out
      else checked (session_by_id site.env claims.session_id) (λ e. answer logged_out)
          (λ s. or_internal (revoke_family site.env s.family_id) (λ _. answer logged_out))

  unfoldable pub handle_logout_all : Claims → Handler
  handle_logout_all claims =
      or_internal (revoke_all_for_user site.env claims.subject) (λ _. answer logged_out)

  unfoldable pub handle_me : Claims → Handler
  handle_me claims =
      checked (user_by_id site.env claims.subject) (λ e. answer (missing e))
        (λ u.
          answer
            (record { status = 200; cookie = unset; background = none; body = me (user_json u) }))

  abbrev pub session_view : Claims → Session → SessionView
  session_view claims s = record {
    id = s.id;
    client_id = s.client_id;
    issued_at = s.issued_at;
    expires_at = s.expires_at;
    user_agent = s.user_agent;
    ip = s.ip;
    current = s.id == claims.session_id;
  }

  unfoldable pub handle_list_sessions : Claims → Handler
  handle_list_sessions claims =
      or_internal (active_sessions_for_user site.env claims.subject) (λ rows. answer (record {
        status = 200;
        cookie = unset;
        background = none;
        body = sessions (map (session_view claims) rows);
      }))

  unfoldable pub handle_delete_session : Claims → String → Handler
  handle_delete_session claims id =
      checked (session_by_id site.env id) (λ e. answer (missing e))
        (λ s.
          if not (s.user_id == claims.subject)
          then answer (write_err 404 "not_found")
          else or_internal (revoke_family site.env s.family_id) (λ _. answer no_content))
