-- ===== src/Api/Examples.antt =====
-- Requests to a concrete server.
use authsvc.Prelude.{◌≡◌, refl, true, some, none, [], ◌∷◌}
use authsvc.Text.{cut_last, trim_space, trim_left, trim_right, bearer_token, after_fold}
use authsvc.Table.{select_row}
use authsvc.Exec.{◌>>=◌}
use authsvc.Users.{user_by_id}
use authsvc.Sessions.{session_by_id}
use authsvc.Web.{
  me, user_json, checked, ask, require_user, require_live, method_not_allowed, failure,
}
use authsvc.Web.Account.{handle_me}
use authsvc.Web.Fixtures.{site}
use authsvc.Http.{Request, client_ip, matched, captures}
use authsvc.Api.{Server, mux, routes, serve, with_provider}
use authsvc.Api.Guarded.{Permitted, serve-Permitted}
use authsvc.Fixtures.{world, ann}

abbrev server : Server
server = record {
  site = site;
  admin_api_key = "key";
  providers = "github" ∷ [];
  to_lower = λ s. s;
  bytes = λ s. 0;
  parse_url = λ s. none;
  dummy_hash = "dummy";
  decode_fields = λ names body. none;
  is_eof = λ rest. true;
  decode_quiet = λ body. "";
  jwks = λ k. some "{}";
}

abbrev get_me : Request
get_me = record {
  method = "GET";
  path = "v1" ∷ "me" ∷ [];
  query = λ name. "";
  authorization = "Bearer ann";
  x_admin_key = "";
  x_forwarded_for = "10.0.0.7, 10.0.0.1";
  remote_addr = "[::1]:80";
  user_agent = "browser";
  refresh_cookie = "";
  body = "";
}

-- the first of the forwarded addresses, or the remote one without its port
client_ip_test :
    (client_ip get_me ≡ "10.0.0.7") × (client_ip (record get_me { x_forwarded_for = "" }) ≡ "[::1]")
unfolding client_ip cut_last trim_space trim_left trim_right
client_ip_test = (refl, refl)

me_test : (serve server get_me world).0.body ≡ me (user_json ann)
unfolding serve mux routes matched captures require_user require_live checked ask session_by_id
    user_by_id handle_me select_row bearer_token after_fold trim_space trim_left trim_right ◌>>=◌
me_test = refl

-- another method, an unknown path, an unknown provider and a missing token
refusals :
    ((serve server (record get_me { method = "PUT" }) world).0.body ≡ method_not_allowed)
    × (((serve server (record get_me { path = "v2" ∷ [] }) world).0.body ≡ failure "not_found")
        × (((serve server
                (record get_me { path = "v1" ∷ "oauth" ∷ "gitlab" ∷ "start" ∷ [] })
                world).0.body
              ≡ failure "unknown_provider")
            × ((serve server (record get_me { authorization = "ann" }) world).0.body
                ≡ failure "unauthorized")))
unfolding serve mux routes matched captures require_user with_provider bearer_token after_fold
refusals = (refl, (refl, (refl, refl)))

serve-Permitted_example : Permitted server get_me world (serve server get_me world).1
serve-Permitted_example = serve-Permitted server get_me world
