-- ===== src/Web/Fixtures.antt =====
-- A concrete site for the witnesses of the theorems on handlers: a password hash is the password, an
-- access token is the subject that it is for, and mail always goes out.
use authsvc.Prelude.{◌==◌, true, some, none, if◌then◌else◌}
use authsvc.Sessions.{SessionMeta}
use authsvc.Web.{Site, Claims}
use authsvc.Fixtures.{env}

abbrev pub anns_claims : Claims
anns_claims = record {
  subject = "ann";
  audience = "app";
  session_id = "first";
  email = "ann@example.org";
  email_verified = true;
}

abbrev pub site : Site
site = record {
  env = env;
  hash_password = λ k p. some p;
  verify_password = λ hash p. some (hash == p);
  sign_access = λ k c. some c.subject;
  verify_access = λ k bearer. if bearer == "ann" then some anns_claims else none;
  exchange = λ k provider code verifier. none;
  normalize_email = λ s. s;
  rand_int = λ k n. some 7;
  send_code = λ k to purpose code. some tt;
}

abbrev pub browser : SessionMeta
browser = record { user_agent = "browser"; ip = "10.0.0.1" }
