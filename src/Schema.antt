-- ===== src/Schema.antt =====
-- The rows of internal/store/migrations/*.sql and the Go structs of internal/store that they are
-- scanned into. Times are nanoseconds; a column that may be NULL, and a Go pointer, is an Option.
use authsvc.Prelude.{ℕ, String, Bool, Option, List, is_some}

pub record User : Type 0 where
  pub id : String
  pub email : String
  pub email_verified_at : Option ℕ
  pub password_hash : Option String
  pub created_at : ℕ
  pub updated_at : ℕ
  pub disabled_at : Option ℕ

abbrev pub email_verified : User → Bool
email_verified u = is_some u.email_verified_at

pub record Identity : Type 0 where
  pub id : String
  pub user_id : String
  pub provider : String
  pub subject : String
  pub email : String
  pub email_verified : Bool
  pub raw_profile : Option String

pub record Client : Type 0 where
  pub id : String
  pub name : String
  pub secret_hash : String
  pub redirect_uris : List String
  pub audience : String

pub record Session : Type 0 where
  pub id : String
  pub user_id : String
  pub client_id : String
  pub family_id : String
  pub parent_id : Option String
  pub token_hash : String
  pub issued_at : ℕ
  pub expires_at : ℕ
  pub used_at : Option ℕ
  pub revoked_at : Option ℕ
  pub user_agent : String
  pub ip : String

pub record OauthFlow : Type 0 where
  pub state_hash : String
  pub provider : String
  pub client_id : String
  pub redirect_uri : String
  pub app_state : String
  pub code_verifier : String
  pub link_user_id : Option String
  pub created_at : ℕ
  pub expires_at : ℕ
  pub consumed_at : Option ℕ

pub record AuthCode : Type 0 where
  pub code_hash : String
  pub user_id : String
  pub client_id : String
  pub redirect_uri : String
  pub expires_at : ℕ
  pub consumed_at : Option ℕ

pub data Purpose : Type 0 where
  login_otp email_verify password_reset : Purpose

pub record OtpCode : Type 0 where
  pub id : String
  pub identifier : String
  pub code_hash : String
  pub purpose : Purpose
  pub attempts : ℕ
  pub expires_at : ℕ
  pub consumed_at : Option ℕ
  pub created_at : ℕ

pub record RateLimit : Type 0 where
  pub bucket : String
  pub window_start : ℕ
  pub count : ℕ

pub record Database : Type 0 where
  pub users : List User
  pub identities : List Identity
  pub app_clients : List Client
  pub sessions : List Session
  pub auth_codes : List AuthCode
  pub otp_codes : List OtpCode
  pub rate_limits : List RateLimit
  pub oauth_flows : List OauthFlow
