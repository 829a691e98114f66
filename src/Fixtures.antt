-- ===== src/Fixtures.antt =====
-- A concrete environment and concrete tables, for the witnesses of the theorems: the clock counts
-- the events, tokens and ULIDs are told apart by their length, nothing fails, and a hash is its text.
use Prim.Native.Char.{code}
use authsvc.Prelude.{
  ℕ, zero, suc, ◌<◌, ◌≡◌, ◌≢◌, refl, ap, false, String, none, some, [], ◌∷◌, arith, leb,
}
use authsvc.Schema.{Database, User, Client, Session, OtpCode, login_otp}
use authsvc.Exec.{Env, World}

-- n marks behind a letter
abbrev pub marks : ℕ → String
marks zero = ""
marks (suc n) = String.◌∷◌ "x" (marks n)

abbrev count_marks : String → ℕ
count_marks String.[] = 0
count_marks (String.◌∷◌ c s) = suc (count_marks s)

count-marks : (n : ℕ) → count_marks (marks n) ≡ n
count-marks zero = refl
count-marks (suc n) = ap suc (count-marks n)

abbrev pub env : Env
env = record {
  time = λ k. k;
  ulid = λ k. String.◌∷◌ "u" (marks k);
  secret = λ k. String.◌∷◌ "s" (marks k);
  fails = λ k. false;
  sha256 = λ s. s;
  citext = λ s. s;
  collate = λ a b. leb (count_marks a) (count_marks b);
}

pub ulids_apart : (i j : ℕ) → i < j → env.ulid i ≢ env.ulid j
ulids_apart i j lt e = omega (arith, ap count_marks e, count-marks i, count-marks j)

abbrev first_mark : String → ℕ
first_mark String.[] = 0
first_mark (String.◌∷◌ c s) = code c

pub no_secret : (s : String) (k : ℕ) → env.secret k ≢ String.◌∷◌ "t" s
no_secret s k e = omega (arith, ap first_mark e)

pub no_ulid : (s : String) (k : ℕ) → String.◌∷◌ "f" s ≢ env.ulid k
no_ulid s k e = omega (arith, ap first_mark e)

abbrev pub ann : User
ann = record {
  id = "ann";
  email = "ann@example.org";
  email_verified_at = some 1;
  password_hash = some "h";
  created_at = 0;
  updated_at = 0;
  disabled_at = none;
}

abbrev pub app : Client
app = record {
  id = "app";
  name = "App";
  secret_hash = "h";
  redirect_uris = "https://app.example" ∷ [];
  audience = "app";
}

abbrev pub phone : Session
phone = record {
  id = "first";
  user_id = "ann";
  client_id = "app";
  family_id = "first";
  parent_id = none;
  token_hash = "token";
  issued_at = 0;
  expires_at = 1000;
  used_at = none;
  revoked_at = none;
  user_agent = "";
  ip = "";
}

abbrev pub otp : OtpCode
otp = record {
  id = "otp";
  identifier = "app|ann@example.org";
  code_hash = "123456";
  purpose = login_otp;
  attempts = 0;
  expires_at = 1000;
  consumed_at = none;
  created_at = 0;
}

abbrev pub tables : Database
tables = record {
  users = ann ∷ [];
  identities = [];
  app_clients = app ∷ [];
  sessions = phone ∷ [];
  auth_codes = [];
  otp_codes = otp ∷ [];
  rate_limits = [];
  oauth_flows = [];
}

abbrev pub world : World
world = record { db = tables; tick = 0 }
