-- ===== src/Password/Login.antt =====
-- A password login of internal/httpapi/auth.go over the hashes of internal/password.
mod Examples
use authsvc.Prelude.{
  ℕ, ◌*◌, ◌^◌, ◌<◌, ◌≡◌, refl, sym, Bool, true, String, Option, some, none, arith,
}
use authsvc.Prelude.Lists.{All}
use authsvc.Schema.{User}
use authsvc.Exec.{World}
use authsvc.Table.{select_row}
use authsvc.Users.{has_email}
use authsvc.Sessions.{SessionMeta}
use authsvc.Web.{Site, TokenResponse, tokens}
use authsvc.Web.Login.{handle_login}
use authsvc.Web.Password.{handle_login-Verified}
use authsvc.Base64.{Bytes}
use authsvc.Password.{
  Argon2, Hashed, hashed, no_salt, hash_panicked, Verdict, told, invalid_hash, verify_panicked,
  default_params, hash, hash_with_params, verify_hash,
}
use authsvc.Password.Roundtrip.{Argon2Laws, Fits, verify_hash-hash}

abbrev pub made_hash : Hashed → Option String
made_hash (hashed text) = some text
made_hash no_salt = none
made_hash hash_panicked = none

abbrev pub verdict_of : Verdict → Option Bool
verdict_of (told match) = some match
verdict_of invalid_hash = none
verdict_of verify_panicked = none

-- A site whose passwords are those of internal/password: `draw k n` is what event k draws n bytes of.
-- The login answers a panic as it does an error, by 500.
abbrev pub with_passwords : Argon2 → (ℕ → ℕ → Option Bytes) → Site → Site
with_passwords argon draw site = record site {
  hash_password = λ k plain. made_hash (hash argon (draw k) plain);
  verify_password = λ text plain. verdict_of (verify_hash argon text plain);
}

default_params-Fits : Fits default_params
default_params-Fits = record {
  memory = omega arith;
  time = omega arith;
  parallelism = omega arith;
  key_len = omega arith;
}

accepted_told : (v : Verdict) → verdict_of v ≡ some true → v ≡ told true
accepted_told (told match) e = cc
accepted_told invalid_hash e = cc
accepted_told verify_panicked e = cc

-- the key of a password at the default costs
abbrev pub default_key : Argon2 → Bytes → String → Option Bytes
default_key argon salt plain = argon.id_key plain salt 3 (64 * 1024) 2 32

module _ (argon : Argon2) (laws : Argon2Laws argon) (draw : ℕ → ℕ → Option Bytes)
    (site : Site) where
  -- Where an account has the hash that was made of a password with a drawn salt, a login with its
  -- address answers with tokens only to a guess that argon2 gives the same key as that password, at
  -- the default costs.
  pub handle_login-default_key :
      (dummy client_id address guess plain text : String) (m : SessionMeta) (w : World)
      (t : TokenResponse) (k : ℕ) (salt : Bytes) (user : User)
      → draw k 16 ≡ some salt
      → All (λ b. b < 256) salt
      → hash argon (draw k) plain ≡ hashed text
      → select_row (has_email site.env (site.normalize_email address)) w.db.users ≡ some user
      → user.password_hash ≡ some text
      → (handle_login (with_passwords argon draw site) dummy client_id address guess m w).0.body
        ≡ tokens t
      → default_key argon salt guess ≡ default_key argon salt plain
  unfolding hash
  handle_login-default_key dummy client_id address guess plain text m w t k salt user drawn bytes
        made found stored h =
      let x =
        handle_login-Verified (with_passwords argon draw site) t dummy client_id address guess m w
          h in
      let same_user : x.user ≡ user = cc (x.found, found) in
      let has : user.password_hash ≡ some x.hash = rw same_user at x.has_hash in
      let same_text : x.hash ≡ text = cc (has, stored) in
      let accepted : verify_hash argon text guess ≡ told true =
        accepted_told (verify_hash argon text guess) (rw same_text at x.verified) in
      (verify_hash-hash argon laws default_params default_params-Fits salt bytes (draw k) plain text
          guess drawn made).0.0
        accepted
