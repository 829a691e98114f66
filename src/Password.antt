-- ===== src/Password.antt =====
-- internal/password/password.go: passwords are hashed with argon2id and stored in the PHC string format.
-- golang.org/x/crypto/argon2 is the parameter `Argon2`.
pub mod Roundtrip
pub mod Login
pub mod Examples
use Prim.Native.Char.{Char, code}
use Prim.Native.String.{◌++◌}
use authsvc.Prelude.{
  ℕ, ◌*◌, ◌^◌, ◌%◌, ◌==◌, Bool, true, false, ◌&&◌, String, and_then, Option, none, some, List, [],
  ◌∷◌, eqb, if◌then◌else◌,
}
use authsvc.Prelude.Int.{ℤ, pos, negsuc}
use authsvc.Prelude.Lists.{length}
use authsvc.Base64.{Bytes, encode, decode}
use authsvc.Scan.{print, split_at, literal, scan_int, scan_uint}

pub record Params : Type 0 where
  pub memory : ℕ
  pub time : ℕ
  pub parallelism : ℕ
  pub salt_len : ℕ
  pub key_len : ℕ

abbrev pub default_params : Params
default_params = record {
  memory = 64 * 1024;
  time = 3;
  parallelism = 2;
  salt_len = 16;
  key_len = 32;
}

-- argon2.Version and argon2.IDKey, of a password, a salt, the time, the memory, the threads and the
-- length of the key. IDKey panics, `none`, on a time or a number of threads of 0.
pub record Argon2 : Type 0 where
  pub version : ℕ
  pub id_key : String → Bytes → ℕ → ℕ → ℕ → ℕ → Option Bytes

-- a hash, the error of rand.Read, or a panic
pub data Hashed : Type 0 where
  hashed : String → Hashed
  no_salt hash_panicked : Hashed

-- whether the password matches, ErrInvalidHash, or a panic
pub data Verdict : Type 0 where
  told : Bool → Verdict
  invalid_hash verify_panicked : Verdict

abbrev pub params_text : Params → String
params_text p =
    "m=" ++ (print p.memory ++ (",t=" ++ (print p.time ++ (",p=" ++ print p.parallelism))))

abbrev pub version_text : ℕ → String
version_text v = "v=" ++ print v

-- fmt.Sprintf("$argon2id$v=%d$m=%d,t=%d,p=%d$%s$%s", ...)
unfoldable pub phc_text : ℕ → Params → Bytes → Bytes → String
phc_text version p salt key =
    "$"
    ++ ("argon2id"
        ++ ("$"
            ++ (version_text version
                ++ ("$" ++ (params_text p ++ ("$" ++ (encode salt ++ ("$" ++ encode key))))))))

abbrev encoded : ℕ → Params → Bytes → Option Bytes → Hashed
encoded version p salt none = hash_panicked
encoded version p salt (some key) = hashed (phc_text version p salt key)

-- the parts of a hash that Verify reads
pub record Parsed : Type 0 where
  pub memory : ℕ
  pub time : ℕ
  pub parallelism : ℕ
  pub salt : Bytes
  pub want : Bytes

-- fmt.Sscanf(part, "v=%d", &version)
unfoldable pub scan_version : String → Option ℤ
unfolding literal scan_int
scan_version part = and_then (literal "v=" part) (λ s. and_then (scan_int s) (λ read. some read.0))

-- fmt.Sscanf(part, "m=%d,t=%d,p=%d", &p.Memory, &p.Time, &p.Parallelism)
unfoldable pub scan_params : String → Option (ℕ × (ℕ × ℕ))
unfolding literal scan_uint
scan_params part = and_then (literal "m=" part) (λ s. and_then (scan_uint 32 s) (λ m.
    and_then (literal ",t=" m.1) (λ s1. and_then (scan_uint 32 s1) (λ t.
      and_then (literal ",p=" t.1)
        (λ s2. and_then (scan_uint 8 s2) (λ p. some (m.0, (t.0, p.0))))))))

abbrev is_version : ℕ → ℤ → Bool
is_version v (pos n) = eqb n v
is_version v (negsuc n) = false

-- the six parts of a hash
unfoldable pub parse_parts : ℕ → List String → Option Parsed
unfolding scan_version scan_params decode
parse_parts version (before ∷ name ∷ v ∷ params ∷ salt ∷ key ∷ []) =
    if before == "" && name == "argon2id"
    then and_then (scan_version v) (λ n.
      if is_version version n
      then and_then (scan_params params) (λ p. and_then (decode salt) (λ bytes.
        and_then (decode key) (λ want.
          some (record {
            memory = p.0;
            time = p.1.0;
            parallelism = p.1.1;
            salt = bytes;
            want = want;
          }))))
      else none)
    else none
parse_parts version parts = none

-- subtle.ConstantTimeCompare
unfoldable pub same_bytes : Bytes → Bytes → Bool
same_bytes [] [] = true
same_bytes [] (b ∷ bs) = false
same_bytes (a ∷ as1) [] = false
same_bytes (a ∷ as1) (b ∷ bs) = let rest = same_bytes as1 bs in eqb a b && rest

abbrev pub compared : Bytes → Option Bytes → Verdict
compared want none = verify_panicked
compared want (some got) = told (same_bytes got want)

abbrev judge_hash : Argon2 → String → Option Parsed → Verdict
judge_hash argon plain none = invalid_hash
judge_hash argon plain (some h) =
    compared h.want
      (argon.id_key plain h.salt h.time h.memory h.parallelism (length h.want % 2 ^ 32))

module _ (argon : Argon2) where
  abbrev with_salt : String → Params → Option Bytes → Hashed
  with_salt plain p none = no_salt
  with_salt plain p (some salt) =
      encoded argon.version p salt (argon.id_key plain salt p.time p.memory p.parallelism p.key_len)

  -- `draw n` is what rand.Read fills n bytes with, `none` where it fails.
  unfoldable pub hash_with_params : (ℕ → Option Bytes) → String → Params → Hashed
  unfolding phc_text
  hash_with_params draw plain p = with_salt plain p (draw p.salt_len)

  unfoldable pub hash : (ℕ → Option Bytes) → String → Hashed
  unfolding hash_with_params
  hash draw plain = hash_with_params draw plain default_params

  unfoldable pub verify_hash : String → String → Verdict
  unfolding parse_parts split_at same_bytes
  verify_hash text plain = judge_hash argon plain (parse_parts argon.version (split_at 36 text))
