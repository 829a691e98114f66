-- ===== src/Command/Startup.antt =====
-- What the process can rely on once it serves.
use mathlib.Core.Path.{subst}
use authsvc.Prelude.{
  ◌≡◌, ◌≢◌, ◌⊎◌, refl, sym, ap, ◌∙◌, ◌==◌, not, true, false, ◌&&◌, ◌||◌, is_some, String, Option,
  some, Bool-cases, Option-cases, inl, inr, arith,
}
use authsvc.Providers.Email.{and_then-some, some-injective}
use authsvc.Prelude.Int.{ℤ}
use authsvc.Config.{
  Config, Loaded, loaded, refused, load, missing_of, or_missing, or_insecure, with_mail_from,
  has_prefix, smtp_configured, mail_configured, env, smtp_port, config_of, LoadError,
}
use authsvc.Tokens.{Jwx, new_signer}
use authsvc.Command.{
  Sender, log_sender, build_sender, Server, run, signer_config, with_signer, server_of,
}

-- settings that Load lets through
pub record Usable (c : Config) : Type 0 where
  pub database : (c.database_url == "") ≡ false
  pub key : (c.signing_key == "") ≡ false
  pub admin : (c.admin_api_key == "") ≡ false
  pub https : c.dev ≡ false → has_prefix "https://" c.issuer ≡ true

Loaded-cases : (l : Loaded) → ((e : LoadError) × (l ≡ refused e)) ⊎ ((c : Config) × (l ≡ loaded c))
Loaded-cases (refused e) = inl (e, refl)
Loaded-cases (loaded c) = inr (c, refl)

loaded-injective : {c d : Config} → loaded c ≡ loaded d → c ≡ d
loaded-injective e = cc

or_insecure-https :
    (c d : Config)
    → or_insecure c ≡ loaded d
    → (c ≡ d) × (c.dev ≡ false → has_prefix "https://" c.issuer ≡ true)
or_insecure-https c d h = elim (Bool-cases (not c.dev && not (has_prefix "https://" c.issuer))) [
  | inl plain ↦ absurd (cc (rw plain at h))
  | inr safe ↦ (loaded-injective (rw safe at h), λ live. ground arith)
]

checked_config-Usable :
    (c d : Config) → or_missing c (missing_of c) ≡ loaded d → Usable d × (d.dev ≡ c.dev)
checked_config-Usable c d h = elim (Bool-cases (c.database_url == "")) [
  | inl gone ↦ absurd (cc (rw gone at h))
  | inr database ↦ elim (Bool-cases (c.signing_key == "")) [
    | inl gone ↦ absurd (cc (rw (database, gone) at h))
    | inr key ↦ elim (Bool-cases (c.admin_api_key == "")) [
      | inl gone ↦ absurd (cc (rw (database, key, gone) at h))
      | inr admin ↦
          let (same, safe) =
            or_insecure-https (with_mail_from c) d (rw (database, key, admin) at h) in
          (
            subst Usable same
                (record { database = database; key = key; admin = admin; https = safe }),
            ap (λ (x : Config). x.dev) (sym same),
          )
    ]
  ]
]

-- there is a sender where a transport is set up, or in development
build_sender-mail_configured :
    (c : Config) → is_some (build_sender c) ≡ (mail_configured c || c.dev)
unfolding build_sender
build_sender-mail_configured c =
    elim (Bool-cases (not (c.resend_api_key == "") && not (c.mail_from == ""))) [
      | inl resend ↦ rw resend refl
      | inr other ↦ elim (Bool-cases (smtp_configured c.smtp)) [
        | inl smtp ↦ rw (other, smtp) refl
        | inr neither ↦ elim (Bool-cases c.dev) [
          | inl dev ↦ rw (other, neither, dev) refl
          | inr live ↦ rw (other, neither, live) refl
        ]
      ]
    ]

module _ (parse_duration atoi : String → Option ℤ) (getenv : String → String) where
  load-Usable :
      (c : Config)
      → load parse_duration atoi getenv ≡ loaded c
      → Usable c × (c.dev ≡ not (env parse_duration atoi getenv "DEV" "" == ""))
  unfolding load
  load-Usable c h =
      elim (Option-cases (parse_duration (env parse_duration atoi getenv "ACCESS_TTL" "1h"))) [
        | inl odd ↦ absurd (cc (rw odd at h))
        | inr (ttl, parsed) ↦ elim (Option-cases (smtp_port parse_duration atoi getenv)) [
          | inl odd ↦ absurd (cc (rw (parsed, odd) at h))
          | inr (port, given) ↦
              checked_config-Usable (config_of parse_duration atoi getenv ttl port) c
                (rw (parsed, given) at h)
        ]
      ]

  -- what a process serves with that is not set up for development
  pub record Hardened (server : Server) : Type 0 where
    pub https : has_prefix "https://" server.issuer ≡ true
    pub secure : server.secure ≡ true
    pub mailed : server.sender ≢ log_sender
    pub guarded : (server.admin_api_key == "") ≡ false

  build_sender-mailed :
      (c : Config) (sender : Sender)
      → c.dev ≡ false
      → build_sender c ≡ some sender
      → sender ≢ log_sender
  unfolding build_sender
  build_sender-mailed c sender live h logs =
      elim (Bool-cases (not (c.resend_api_key == "") && not (c.mail_from == ""))) [
        | inl resend ↦ absurd (cc (rw resend at h, logs))
        | inr other ↦ elim (Bool-cases (smtp_configured c.smtp)) [
          | inl smtp ↦ absurd (cc (rw (other, smtp) at h, logs))
          | inr neither ↦ absurd (cc (rw (other, neither, live) at h))
        ]
      ]

  -- Outside DEV the process serves only with an issuer that is https, with secure cookies, with a mail
  -- transport that does not print codes, and with an admin key.
  pub run-Hardened :
      {Raw : Type 0} (jwx : Jwx Raw) (server : Server)
      → run jwx parse_duration atoi getenv ≡ some server
      → getenv "DEV" ≡ ""
      → Hardened server
  unfolding run
  run-Hardened jwx server h live = elim (Loaded-cases (load parse_duration atoi getenv)) [
    | inl (e, failing) ↦ absurd (cc (rw failing at h))
    | inr (c, fine) ↦
        let (checked, marked) = load-Usable c fine in
        let off : c.dev ≡ false = marked ∙ rw live refl in
        let (signer, (_, h1)) =
          and_then-some (new_signer jwx (signer_config c)) (with_signer c) server (rw fine at h) in
        let (sender, (built, h2)) =
          and_then-some (build_sender c) (λ x. some (server_of c signer x)) server h1 in
        subst Hardened (some-injective h2) (record {
          https = checked.https off;
          secure = ap not off;
          mailed = build_sender-mailed c sender off built;
          guarded = checked.admin;
        })
  ]
