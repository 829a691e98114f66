-- ===== src/Web/Enumeration.antt =====
-- What the answers to a request by mail say of which addresses have accounts.
use Prim.Native.String.{◌++◌}
use authsvc.Prelude.{ℕ, ◌≡◌, refl, sym, ◌∙◌, ◌==◌, String, List, Bool-cases, Option-cases, inl, inr}
use authsvc.Schema.{Database, User, Client, OtpCode, Purpose}
use authsvc.Exec.{Env, World, norows}
use authsvc.Table.{insert}
use authsvc.RateLimit.{allow}
use authsvc.Users.{client_by_id}
use authsvc.Sessions.{SessionMeta}
use authsvc.Otp.{insert_code, issue_body, issue_code, has_id}
use authsvc.Web.{hour, Site, Handler, answer, limit, lookup_client, checked, Reply}
use authsvc.Web.Cases.{checked_both}
use authsvc.Web.Register.{
  handle_password_forgot, mail_reset, handle_otp_request, mint_code, mail_code, valid_email,
  new_numeric_code, accepted,
}
use authsvc.Web.Blind.{
  Blind, Alike, other_users, bind-Blind, pure-Blind, now-Blind, make_ulid-Blind, exec-Blind,
  exec_checked-Blind, with_other, exec_returning-Blind, query_row-Blind, or_else-Blind,
  transaction-Blind, ask-Blind, checked-Alike,
}

insert_code-other :
    (c : OtpCode) (us : List User) (d : Database)
    → insert_code c (record d { users = us }) ≡ with_other us (insert_code c d)
unfolding insert_code
insert_code-other c us d = elim (Option-cases (insert (has_id c.id) c d.otp_codes)) [
  | inl taken ↦ rw taken refl
  | inr (rows, stored) ↦ rw stored refl
]

module _ (env : Env) where
  allow-Blind : (bucket : String) (n window : ℕ) → Blind (allow env bucket n window)
  unfolding allow
  allow-Blind bucket n window =
      bind-Blind _ _ (now-Blind env)
        (λ t. bind-Blind _ _ (exec_returning-Blind env _ (λ us d. refl)) (λ count. pure-Blind _))

  issue_code-Blind :
      (identifier : String) (p : Purpose) (code : String) (ttl : ℕ)
      → Blind (issue_code env identifier p code ttl)
  unfolding issue_code issue_body
  issue_code-Blind identifier p code ttl = transaction-Blind env _ (
      bind-Blind _ _ (now-Blind env) (λ t. bind-Blind _ _ (exec-Blind env _ (λ us d. refl)) (λ _.
        bind-Blind _ _ (make_ulid-Blind env) (λ id.
          bind-Blind _ _ (exec_checked-Blind env _ (insert_code-other _)) (λ _. pure-Blind _)))))

abbrev forgot : Reply
forgot = accepted "sent_if_registered"

module _ (site : Site) where
  limit-Alike :
      (bucket : String) (n window : ℕ) (proceed : Handler)
      → Alike proceed
      → Alike (limit site bucket n window proceed)
  unfolding limit
  limit-Alike bucket n window proceed h =
      checked-Alike _ _ _ (allow-Blind site.env bucket n window) (λ e us w. refl)
        (λ fine us w. elim (Bool-cases fine) [
          | inl room ↦ rw room (h us w)
          | inr full ↦ rw full refl
        ])

  lookup_client-Alike :
      (id : String) (proceed : Client → Handler)
      → ((c : Client) → Alike (proceed c))
      → Alike (lookup_client site id proceed)
  unfolding lookup_client client_by_id
  lookup_client-Alike id proceed h us w = elim (Bool-cases (id == "")) [
    | inl blank ↦ rw blank refl
    | inr named ↦ rw named (
        checked-Alike _ _ _ (or_else-Blind _ norows (query_row-Blind site.env _ (λ us d. refl)))
          (λ e us w. refl) h us w)
  ]

  -- one answer, whatever becomes of the mail
  forgotten :
      (email : String) (w : World)
      → (checked (mail_reset site email) (λ e. answer forgot) (λ _. answer forgot) w).0 ≡ forgot
  forgotten email w =
      checked_both (mail_reset site email) _ _ w (λ o. o.0 ≡ forgot) (λ e _. refl) (λ a _. refl)

  handle_password_forgot-Alike :
      (address : String) (m : SessionMeta) → Alike (handle_password_forgot site address m)
  unfolding handle_password_forgot
  handle_password_forgot-Alike address m =
      limit-Alike _ 10 _ _ (limit-Alike _ 3 _ _ (λ us w. forgotten _ _ ∙ sym (forgotten _ w)))

  mint_code-Alike : (email : String) (c : Client) → Alike (mint_code site email c)
  unfolding mint_code new_numeric_code mail_code
  mint_code-Alike email c =
      checked-Alike _ _ _ (ask-Blind _) (λ e us w. refl)
        (λ otp.
          checked-Alike _ _ _ (issue_code-Blind site.env _ _ otp _) (λ e us w. refl)
            (λ _. checked-Alike _ _ _ (ask-Blind _) (λ e us w. refl) (λ _ us w. refl)))

  asked-Alike :
      (client_id email : String) (m : SessionMeta)
      → Alike (
          limit site ("otp:ip:" ++ m.ip) 20 hour (
            limit site
              ("otp:id:" ++ email)
              5
              hour
              (lookup_client site client_id (mint_code site email))))
  asked-Alike client_id email m =
      limit-Alike _ 20 _ _
        (limit-Alike _ 5 _ _ (lookup_client-Alike client_id _ (mint_code-Alike email)))

  handle_otp_request-Alike :
      (client_id address : String) (m : SessionMeta)
      → Alike (handle_otp_request site client_id address m)
  unfolding handle_otp_request
  handle_otp_request-Alike client_id address m us w =
      elim (Bool-cases (valid_email (site.normalize_email address))) [
        | inr odd ↦ rw odd refl
        | inl fine ↦ rw fine (asked-Alike client_id (site.normalize_email address) m us w)
      ]

  -- A request for a reset link and one for a login code are answered the same on whatever accounts there
  -- are.
  pub mail_requests_alike :
      (client_id address : String) (m : SessionMeta) (us : List User) (w : World)
      → ((handle_password_forgot site address m (other_users us w)).0
          ≡ (handle_password_forgot site address m w).0)
        × ((handle_otp_request site client_id address m (other_users us w)).0
            ≡ (handle_otp_request site client_id address m w).0)
  mail_requests_alike client_id address m us w = (
    handle_password_forgot-Alike address m us w,
    handle_otp_request-Alike client_id address m us w,
  )
