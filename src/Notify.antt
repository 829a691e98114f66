-- ===== src/Notify.antt =====
-- internal/notify/notify.go, smtp.go and resend.go: the mail of a code, up to the conversation with the
-- server or the HTTPS API.
pub mod Conversation
mod Examples
use Prim.Native.String.{◌++◌}
use Prim.Native.Char.{code}
use text.Mathlib.TextLemmas.{nil-append, cons-append}
use authsvc.Prelude.{
  ap, ℕ, zero, suc, ◌+◌, ◌*◌, not, ltb, Option, none, some, ◌≡◌, refl, arith, Bool, false, ◌||◌,
  String, List, [], ◌∷◌, eqb, if◌then◌else◌,
}
use authsvc.Prelude.Int.{ℤ, pos, negsuc}
use authsvc.Schema.{Purpose, login_otp, email_verify, password_reset}

pub data Kind : Type 0 where
  kind_email kind_phone : Kind

pub record Address : Type 0 where
  pub kind : Kind
  pub value : String

abbrev pub email : String → Address
email v = record { kind = kind_email; value = v }

abbrev pub subject_for : Purpose → String
subject_for login_otp = "Your sign-in code"
subject_for email_verify = "Verify your email"
subject_for password_reset = "Reset your password"

abbrev pub body_for : Purpose → String → String
body_for login_otp c =
    "Your sign-in code is "
    ++ (c ++ ". It expires in 10 minutes.\n\nIf you didn't ask for this, ignore this email.")
body_for email_verify c =
    "Confirm your email address with this token:\n\n" ++ (c ++ "\n\nIt expires in 24 hours.")
body_for password_reset c =
    "Use this token to reset your password:\n\n"
    ++ (c
        ++ "\n\nIt expires in 1 hour. If you didn't ask for this, ignore this email — your password has not changed.")

-- strings.ContainsAny of a carriage return and a line feed
unfoldable pub has_line_break : String → Bool
has_line_break String.[] = false
has_line_break (String.◌∷◌ c s) = (eqb (code c) 13 || eqb (code c) 10) || has_line_break s

pub data SendError : Type 0 where
  not_email line_break : SendError

pub data Prepared (A : Type 0) : Type 0 where
  prepared : A → Prepared A
  rejected : SendError → Prepared A

unfoldable pub smtp_message : String → String → Purpose → String → String
smtp_message from to p c =
    "From: "
    ++ (from
        ++ ("\r\n"
            ++ ("To: "
                ++ (to
                    ++ ("\r\n"
                        ++ ("Subject: "
                            ++ (subject_for p
                                ++ ("\r\nMIME-Version: 1.0\r\nContent-Type: text/plain; charset=utf-8\r\n\r\n"
                                    ++ (body_for p c ++ "\r\n")))))))))

pub record ResendReq : Type 0 where
  pub from : String
  pub to : List String
  pub subject : String
  pub content : String

abbrev guarded_kind : {A : Type 0} → Kind → String → A → Prepared A
guarded_kind kind_phone v a = rejected not_email
guarded_kind kind_email v a = if has_line_break v then rejected line_break else prepared a

abbrev guarded : {A : Type 0} → Address → A → Prepared A
guarded to a = guarded_kind to.kind to.value a

-- SMTPSender.SendCode up to the dial
unfoldable pub prepare_smtp : String → Address → Purpose → String → Prepared String
prepare_smtp from to p c = guarded to (smtp_message from to.value p c)

-- ResendSender.SendCode up to the request
unfoldable pub prepare_resend : String → Address → Purpose → String → Prepared ResendReq
prepare_resend from to p c =
    guarded to
      (record { from = from; to = to.value ∷ []; subject = subject_for p; content = body_for p c })

-- the answer of the API: no error and a status that says success
unfoldable pub resend_accepted : Option ℕ → Bool
resend_accepted none = false
resend_accepted (some status) = not (ltb status 200 || ltb 299 status)

-- ResendSender.SendCode, where `post` is the API
unfoldable pub send_resend : (ResendReq → Option ℕ) → String → Address → Purpose → String → Bool
unfolding prepare_resend resend_accepted
send_resend post from to p c = posted (prepare_resend from to p c)
  where
    posted : Prepared ResendReq → Bool
    posted (rejected e) = false
    posted (prepared req) = resend_accepted (post req)

-- DefaultSMTPTimeout and SMTPSender.timeout
abbrev pub default_smtp_timeout : ℤ
default_smtp_timeout = pos (20 * 1000000000)

abbrev pub timeout : ℤ → ℤ
timeout (pos zero) = default_smtp_timeout
timeout (pos (suc n)) = pos (suc n)
timeout (negsuc n) = default_smtp_timeout

-- how many line feeds a text has
unfoldable pub line_count : String → ℕ
line_count String.[] = 0
line_count (String.◌∷◌ c s) = (if eqb (code c) 10 then 1 else 0) + line_count s

line_count-append : (s t : String) → line_count (s ++ t) ≡ line_count s + line_count t
unfolding line_count
line_count-append String.[] t = omega (arith, ap line_count (nil-append t))
line_count-append (String.◌∷◌ c s) t =
    omega (arith, line_count-append s t, ap line_count (cons-append c s t))

line_count-flat : (s : String) → has_line_break s ≡ false → line_count s ≡ 0
unfolding line_count has_line_break
line_count-flat String.[] h = refl
line_count-flat (String.◌∷◌ c s) h = ground (arith, line_count-flat s)

subject_for-flat : (p : Purpose) → line_count (subject_for p) ≡ 0
unfolding line_count
subject_for-flat login_otp = refl
subject_for-flat email_verify = refl
subject_for-flat password_reset = refl

-- an address that is let through leaves the message with its six lines of head, one of them empty
smtp_message-head :
    (from to : String) (p : Purpose) (c : String)
    → has_line_break from ≡ false
    → has_line_break to ≡ false
    → line_count (smtp_message from to p c) ≡ 7 + line_count (body_for p c)
unfolding smtp_message line_count
smtp_message-head from to p c flat flat' =
    simp
      (line_count-append, line_count-flat from flat, line_count-flat to flat', subject_for-flat p)
      (omega arith)
