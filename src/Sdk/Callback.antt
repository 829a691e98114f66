-- ===== src/Sdk/Callback.antt =====
-- sdk/go/callback.go and errors.go: the end of a sign-in at the app, and what its errors say.
use authsvc.Prelude.{
  ◌≡◌, ◌==◌, refl, not, Bool, false, ◌||◌, String, Option, none, some, if◌then◌else◌,
}
use authsvc.Sdk.{Config, Fault, Got, got, fault, Network, exchange}
use authsvc.Exec.{manual_link_required, already_linked_elsewhere}
use authsvc.Web.Roundtrip.{login_error, link_error}

-- what the callback hands to the app's SessionHandler or to its ErrorHandler
pub data CallbackResult (S : Type 0) : Type 0 where
  on_session : S → CallbackResult S
  on_error : (code : String) → Option Fault → CallbackResult S

abbrev after_exchange : {S : Type 0} → Got S → CallbackResult S
after_exchange (got s) = on_session s
after_exchange (fault e) = on_error "exchange_failed" (some e)

-- HandleCallbackWithError, on the query parameters `error` and `code`
unfoldable pub handle_callback :
    {W B S : Type 0}
    → Network W B
    → (B → Option S)
    → Config
    → String
    → String
    → W
    → CallbackResult S × W
handle_callback net parse cfg error code w =
    let exchanged = exchange net parse cfg code w in
    if not (error == "")
    then (on_error error none, w)
    else if code == ""
    then (on_error "missing_code" none, w)
    else (after_exchange exchanged.0, exchanged.1)

-- CallbackError.Message: the title and the detail
unfoldable pub message : String → String × String
message c =
    if c == "manual_link_required"
    then (
      "You already have an account with this email",
      "Sign in with your password, then connect this account from your settings. We don't link them automatically because we can't yet confirm both accounts belong to you.",
    )
    else if c == "already_linked"
    then (
      "That account is already connected to someone else",
      "This provider account is linked to a different user. Sign in with that account, or disconnect it there first.",
    )
    else if c == "access_denied"
    then (
      "Sign-in was cancelled",
      "You can try again, or sign in with your email and password instead.",
    )
    else if c == "account_disabled"
    then ("This account is disabled", "Get in touch if you think that's a mistake.")
    else if c == "missing_code" || (c == "exchange_failed" || c == "login_failed")
    then ("Sign-in didn't complete", "Something went wrong on our end. Please try again.")
    else ("Sign-in didn't complete", "Please try again.")

-- CallbackError.Retryable
unfoldable pub retryable : String → Bool
retryable c =
    not (c == "manual_link_required" || (c == "already_linked" || c == "account_disabled"))

-- the refusals of Resolve and of LinkToUser reach the app as errors that no retry mends
refusals_not_retryable :
    (retryable (login_error manual_link_required) ≡ false)
    × (retryable (link_error already_linked_elsewhere) ≡ false)
unfolding retryable
refusals_not_retryable = (refl, refl)

-- an error that the service reports costs no call
handle_callback-reported :
    {W B S : Type 0} (net : Network W B) (parse : B → Option S) (cfg : Config) (error code : String)
    (w : W)
    → (error == "") ≡ false
    → handle_callback net parse cfg error code w ≡ (on_error error none, w)
unfolding handle_callback
handle_callback-reported net parse cfg error code w reported = rw reported refl
