-- ===== src/Notify/Examples.antt =====
-- A mail to a concrete server.
use authsvc.Prelude.{◌≡◌, refl, true, false, Bool, [], ◌∷◌}
use authsvc.Schema.{login_otp}
use authsvc.Notify.{email, prepare_smtp, has_line_break}
use authsvc.Notify.Conversation.{
  SmtpSender, Peer, Command, Veiled, dial, greet, auth, say, deliver, log_in, converse, send_smtp,
  send_smtp-Veiled,
}

abbrev sender : SmtpSender
sender = record { host = "mx"; addr = "mx:587"; user = "u"; pass = "p"; from = "a@example.org" }

abbrev takes_auth : Command → Bool
takes_auth c = elim c [ auth u p ↦ false | _ ↦ true ]

abbrev peer : Peer
peer = record { takes = λ log c. true; has_starttls = λ log. true }

-- a server without STARTTLS that refuses the password
abbrev strict : Peer
strict = record { takes = λ log c. takes_auth c; has_starttls = λ log. false }

refused_test : (converse strict sender "b@example.org" "hi") ≡ record {
  log =
      record { command = dial "mx:587"; taken = true }
      ∷ record { command = greet "mx"; taken = true }
      ∷ record { command = auth "u" "p"; taken = false }
      ∷ [];
  fine = false;
}
unfolding converse log_in deliver say
refused_test = refl

-- an address with a line break reaches no server
split_test :
    (send_smtp peer sender (email "b@example.org\r\nBcc: c@example.org") login_otp "1").log ≡ []
unfolding send_smtp prepare_smtp has_line_break
split_test = refl

send_smtp-Veiled_example : Veiled (send_smtp peer sender (email "b@example.org") login_otp "1").log
send_smtp-Veiled_example =
    send_smtp-Veiled peer sender (email "b@example.org") login_otp "1" (λ log. refl)
