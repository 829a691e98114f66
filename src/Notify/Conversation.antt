-- ===== src/Notify/Conversation.antt =====
-- internal/notify/smtp.go: the conversation of SMTPSender.SendCode with a server, whose answers may
-- depend on all that was sent before. A command that fails ends it. `auth` is the call of
-- Auth, which on its part sends no password to a remote server without TLS.
use authsvc.Prelude.{
  ◌≡◌, refl, ◌==◌, Bool, true, false, String, List, [], ◌∷◌, ◌++◌, if◌then◌else◌, Bool-cases, inl,
  inr, ◌⊎◌,
}
use authsvc.Prelude.Lists.{All}
use authsvc.Schema.{Purpose}
use authsvc.Notify.{Address, Prepared, prepared, rejected, prepare_smtp}

pub record SmtpSender : Type 0 where
  pub host : String
  pub addr : String
  pub user : String
  pub pass : String
  pub from : String

pub data Command : Type 0 where
  dial greet start_tls : (host : String) → Command
  auth : (user pass : String) → Command
  mail rcpt write : String → Command
  begin_data end_data quit : Command

-- a command, and whether the server took it
pub record Line : Type 0 where
  pub command : Command
  pub taken : Bool

-- the lines in the order in which they were sent, and whether no error came back
pub record Sent : Type 0 where
  pub log : List Line
  pub fine : Bool

-- What the server does: whether it takes a command after the others, and whether it has STARTTLS.
pub record Peer : Type 0 where
  pub takes : List Line → Command → Bool
  pub has_starttls : List Line → Bool

abbrev line : Command → Bool → Line
line c taken = record { command = c; taken = taken }

module _ (peer : Peer) where
  -- `if err := …; err != nil { return err }`
  unfoldable pub say : List Line → Command → (List Line → Sent) → Sent
  say log c rest =
      if peer.takes log c
      then rest (log ++ line c true ∷ [])
      else record { log = log ++ line c false ∷ []; fine = false }

  abbrev done : List Line → Sent
  done log = record { log = log; fine = true }

  -- from c.Mail on
  unfoldable pub deliver : SmtpSender → String → String → List Line → Sent
  deliver s to msg log0 = say log0 (mail s.from) (λ log1. say log1 (rcpt to) (λ log2.
      say log2 begin_data
        (λ log3. say log3 (write msg) (λ log4. say log4 end_data (λ log5. say log5 quit done)))))

  unfoldable pub log_in : SmtpSender → String → String → List Line → Sent
  log_in s to msg log =
      if s.user == "" then deliver s to msg log else say log (auth s.user s.pass) (deliver s to msg)

  unfoldable pub converse : SmtpSender → String → String → Sent
  converse s to msg = say [] (dial s.addr) (λ log1. say log1 (greet s.host) (λ log2.
      if peer.has_starttls log2
      then say log2 (start_tls s.host) (log_in s to msg)
      else log_in s to msg log2))

  -- the conversation of a mail that is fit to send
  abbrev conversed : SmtpSender → String → Prepared String → Sent
  conversed s to (rejected e) = record { log = []; fine = false }
  conversed s to (prepared msg) = converse s to msg

  -- SMTPSender.SendCode
  unfoldable pub send_smtp : SmtpSender → Address → Purpose → String → Sent
  unfolding prepare_smtp
  send_smtp s to p c = conversed s to.value (prepare_smtp s.from to p c)

-- a command that gives away no password, address or code
abbrev is_opening : Command → Bool
is_opening (dial h) = true
is_opening (greet h) = true
is_opening (start_tls h) = true
is_opening c = false

-- the connection is encrypted from here on: STARTTLS, and the server took it
abbrev secures : Line → Bool
secures l = elim l.command [ start_tls h ↦ l.taken | _ ↦ false ]

-- the commands that go over the wire in the clear
unfoldable pub in_clear : List Line → List Command
in_clear [] = []
in_clear (l ∷ ls) = l.command ∷ (if secures l then [] else in_clear ls)

abbrev pub Veiled : List Line → Type 0
Veiled log = All (λ c. is_opening c ≡ true) (in_clear log)

-- one of the lines secured the connection
unfoldable Secured : List Line → Type 0
Secured [] = ⊥
Secured (l ∷ ls) = (secures l ≡ true) ⊎ Secured ls

-- an opening command adds nothing that must be veiled
Veiled-opening :
    (log : List Line) (l : Line) → Veiled log → is_opening l.command ≡ true → Veiled (log ++ l ∷ [])
unfolding in_clear
Veiled-opening [] l before opening = elim (Bool-cases (secures l)) [
  | inl tls ↦ rw tls (opening, tt)
  | inr not_yet ↦ rw not_yet (opening, tt)
]
Veiled-opening (x ∷ log) l (here, before) opening = elim (Bool-cases (secures x)) [
  | inl tls ↦ rw tls (here, tt)
  | inr not_yet ↦ rw not_yet (here, Veiled-opening log l (rw not_yet at before) opening)
]

-- behind the line that secured the connection anything may follow
in_clear-Secured :
    (log : List Line) (l : Line) → Secured log → in_clear (log ++ l ∷ []) ≡ in_clear log
unfolding in_clear Secured
in_clear-Secured [] l h = absurd h
in_clear-Secured (x ∷ log) l (inl tls) = rw tls refl
in_clear-Secured (x ∷ log) l (inr later) = rw (in_clear-Secured log l later) refl

Secured-longer : (log : List Line) (l : Line) → Secured log → Secured (log ++ l ∷ [])
unfolding Secured
Secured-longer [] l h = absurd h
Secured-longer (x ∷ log) l (inl tls) = inl tls
Secured-longer (x ∷ log) l (inr later) = inr (Secured-longer log l later)

Secured-last : (log : List Line) (h : String) → Secured (log ++ line (start_tls h) true ∷ [])
unfolding Secured
Secured-last [] h = inl refl
Secured-last (x ∷ log) h = inr (Secured-last log h)

module _ (peer : Peer) (s : SmtpSender) where
  say-Veiled :
      (log : List Line) (c : Command) (rest : List Line → Sent)
      → Veiled (log ++ line c false ∷ [])
      → Veiled (rest (log ++ line c true ∷ [])).log
      → Veiled (say peer log c rest).log
  unfolding say
  say-Veiled log c rest stopped went_on = elim (Bool-cases (peer.takes log c)) [
    | inl taken ↦ rw taken went_on
    | inr refused ↦ rw refused stopped
  ]

  -- any command, on a secured connection
  say-Secured :
      (log : List Line) (c : Command) (rest : List Line → Sent)
      → Secured log
      → Veiled log
      → ((log' : List Line) → Secured log' → Veiled log' → Veiled (rest log').log)
      → Veiled (say peer log c rest).log
  say-Secured log c rest safe before after =
      say-Veiled log c rest (rw (in_clear-Secured log (line c false) safe) before) (
        after _ (Secured-longer log (line c true) safe)
          (rw (in_clear-Secured log (line c true) safe) before))

  deliver-Veiled :
      (to msg : String) (log : List Line)
      → Secured log
      → Veiled log
      → Veiled (deliver peer s to msg log).log
  unfolding deliver
  deliver-Veiled to msg log s0 h0 = say-Secured log _ _ s0 h0 (λ log1 s1 h1.
      say-Secured log1 _ _ s1 h1 (λ log2 s2 h2. say-Secured log2 _ _ s2 h2 (λ log3 s3 h3.
        say-Secured log3 _ _ s3 h3 (λ log4 s4 h4.
          say-Secured log4 _ _ s4 h4
            (λ log5 s5 h5. say-Secured log5 _ _ s5 h5 (λ log6 s6 h6. h6))))))

  log_in-Veiled :
      (to msg : String) (log : List Line)
      → Secured log
      → Veiled log
      → Veiled (log_in peer s to msg log).log
  unfolding log_in
  log_in-Veiled to msg log safe before = elim (Bool-cases (s.user == "")) [
    | inl nobody ↦ rw nobody (deliver-Veiled to msg log safe before)
    | inr named ↦
        rw named (say-Secured log _ _ safe before (λ log1 s1 h1. deliver-Veiled to msg log1 s1 h1))
  ]

  converse-Veiled :
      (to msg : String)
      → ((log : List Line) → peer.has_starttls log ≡ true)
      → Veiled (converse peer s to msg).log
  unfolding converse in_clear
  converse-Veiled to msg offered =
      let log0 : List Line = [] in
      let h0 : Veiled log0 = tt in
      let log1 = log0 ++ line (dial s.addr) true ∷ [] in
      let h1 = Veiled-opening log0 (line (dial s.addr) true) h0 refl in
      let log2 = log1 ++ line (greet s.host) true ∷ [] in
      let h2 = Veiled-opening log1 (line (greet s.host) true) h1 refl in
      let hello = line (start_tls s.host) in
      say-Veiled log0 _ _ (Veiled-opening log0 (line (dial s.addr) false) h0 refl) (
        say-Veiled log1 _ _ (Veiled-opening log1 (line (greet s.host) false) h1 refl) (
          rw (offered log2) (
            say-Veiled log2 _ _ (Veiled-opening log2 (hello false) h2 refl) (
              log_in-Veiled to msg (log2 ++ hello true ∷ []) (Secured-last log2 s.host)
                (Veiled-opening log2 (hello true) h2 refl)))))

  conversed-Veiled :
      (to : String) (m : Prepared String)
      → ((log : List Line) → peer.has_starttls log ≡ true)
      → Veiled (conversed peer s to m).log
  unfolding in_clear
  conversed-Veiled to (rejected e) offered = tt
  conversed-Veiled to (prepared msg) offered = converse-Veiled to msg offered

  -- To a server that has STARTTLS, SMTPSender sends nothing in the clear but the commands that open the
  -- connection: until the server has taken STARTTLS no password, no address and no code is sent,
  -- whatever the server answers to any command.
  pub send_smtp-Veiled :
      (to : Address) (p : Purpose) (c : String)
      → ((log : List Line) → peer.has_starttls log ≡ true)
      → Veiled (send_smtp peer s to p c).log
  unfolding send_smtp
  send_smtp-Veiled to p c offered = conversed-Veiled to.value (prepare_smtp s.from to p c) offered
