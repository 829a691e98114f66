-- ===== src/Providers/Email.antt =====
-- Which of a GitHub account's addresses is picked, and that a verified one was verified by GitHub.
use authsvc.Prelude.{
  ◌≡◌, refl, sym, ◌∙◌, ◌||◌, ap, eq_refl, eq_iff, ◌==◌, not, Bool, true, false, ◌&&◌, String,
  Option, none, some, List, [], ◌∷◌, if◌then◌else◌, Bool-cases, Option-cases, inl, inr, arith,
}
use authsvc.Table.{select_row}
use authsvc.Table.Laws.{select_row-matches}
use authsvc.Sdk.{is_zero}
use authsvc.Linking.{Profile}
use authsvc.Providers.{
  GithubUser, GithubEmail, Calls, pick_from, pick_email, github_exchange, get_json, github_profile,
  or_profile, picked,
}
use authsvc.Prelude.{and_then}

abbrev is_best : GithubEmail → Bool
is_best e = e.primary && e.verified

abbrev is_verified : GithubEmail → Bool
is_verified e = e.verified && not (e.email == "")

abbrev is_primary : GithubEmail → Bool
is_primary e = e.primary && not (e.email == "")

abbrev email_of : Option GithubEmail → String
email_of none = ""
email_of (some e) = e.email

abbrev choose : Option GithubEmail → String → String → String × Bool
choose (some e) verified primary = (e.email, true)
choose none verified primary = if not (verified == "") then (verified, true) else (primary, false)

-- the first primary address that is verified, else the first verified one, else the first primary one
unfoldable pub preferred : List GithubEmail → String × Bool
preferred list =
    choose (select_row is_best list) (email_of (select_row is_verified list))
      (email_of (select_row is_primary list))

abbrev or_first : String → Option GithubEmail → String
or_first v o = if v == "" then email_of o else v

or_first-none : (v : String) → or_first v none ≡ v
or_first-none v = elim (Bool-cases (v == "")) [
  | inl blank ↦ rw blank (sym ((eq_iff v "").0 blank))
  | inr full ↦ rw full refl
]

-- a variable that keeps the first address it meets
or_first-kept :
    (b : Bool) (v : String) (e : GithubEmail) (o : Option GithubEmail)
    → or_first (if b && v == "" then e.email else v) o
      ≡ or_first v (if b && not (e.email == "") then some e else o)
or_first-kept false v e o = refl
or_first-kept true v e o = elim (Bool-cases (v == "")) [
  | inr full ↦ rw (full, full) refl
  | inl blank ↦ elim (Bool-cases (e.email == "")) [
    | inl empty ↦ rw (blank, empty) refl
    | inr some_email ↦ rw (blank, some_email) refl
  ]
]

pick_from-choose :
    (es : List GithubEmail) (v p : String)
    → pick_from v p es
      ≡ choose
          (select_row is_best es)
          (or_first v (select_row is_verified es))
          (or_first p (select_row is_primary es))
unfolding pick_from select_row
pick_from-choose [] v p = rw (or_first-none v, or_first-none p) refl
pick_from-choose (e ∷ es) v p = elim (Bool-cases (is_best e)) [
  | inl best ↦ rw best refl
  | inr other ↦ rw other (
      pick_from-choose es _ _
      ∙ rw
          (
            or_first-kept e.verified v e (select_row is_verified es),
            or_first-kept e.primary p e (select_row is_primary es),
          )
          refl)
]

-- pickEmail, in one pass, picks the preferred address.
pub pick_email-preferred : (list : List GithubEmail) → pick_email list ≡ preferred list
unfolding pick_email preferred
pick_email-preferred list = pick_from-choose list "" ""

-- some entry has the address, and is verified
unfoldable pub lists_verified : String → List GithubEmail → Bool
lists_verified address [] = false
lists_verified address (e ∷ es) = (e.verified && e.email == address) || lists_verified address es

pub some-injective : {A : Type 0} {a b : A} → some a ≡ some b → a ≡ b
some-injective e = cc

or_true : (b : Bool) → (b || true) ≡ true
or_true true = refl
or_true false = refl

select_row-lists_verified :
    (p : GithubEmail → Bool) (list : List GithubEmail) (e : GithubEmail)
    → ((x : GithubEmail) → p x ≡ true → x.verified ≡ true)
    → select_row p list ≡ some e
    → lists_verified e.email list ≡ true
unfolding select_row lists_verified
select_row-lists_verified p [] e vouched found = absurd (cc)
select_row-lists_verified p (x ∷ xs) e vouched found = elim (Bool-cases (p x)) [
  | inl hit ↦
      let same : x ≡ e = cc (rw hit at found) in rw (← same, vouched x hit, eq_refl x.email) refl
  | inr miss ↦
      rw (select_row-lists_verified p xs e vouched (rw miss at found))
        (or_true (x.verified && x.email == e.email))
]

preferred-lists_verified :
    (list : List GithubEmail)
    → (preferred list).1 ≡ true
    → lists_verified (preferred list).0 list ≡ true
unfolding preferred
preferred-lists_verified list h = elim (Option-cases (select_row is_best list)) [
  | inr (e, best) ↦ rw best (select_row-lists_verified is_best list e (λ x y. ground arith) best)
  | inl none_best ↦ elim (Option-cases (select_row is_verified list)) [
    | inl none_verified ↦ absurd (cc (rw (none_best, none_verified) at h))
    | inr (e, fine) ↦
        let full : not (e.email == "") ≡ true =
          ground (arith, select_row-matches is_verified list e fine) in
        rw (none_best, fine, full)
          (select_row-lists_verified is_verified list e (λ x y. ground arith) fine)
  ]
]

picked-lists_verified :
    (raw : String) (u : GithubUser) (o : Option (List GithubEmail))
    → (github_profile raw u (or_profile u (picked o))).email_verified ≡ true
    → (list : List GithubEmail) × ((o ≡ some list)
        × (lists_verified (github_profile raw u (or_profile u (picked o))).email list ≡ true))
picked-lists_verified raw u none h = absurd (cc)
picked-lists_verified raw u (some list) h = elim (Bool-cases ((pick_email list).0 == "")) [
  | inl blank ↦ absurd (cc (rw blank at h))
  | inr full ↦ (
    list,
    (
      refl,
      rw (full, pick_email-preferred list)
          (preferred-lists_verified list (rw (full, pick_email-preferred list) at h)),
    ),
  )
]

pub and_then-some :
    {A B : Type 0} (o : Option A) (f : A → Option B) (b : B)
    → and_then o f ≡ some b
    → (a : A) × ((o ≡ some a) × (f a ≡ some b))
and_then-some none f b h = absurd (cc)
and_then-some (some a) f b h = (a, (refl, h))

module _ {T : Type 0} (calls : Calls T) (parse_user : String → Option GithubUser)
    (parse_emails : String → Option (List GithubEmail)) where
  -- what /user/emails answered for the account of a code
  pub record Listed (code verifier : String) (address : String) : Type 0 where
    pub token : T
    pub exchanged : calls.exchange code verifier ≡ some token
    pub body : String
    pub answered : get_json calls token "https://api.github.com/user/emails" ≡ some body
    pub list : List GithubEmail
    pub decoded : parse_emails body ≡ some list
    pub vouched : lists_verified address list ≡ true

  -- A profile of GitHub's says that its address is verified only where /user/emails lists that address as
  -- verified.
  pub github_exchange-Listed :
      (code verifier : String) (p : Profile)
      → github_exchange calls parse_user parse_emails code verifier ≡ some p
      → p.email_verified ≡ true
      → Listed code verifier p.email
  unfolding github_exchange
  github_exchange-Listed code verifier p h fine =
      elim (Option-cases (calls.exchange code verifier)) [
        | inl refused ↦ absurd (cc (rw refused at h))
        | inr (tok, exchanged) ↦
            elim (Option-cases (get_json calls tok "https://api.github.com/user")) [
              | inl refused ↦ absurd (cc (rw (exchanged, refused) at h))
              | inr (raw, got) ↦ elim (Option-cases (parse_user raw)) [
                | inl odd ↦ absurd (cc (rw (exchanged, got, odd) at h))
                | inr (u, parsed) ↦ elim (Bool-cases (is_zero u.id)) [
                  | inl zero_id ↦ absurd (cc (rw (exchanged, got, parsed, zero_id) at h))
                  | inr named ↦
                      let made = rw (exchanged, got, parsed, named) at h in
                      let same = some-injective made in
                      let (list, (listed, vouched)) =
                        picked-lists_verified raw u
                          (and_then (get_json calls tok "https://api.github.com/user/emails")
                            parse_emails)
                          (ap (λ (x : Profile). x.email_verified) same ∙ fine) in
                      let (body, (answered, decoded)) = and_then-some _ parse_emails list listed in
                      record {
                        token = tok;
                        exchanged = exchanged;
                        body = body;
                        answered = answered;
                        list = list;
                        decoded = decoded;
                        vouched =
                            ap (λ (x : Profile). lists_verified x.email list) (sym same) ∙ vouched;
                      }
                ]
              ]
            ]
      ]
