-- ===== src/Mail/Matcher/Envelope.antt =====
-- What a message satisfies when the matcher accepts it: who wrote what.
use ai_agents.Prelude.{
  ◌≡◌, ◌↔◌, refl, sym, ◌∙◌, String, Bool, true, false, not, ◌&&◌, Option, none, some, List, [], ◌∷◌,
  ◌++◌, arith, ◌==◌, string_eq, if◌then◌else◌, Bool-cases, inl, inr, contains, All, all, any,
  eq_iff, ◌⊎◌,
}
use ai_agents.Text.{Unicode, concat, is_infix, split}
use ai_agents.Runtime.{Untrusted}
use ai_agents.Mail.Models.{EmailAddress, MailParticipant, MailMessage, address_eq, address_beq_iff}
use ai_agents.Mail.Models.Search.{MailSearchRequest}
use ai_agents.Mail.Recipients.Unique.{addresses}
use ai_agents.Mail.Matcher.{
  matches, matches_metadata, matches_envelope, contains_keywords, matches_sender, matches_recipient,
  matches_subject, matches_keywords,
}
use ai_agents.Mail.Matcher.Criteria.{Given, MeetsMetadata, matches_metadata_iff}

-- A text criterion that is left out or empty holds.
abbrev pub GivenText : (String → Type 0) → Option String → Type 0
GivenText P none = Unit
GivenText P (some s) = (s ≡ "") ⊎ P s

-- Nested early returns that end in a call.
goes_on :
    (a b c d : Bool)
    → ((if not a then false else if not b then false else if not c then false else d) ≡ true)
      ↔ ((a ≡ true) × (b ≡ true) × (c ≡ true) × (d ≡ true))
goes_on a b c d = ground arith

both_true : (a b : Bool) → ((a && b) ≡ true) ↔ ((a ≡ true) × (b ≡ true))
both_true a b = ground arith

given_iff :
    {P : Type 0} (s : String) (t : Bool)
    → ((t ≡ true) ↔ P)
    → ((if s == "" then true else t) ≡ true) ↔ ((s ≡ "") ⊎ P)
given_iff {P} s t e = elim (Bool-cases (s == "")) [
  | inl blank ↦ (λ h. inl ((eq_iff s "").0 blank), λ h. rw blank refl)
  | inr given ↦ (λ h. inr (e.0 (rw given at h)), λ h. rw given (on_given given h))
]
  where
    on_given : (s == "") ≡ false → (s ≡ "") ⊎ P → t ≡ true
    on_given given (inl blank) = absurd (ground (arith, eq_iff s ""))
    on_given given (inr h) = e.1 h

all-All : {A : Type 0} (p : A → Bool) (xs : List A) → (all p xs ≡ true) ↔ All (λ x. p x ≡ true) xs
all-All p [] = (λ h. tt, λ h. refl)
all-All p (x ∷ xs) = (
  λ h. (ground arith, (all-All p xs).0 (ground arith)),
  λ h. ground (arith, h.0, (all-All p xs).1 h.1),
)

any-addresses :
    {U : Type 0} (a : EmailAddress) (ps : List (MailParticipant U))
    → any (λ (p : MailParticipant U). p.address == a) ps ≡ contains a (addresses ps)
any-addresses a [] = refl
any-addresses a (p ∷ ps) =
    ground (arith, any-addresses a ps, address_beq_iff a p.address, address_beq_iff p.address a)

module _ {U : Type 0} ⦃u : Untrusted U⦄ (un : Unicode) where
  -- Every word of the keywords, case folded, stands in the subject or the body, or across the space
  -- between them.
  abbrev pub HasKeywords : MailMessage U → String → Type 0
  HasKeywords m keywords =
      All
        (λ w.
          is_infix w (un.casefold (concat (u.expose m.subject ∷ " " ∷ u.expose m.body ∷ [])))
          ≡ true)
        (split (un.casefold keywords))

  pub record MeetsEnvelope (m : MailMessage U) (r : MailSearchRequest) : Type 0 where
    pub sender : Given (λ (a : EmailAddress). m.sender.address ≡ a) r.sender
    pub recipient :
        Given (λ (a : EmailAddress). contains a (addresses (m.to ++ m.cc)) ≡ true) r.recipient
    pub subject :
        GivenText
          (λ s. is_infix (un.casefold s) (un.casefold (u.expose m.subject)) ≡ true)
          r.subject_contains
    pub keywords : GivenText (HasKeywords m) r.keywords

  module _ (m : MailMessage U) where
    sender_iff :
        (o : Option EmailAddress)
        → (matches_sender un o m ≡ true) ↔ Given (λ (a : EmailAddress). m.sender.address ≡ a) o
    sender_iff none = (λ h. tt, λ h. refl)
    sender_iff (some a) = address_beq_iff m.sender.address a

    recipient_iff :
        (o : Option EmailAddress)
        → (matches_recipient un o m ≡ true)
          ↔ Given (λ (a : EmailAddress). contains a (addresses (m.to ++ m.cc)) ≡ true) o
    recipient_iff none = (λ h. tt, λ h. refl)
    recipient_iff (some a) =
        (λ h. sym (any-addresses a (m.to ++ m.cc)) ∙ h, λ h. any-addresses a (m.to ++ m.cc) ∙ h)

    subject_iff :
        (o : Option String)
        → (matches_subject un o m ≡ true)
          ↔ GivenText (λ s. is_infix (un.casefold s) (un.casefold (u.expose m.subject)) ≡ true) o
    subject_iff none = (λ h. tt, λ h. refl)
    subject_iff (some s) =
        given_iff s (is_infix (un.casefold s) (un.casefold (u.expose m.subject))) (λ h. h, λ h. h)

    keywords_iff :
        (o : Option String) → (matches_keywords un o m ≡ true) ↔ GivenText (HasKeywords m) o
    unfolding contains_keywords
    keywords_iff none = (λ h. tt, λ h. refl)
    keywords_iff (some s) =
        given_iff s (contains_keywords un m s) (all-All _ (split (un.casefold s)))

  matches_envelope_iff :
      (m : MailMessage U) (r : MailSearchRequest)
      → (matches_envelope un m r ≡ true) ↔ MeetsEnvelope m r
  unfolding matches_envelope
  matches_envelope_iff m r = (
    λ h.
        let e = (tests.0 h) in
        record {
          sender = (sender_iff m r.sender).0 e.0;
          recipient = (recipient_iff m r.recipient).0 e.1;
          subject = (subject_iff m r.subject_contains).0 e.2;
          keywords = (keywords_iff m r.keywords).0 e.3;
        },
    λ c. tests.1 (
      (sender_iff m r.sender).1 c.sender,
      (recipient_iff m r.recipient).1 c.recipient,
      (subject_iff m r.subject_contains).1 c.subject,
      (keywords_iff m r.keywords).1 c.keywords,
    ),
  )
    where
      tests : (matches_envelope un m r ≡ true) ↔ (
          (matches_sender un r.sender m ≡ true)
          × (matches_recipient un r.recipient m ≡ true)
          × (matches_subject un r.subject_contains m ≡ true)
          × (matches_keywords un r.keywords m ≡ true))
      tests =
          goes_on (matches_sender un r.sender m) (matches_recipient un r.recipient m)
            (matches_subject un r.subject_contains m) (matches_keywords un r.keywords m)

  -- The matcher accepts a message exactly if it meets every criterion that the request gives: sender,
  -- recipient among To and Cc, subject, keywords, unread state, all labels, both date bounds
  -- included, attachments.
  pub matches_iff :
      (m : MailMessage U) (r : MailSearchRequest)
      → (matches un m r ≡ true) ↔ (MeetsEnvelope m r × MeetsMetadata m r)
  unfolding matches
  matches_iff m r = (
    λ h.
        let e = ((both_true (matches_envelope un m r) (matches_metadata m r)).0 h) in
        ((matches_envelope_iff m r).0 e.0, (matches_metadata_iff m r).0 e.1),
    λ c.
        (both_true (matches_envelope un m r) (matches_metadata m r)).1
          ((matches_envelope_iff m r).1 c.0, (matches_metadata_iff m r).1 c.1),
  )
