-- ===== src/Mail/Matcher.antt =====
-- `MailSearchMatcher` of agents/mail/src/ai_agent_lab/mail/infrastructure/inmemory/mail_tools.py.
pub mod Criteria
pub mod Envelope
use ai_agents.Prelude.{
  ℕ, String, Bool, true, false, not, ◌&&◌, ◌||◌, List, [], ◌∷◌, ◌++◌, Option, none, some, ◌==◌,
  string_eq, if◌then◌else◌, ltb, contains, any, all, is_some,
}
use ai_agents.Text.{Unicode, concat, is_truthy, is_infix, split}
use ai_agents.Runtime.{Untrusted}
use ai_agents.Mail.Models.{EmailAddress, MailParticipant, MailMessage, address_eq, has_attachments}
use ai_agents.Mail.Models.Search.{MailSearchRequest}

-- `is not`, on two truth values.
abbrev differs : Bool → Bool → Bool
differs true b = not b
differs false b = b

module _ {U : Type 0} ⦃u : Untrusted U⦄ (un : Unicode) where
  -- `_contains_keywords`
  unfoldable pub contains_keywords : MailMessage U → String → Bool
  unfolding is_infix split
  contains_keywords m keywords =
      let haystack = un.casefold (concat (u.expose m.subject ∷ " " ∷ u.expose m.body ∷ [])) in
      all (λ keyword. is_infix keyword haystack) (split (un.casefold keywords))

  -- The criteria, each of which holds where the request leaves it out.
  abbrev pub matches_sender : Option EmailAddress → MailMessage U → Bool
  matches_sender none m = true
  matches_sender (some a) m = m.sender.address == a

  abbrev pub matches_recipient : Option EmailAddress → MailMessage U → Bool
  matches_recipient none m = true
  matches_recipient (some a) m = any (λ (p : MailParticipant U). p.address == a) (m.to ++ m.cc)

  abbrev pub matches_subject : Option String → MailMessage U → Bool
  matches_subject none m = true
  matches_subject (some s) m =
      if s == "" then true else is_infix (un.casefold s) (un.casefold (u.expose m.subject))

  abbrev pub matches_keywords : Option String → MailMessage U → Bool
  matches_keywords none m = true
  matches_keywords (some s) m = if s == "" then true else contains_keywords m s

  -- `_matches_envelope`
  unfoldable pub matches_envelope : MailMessage U → MailSearchRequest → Bool
  unfolding contains_keywords
  matches_envelope m r =
      if not (matches_sender r.sender m)
      then false
      else if not (matches_recipient r.recipient m)
      then false
      else if not (matches_subject r.subject_contains m)
      then false
      else matches_keywords r.keywords m

module _ {U : Type 0} where
  abbrev pub is_before : MailMessage U → Option ℕ → Bool
  is_before m none = false
  is_before m (some bound) = ltb m.sent_at bound

  abbrev pub is_after : MailMessage U → Option ℕ → Bool
  is_after m none = false
  is_after m (some bound) = ltb bound m.sent_at

  abbrev pub attachments_differ : MailMessage U → Option Bool → Bool
  attachments_differ m none = false
  attachments_differ m (some wanted) = differs (has_attachments m) wanted

  -- `_matches_metadata`
  unfoldable pub matches_metadata : MailMessage U → MailSearchRequest → Bool
  matches_metadata m r =
      if r.unread_only && m.is_read
      then false
      else if not (all (λ i. contains i m.label_ids) r.label_ids)
      then false
      else if is_before m r.date_from
      then false
      else if is_after m r.date_to
      then false
      else not (attachments_differ m r.has_attachments)

-- `MailSearchMatcher.matches`
unfoldable pub matches :
    {U : Type 0} ⦃u : Untrusted U⦄ → Unicode → MailMessage U → MailSearchRequest → Bool
unfolding matches_envelope matches_metadata
matches un m r = matches_envelope un m r && matches_metadata m r
