-- ===== src/Mail/Confirmation/Subjects.antt =====
-- `ConfirmationSubjectResolver` and `_shortened` of agents/mail/src/ai_agent_lab/mail/application/
-- confirmations/subjects.py. The skills that it reads through are the interface `Reads`: what the
-- n-th listing of the labels answers, and what reading a message answers at the n-th reading; `none`
-- stands for a failure of the domain or of the security checks.
use ai_agents.Prelude.{
  ℕ, ◌+◌, leb, String, Option, none, some, List, [], ◌∷◌, ◌==◌, string_eq, if◌then◌else◌,
}
use ai_agents.Dict.{Dict, lookup, insert}
use ai_agents.Text.{concat, join, split}
use ai_agents.Text.Find.{size}
use ai_agents.Text.Slice.{keep}
use ai_agents.Runtime.{Untrusted}
use ai_agents.Mail.Models.{MailMessage, MailLabel}

pub record MailSubject : Type 0 where
  pub subject : String
  pub sender : String

-- `_SUBJECT_LIMIT`
abbrev pub subject_limit : ℕ
subject_limit = 80

-- `_shortened`
unfoldable pub shortened : String → String
unfolding join split size keep
shortened subject =
    let collapsed = join " " (split subject) in
    if leb (size collapsed) subject_limit then collapsed else concat (keep 79 collapsed ∷ "…" ∷ [])

pub record Reads (U : Type 0) : Type 0 where
  pub labels_at : ℕ → Option (List (MailLabel U))
  pub message_at : ℕ → String → Option (MailMessage U)

-- The resolver, with how often it has listed the labels and read a message.
pub record Resolver : Type 0 where
  pub messages : Dict String (Option MailSubject)
  pub labels : Option (Dict String String)
  pub listings : ℕ
  pub readings : ℕ

-- `ConfirmationSubjectResolver.__init__`
abbrev pub new_resolver : Resolver
new_resolver = record { messages = []; labels = none; listings = 0; readings = 0 }

module _ {U : Type 0} ⦃u : Untrusted U⦄ (reads : Reads U) where
  abbrev pub subject_of : Option (MailMessage U) → Option MailSubject
  subject_of none = none
  subject_of (some m) =
      some (record { subject = shortened (u.expose m.subject); sender = m.sender.address.value })

  -- `_describe`
  unfoldable pub describe : String → Resolver → Option MailSubject × Resolver
  unfolding shortened
  describe message_id r = if message_id == "" then (none, r) else (
    subject_of (reads.message_at r.readings message_id),
    record r { readings = r.readings + 1 },
  )

  abbrev pub known_or_read :
      String → Option (Option MailSubject) → Resolver → Option MailSubject × Resolver
  known_or_read message_id (some described) r = (described, r)
  known_or_read message_id none r =
      let (described, r') = describe message_id r in
      (described, record r' { messages = insert message_id described r'.messages })

  -- `message`
  unfoldable pub describe_message : String → Resolver → Option MailSubject × Resolver
  unfolding describe lookup insert
  describe_message message_id r = known_or_read message_id (lookup message_id r.messages) r

  -- `{label.label_id: label.name.expose() for label in labels}`
  abbrev pub names_of : List (MailLabel U) → Dict String String → Dict String String
  names_of [] d = d
  names_of (l ∷ ls) d = names_of ls (insert l.label_id (u.expose l.name) d)

  abbrev pub listed_names : Option (List (MailLabel U)) → Dict String String
  listed_names none = []
  listed_names (some ls) = names_of ls []

  abbrev pub cached_or_listed :
      Option (Dict String String) → Resolver → Dict String String × Resolver
  cached_or_listed (some names) r = (names, r)
  cached_or_listed none r =
      let names = listed_names (reads.labels_at r.listings) in
      (names, record r { labels = some names; listings = r.listings + 1 })

  -- `_label_names`
  unfoldable pub label_names : Resolver → Dict String String × Resolver
  unfolding insert
  label_names r = cached_or_listed r.labels r

  -- `label_name`
  unfoldable pub label_name : String → Resolver → Option String × Resolver
  unfolding label_names lookup
  label_name label_id r = let (names, r') = label_names r in (lookup label_id names, r')
