-- ===== src/Mail/Models.antt =====
-- agents/mail/src/ai_agent_lab/mail/domain/models.py and enums.py: the records of the mail domain.
-- `U` is the framework's type of untrusted text. A datetime is its number of microseconds in UTC:
-- `_require_timezone` has run on it.
pub mod Address
pub mod Thread
pub mod Search
use ai_agents.Prelude.{
  ℕ, ◌+◌, String, Bool, Option, List, ◌++◌, length, is_nonempty, Eq, ◌≡◌, ◌↔◌, true, arith, eq_iff,
}
use text.Mathlib.Text.{◌==◌ as str_eq}

pub data MailCategory : Type 0 where
  important action_required fyi newsletter personal financial project other : MailCategory

pub data MailImportance : Type 0 where
  high normal low : MailImportance

pub data MailSortOrder : Type 0 where
  newest_first oldest_first : MailSortOrder

pub record EmailAddress : Type 0 where
  pub value : String

pub address_beq_iff : (a b : EmailAddress) → (str_eq a.value b.value ≡ true) ↔ (a ≡ b)
address_beq_iff a b = ground (arith, eq_iff a.value b.value)

-- Two models are equal when their fields are.
instance abbrev pub address_eq : Eq EmailAddress
address_eq = record { beq = λ a b. str_eq a.value b.value; beq_iff = address_beq_iff }

pub record MailParticipant (U : Type 0) : Type 0 where
  pub address : EmailAddress
  pub display_name : Option U

pub record MailAttachment (U : Type 0) : Type 0 where
  pub attachment_id : String
  pub file_name : U
  pub media_type : String
  pub size_bytes : ℕ

pub record MailLabel (U : Type 0) : Type 0 where
  pub label_id : String
  pub name : U
  pub is_system : Bool

pub record MailLabelOutcome (U : Type 0) : Type 0 where
  pub label : MailLabel U
  pub created : Bool

pub record MailHeader (U : Type 0) : Type 0 where
  pub message_id : String
  pub thread_id : String
  pub subject : U
  pub sender : MailParticipant U
  pub recipient_count : ℕ
  pub sent_at : ℕ
  pub is_read : Bool
  pub is_archived : Bool
  pub has_attachments : Bool
  pub importance : MailImportance
  pub label_ids : List String

pub record MailMessage (U : Type 0) : Type 0 where
  pub message_id : String
  pub thread_id : String
  pub subject : U
  pub body : U
  pub sender : MailParticipant U
  pub to : List (MailParticipant U)
  pub cc : List (MailParticipant U)
  pub sent_at : ℕ
  pub is_read : Bool
  pub is_archived : Bool
  pub importance : MailImportance
  pub label_ids : List String
  pub attachments : List (MailAttachment U)
  pub in_reply_to : Option String

pub record MailDraft (U : Type 0) : Type 0 where
  pub draft_id : Option String
  pub to : List EmailAddress
  pub cc : List EmailAddress
  pub subject : U
  pub body : U
  pub in_reply_to_message_id : Option String
  pub thread_id : Option String

pub record MailSendResult : Type 0 where
  pub message_id : String
  pub thread_id : Option String
  pub sent_at : ℕ

module _ {U : Type 0} where
  abbrev pub has_attachments : MailMessage U → Bool
  has_attachments m = is_nonempty m.attachments

  unfoldable pub to_header : MailMessage U → MailHeader U
  to_header m = record {
    message_id = m.message_id;
    thread_id = m.thread_id;
    subject = m.subject;
    sender = m.sender;
    recipient_count = length m.to + length m.cc;
    sent_at = m.sent_at;
    is_read = m.is_read;
    is_archived = m.is_archived;
    has_attachments = has_attachments m;
    importance = m.importance;
    label_ids = m.label_ids;
  }

  -- `MailDraft.recipients`
  abbrev pub recipients : MailDraft U → List EmailAddress
  recipients d = d.to ++ d.cc
