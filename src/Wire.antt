-- ===== src/Wire.antt =====
-- mcp-servers/protocol/src/mail_mcp/protocol/payloads.py and rules.py: what a mail server and its callers
-- send each other, in plain text. A datetime is its number of microseconds, in UTC if it
-- carries a time zone, which `has_timezone` says of `sent_at`.
pub mod Mapping
pub mod Fencing
use ai_agents.Prelude.{ℕ, String, Bool, Option, List, [], ◌∷◌, if◌then◌else◌}
use ai_agents.Prelude.Exec.{Result, ok, err}
use ai_agents.Text.{Unicode, concat}
use ai_agents.Protocol.MailCodes.{MailServerError, access_denied_error}

pub data Importance : Type 0 where
  low normal high : Importance

pub data SortOrder : Type 0 where
  newest_first oldest_first : SortOrder

pub record Participant : Type 0 where
  pub address : String
  pub display_name : Option String

pub record Attachment : Type 0 where
  pub attachment_id : String
  pub file_name : String
  pub media_type : String
  pub size_bytes : ℕ

pub record Label : Type 0 where
  pub label_id : String
  pub name : String
  pub is_system : Bool

pub record Header : Type 0 where
  pub message_id : String
  pub thread_id : String
  pub subject : String
  pub sender : Participant
  pub recipient_count : ℕ
  pub sent_at : ℕ
  pub has_timezone : Bool
  pub is_read : Bool
  pub is_archived : Bool
  pub has_attachments : Bool
  pub importance : Importance
  pub label_ids : List String

pub record Message : Type 0 where
  pub message_id : String
  pub thread_id : String
  pub subject : String
  pub body : String
  pub sender : Participant
  pub to : List Participant
  pub cc : List Participant
  pub sent_at : ℕ
  pub has_timezone : Bool
  pub is_read : Bool
  pub is_archived : Bool
  pub importance : Importance
  pub label_ids : List String
  pub attachments : List Attachment
  pub in_reply_to : Option String

pub record Thread : Type 0 where
  pub thread_id : String
  pub subject : String
  pub messages : List Message

pub record SearchResult : Type 0 where
  pub headers : List Header
  pub total_count : ℕ
  pub truncated : Bool

pub record Draft : Type 0 where
  pub draft_id : Option String
  pub to : List String
  pub cc : List String
  pub subject : String
  pub body : String
  pub in_reply_to_message_id : Option String
  pub thread_id : Option String

pub record SendResult : Type 0 where
  pub message_id : String
  pub thread_id : Option String
  pub sent_at : ℕ
  pub has_timezone : Bool

-- `Labels`
abbrev pub Labels : Type 0
Labels = List Label

pub record CreatedLabel : Type 0 where
  pub label : Label
  pub created : Bool

-- `require_deletable`
unfoldable pub require_deletable : Unicode → Label → Result MailServerError (Unit {0})
require_deletable un label =
    if label.is_system
    then err (
        access_denied_error (
          concat ("label " ∷ un.repr label.name ∷ " is a system label and cannot be deleted" ∷ [])))
    else ok tt
