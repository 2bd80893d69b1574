-- ===== src/Mail/Error.antt =====
-- agents/mail/src/ai_agent_lab/mail/domain/errors.py and application/errors.py: the exceptions that
-- the modelled code raises, and the reasons for which a model refuses its fields.
use ai_agents.Prelude.{String, List}
use ai_agents.Prelude.Exec.{Result, Exec}

-- `ValueError`, as pydantic reports it.
pub data Invalid : Type 0 where
  bad_address : String → Invalid
  no_messages : Invalid
  naive_datetime : Invalid
  foreign_messages : List String → String → Invalid
  limit_range : Invalid
  date_range : Invalid
  count_range : Invalid
  no_draft_recipient : Invalid
  fallback_not_offered : Invalid

pub data MailError : Type 0 where
  not_found : String → String → MailError
  access_denied : String → MailError
  no_reply_recipient : String → MailError
  draft_not_found : String → MailError
  unknown_gated_tool : String → MailError
  key_error : String → MailError
  tool_unavailable tool_protocol : String → MailError
  invalid : Invalid → MailError

abbrev pub Checked : Type 0 → Type 0
Checked A = Result MailError A

abbrev pub Method : Type 0 → Type 0 → Type 0
Method S A = Exec MailError S A
