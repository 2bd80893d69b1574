-- ===== src/Protocol/MailCodes.antt =====
-- The mail server's codes and failures, mcp-servers/protocol/src/mail_mcp/protocol/errors.py, and how
-- the mail agent translates them, agents/mail/src/ai_agent_lab/mail/infrastructure/mcp/failures.py and
-- native/errors.py beside it.
use ai_agents.Prelude.{
  ℕ, ◌≡◌, ◌↔◌, refl, sym, ◌∙◌, ap, String, true, List, [], ◌∷◌, arith, ◌==◌, Eq, string_eq, nat_beq,
  nat_beq_iff, if◌then◌else◌, contains,
}
use ai_agents.Text.{Unicode, is_prefix, concat}
use ai_agents.Protocol.{Codes, encode, decode, or_else}
use Prim.Native.String.{◌++◌ as str_append}

-- `MailErrorCode`
pub data MailErrorCode : Type 0 where
  not_found access_denied unavailable protocol : MailErrorCode

unfoldable pub mail_code_value : MailErrorCode → String
mail_code_value not_found = "mail_not_found"
mail_code_value access_denied = "mail_access_denied"
mail_code_value unavailable = "mail_unavailable"
mail_code_value protocol = "mail_protocol"

-- The members of an enumeration are compared by identity.
abbrev rank : MailErrorCode → ℕ
rank not_found = 0
rank access_denied = 1
rank unavailable = 2
rank protocol = 3

abbrev at_rank : ℕ → MailErrorCode
at_rank n =
    if nat_beq n 0
    then not_found
    else if nat_beq n 1
    then access_denied
    else if nat_beq n 2
    then unavailable
    else protocol

at_rank-rank : (c : MailErrorCode) → at_rank (rank c) ≡ c
at_rank-rank not_found = refl
at_rank-rank _ = refl

pub mail_code_beq_iff : (a b : MailErrorCode) → (nat_beq (rank a) (rank b) ≡ true) ↔ (a ≡ b)
mail_code_beq_iff a b = (
  λ h. sym (at_rank-rank a) ∙ ap at_rank ((nat_beq_iff (rank a) (rank b)).0 h) ∙ at_rank-rank b,
  λ same. (nat_beq_iff (rank a) (rank b)).1 (ap rank same),
)

abbrev pub mail_code_eq : Eq MailErrorCode
mail_code_eq = record { beq = λ a b. nat_beq (rank a) (rank b); beq_iff = mail_code_beq_iff }

abbrev pub mail_members : List MailErrorCode
mail_members = not_found ∷ access_denied ∷ unavailable ∷ protocol ∷ []

pub mail-listed : (c : MailErrorCode) → contains ⦃e = mail_code_eq⦄ c mail_members ≡ true
mail-listed not_found = refl
mail-listed _ = refl

pub mail-apart :
    (c d : MailErrorCode)
    → is_prefix (str_append (mail_code_value c) ": ") (str_append (mail_code_value d) ": ") ≡ true
    → c ≡ d
unfolding is_prefix mail_code_value
mail-apart not_found not_found h = refl
mail-apart access_denied access_denied h = refl
mail-apart unavailable unavailable h = refl
mail-apart protocol protocol h = refl
mail-apart _ _ h = absurd (ground arith)

instance abbrev pub mail_codes : Codes MailErrorCode
mail_codes = record {
  members = mail_members;
  value = mail_code_value;
  protocol = protocol;
  same = mail_code_eq;
  listed = mail-listed;
  apart = mail-apart;
}

-- `MailServerError` and its classes, each with the arguments that it is raised with.
pub data MailServerError : Type 0 where
  not_found_error : String → String → MailServerError
  access_denied_error : String → MailServerError
  unavailable_error : String → MailServerError
  protocol_error : String → MailServerError

-- `MailServerError.code`
unfoldable pub server_code : MailServerError → MailErrorCode
server_code (not_found_error resource identifier) = not_found
server_code (access_denied_error detail) = access_denied
server_code (unavailable_error detail) = unavailable
server_code (protocol_error detail) = protocol

-- `str(error)`
unfoldable pub server_text : Unicode → MailServerError → String
server_text un (not_found_error resource identifier) =
    concat (resource ∷ " " ∷ un.repr identifier ∷ " was not found" ∷ [])
server_text un (access_denied_error detail) = detail
server_text un (unavailable_error detail) = detail
server_text un (protocol_error detail) = detail

-- `MailServerError.reported`
unfoldable pub reported : Unicode → MailServerError → String
unfolding encode server_code server_text
reported un e = encode (server_code e) (server_text un e)

-- The exceptions of the agent's `application/errors.py` that a server's failure becomes, with their
-- texts.
pub data ToolFailure : Type 0 where
  mail_not_found mail_access_denied mail_tool_unavailable mail_tool_protocol : String → ToolFailure

-- `MailNotFoundError(message=detail)` and `MailAccessDeniedError(message=detail)`
unfoldable pub mail_not_found_error : Unicode → String → ToolFailure
mail_not_found_error un message =
    mail_not_found (or_else message (concat (" " ∷ un.repr "" ∷ " was not found" ∷ [])))

unfoldable pub mail_access_denied_error : Unicode → String → ToolFailure
mail_access_denied_error un message =
    mail_access_denied
      (or_else message (concat ("access to " ∷ un.repr "" ∷ " was denied by the mail system" ∷ [])))

unfoldable pub tool_failure : Unicode → String → String → ToolFailure
unfolding mail_not_found_error mail_access_denied_error
tool_failure un code detail =
    if code == "mail_not_found"
    then mail_not_found_error un detail
    else if code == "mail_access_denied"
    then mail_access_denied_error un detail
    else if code == "mail_unavailable"
    then mail_tool_unavailable detail
    else mail_tool_protocol detail

abbrev pub failure_from : Unicode → MailErrorCode × String → ToolFailure
failure_from un (code, detail) = tool_failure un (mail_code_value code) detail

-- `decode_failure`
unfoldable pub decode_failure : Unicode → String → ToolFailure
unfolding decode tool_failure mail_code_value
decode_failure un text = failure_from un (decode text)
