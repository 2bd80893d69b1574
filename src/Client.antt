-- ===== src/Client.antt =====
-- The mail agent's client of the reference server: `_invoke`, `_require_owner`, `_text_of` and
-- the arguments of `search` of
-- agents/mail/src/ai_agent_lab/mail/infrastructure/mcp/native/client.py, on the tools of
-- mcp-servers/protocol/src/mail_mcp/protocol/serving.py over `MailboxDataset` of
-- mcp-servers/reference/src/mail_mcp/reference/mailbox.py. The session between them delivers each
-- call; `context` is what it writes before the text of a failure.
pub mod Trimming
pub mod Telling
pub mod Agreement
pub mod Tests
use ai_agents.Prelude.{String, Bool, Option, none, some, [], ◌∷◌, ◌==◌, string_eq, if◌then◌else◌}
use ai_agents.Prelude.Exec.{Result, ok, err}
use ai_agents.Dict.{Dict, lookup, insert}
use ai_agents.Text.{Unicode, concat, is_space, strip_by}
use ai_agents.Protocol.{strip}
use ai_agents.Protocol.MailCodes.{
  MailServerError, access_denied_error, reported, ToolFailure, mail_access_denied, decode_failure,
}
use ai_agents.Mail.Models.{EmailAddress, MailSortOrder}
use ai_agents.Mail.Models as Domain
use ai_agents.Mail.Models.Search.{MailSearchRequest}
use ai_agents.Wire.{SortOrder, newest_first, oldest_first}
use ai_agents.Reference.Query.{Search}
use ai_agents.Reference.{InMemoryMailbox}
use ai_agents.Reference.Tools.{ToolCall, Answer, answer}
use Prim.Native.String.{◌++◌ as str_append}

-- `MailboxDataset`: the mailboxes by their owners.
abbrev pub MailboxDataset : Type 0
MailboxDataset = Dict String InMemoryMailbox

-- The error of `MailboxDataset.resolve`.
abbrev pub not_served : Unicode → String → MailServerError
not_served un owner =
    access_denied_error (concat ("mailbox of " ∷ un.repr owner ∷ " is not served here" ∷ []))

-- The objects of the dataset are shared: what a tool changes stays changed.
abbrev pub answer_for :
    Unicode
    → String
    → ToolCall
    → MailboxDataset
    → Option InMemoryMailbox
    → Result MailServerError Answer × MailboxDataset
answer_for un owner c mailboxes none = (err (not_served un owner), mailboxes)
answer_for un owner c mailboxes (some box) =
    let (r, box') = answer un c box in (r, insert owner box' mailboxes)

-- A tool, on the mailbox that the directory resolves.
unfoldable pub serve_tool :
    Unicode → String → ToolCall → MailboxDataset → Result MailServerError Answer × MailboxDataset
unfolding lookup insert answer
serve_tool un owner c mailboxes = answer_for un owner c mailboxes (lookup owner mailboxes)

-- `_text_of`, for the one text that a failing tool reports.
unfoldable pub text_of : String → String → String
unfolding strip_by is_space
text_of context report = strip (str_append context report)

-- The end of `_invoke`: `reporting` wrote the failure, the client reads it.
abbrev pub read_result :
    Unicode
    → String
    → Result MailServerError Answer × MailboxDataset
    → Result ToolFailure Answer × MailboxDataset
read_result un context (ok a, mailboxes) = (ok a, mailboxes)
read_result un context (err e, mailboxes) =
    (err (decode_failure un (text_of context (reported un e))), mailboxes)

-- `MailAccessDeniedError(f"mailbox of {user.user_id}")`
unfoldable pub refusal : Unicode → String → ToolFailure
refusal un user_id = mail_access_denied (
    concat (
      "access to "
      ∷ un.repr (concat ("mailbox of " ∷ user_id ∷ []))
      ∷ " was denied by the mail system"
      ∷ []))

-- `_invoke`, with `_require_owner` first.
unfoldable pub invoke :
    Unicode
    → String
    → String
    → String
    → ToolCall
    → MailboxDataset
    → Result ToolFailure Answer × MailboxDataset
unfolding serve_tool text_of reported decode_failure refusal
invoke un context owner_id user_id c mailboxes =
    if user_id == owner_id
    then read_result un context (serve_tool un user_id c mailboxes)
    else (err (refusal un user_id), mailboxes)

abbrev pub address_text : Option EmailAddress → Option String
address_text none = none
address_text (some a) = some a.value

abbrev pub order_text : MailSortOrder → SortOrder
order_text Domain.newest_first = newest_first
order_text Domain.oldest_first = oldest_first

-- The arguments of the call of `McpMailTools.search`.
unfoldable pub asked : MailSearchRequest → Search
asked r = record {
  query = record {
    keywords = r.keywords;
    sender = address_text r.sender;
    recipient = address_text r.recipient;
    subject_contains = r.subject_contains;
    label_ids = r.label_ids;
    date_from = r.date_from;
    date_to = r.date_to;
    unread_only = r.unread_only;
    has_attachments = r.has_attachments;
  };
  limit = r.limit;
  sort_order = order_text r.sort_order;
}
