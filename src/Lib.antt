-- ===== src/Lib.antt =====
-- Verification of the AI agents laboratory: the mail agent's domain, its in-memory mailbox and its
-- confirmations, the reference mail server and the protocol between the two, and the wiki agent's
-- domain and its in-memory wiki.
--
-- The program. `agents/mail` is an agent that reads and changes a mailbox on behalf of a user. Its
-- domain (`agents/mail/src/ai_agent_lab/mail/domain`) defines messages, threads, labels, drafts and
-- search requests, and the services that plan a reply and normalise a category. Every access goes
-- through the mail-tools contract; the implementation in
-- `agents/mail/src/ai_agent_lab/mail/infrastructure/inmemory/mail_tools.py` keeps one `Mailbox` for
-- each user and serves the whole contract.
-- `agents/wiki` is such an agent for a wiki. Its domain (`agents/wiki/src/ai_agent_lab/wiki/domain`)
-- defines spaces, pages, comments and revision histories; `infrastructure/inmemory/wiki.py` holds a
-- wiki with the accounts that may read its spaces and pages, and `infrastructure/inmemory/wiki_tools.py`
-- serves the wiki-tools contract from it.
-- `mcp-servers/reference` is a mail server that keeps mailboxes in memory and answers tools over the
-- payloads of `mcp-servers/protocol`; the agent's dialect in `infrastructure/mcp/native` maps these
-- payloads to its models and reads the failures back. Before a gated operation, the agent's
-- `application/confirmations` describes it to the user.
--
-- Files.
--   Prelude: names of the library passed on, equality of keys and Boolean tests; its children hold
--     members and lists (Members, Lists), a stable sort (Sort), the search of a free name (Search),
--     decisions (Tests, Equality) and the monad of methods that may raise (Exec).
--   Dict: a Python `dict` as an association list in insertion order; Dict/Values relates lists to
--     dicts keyed by a field.
--   Text: operations of `str` on the native string; Text/Decimal writes a number in decimal,
--     Text/Find, Text/Occurrence and Text/Slice are about positions and slices.
--   Runtime: `UntrustedContent` of the external package `ygo74-agent-runtime`, as an interface.
--   Drafts: the two in-memory stores of prepared drafts (`infrastructure/inmemory/draft_store.py` of
--     both agents), and Drafts/Tests.
--   Mail/Error: exceptions of the mail agent. Mail/Models, with Address, Thread, Search:
--     `domain/models.py` and `domain/enums.py`.
--   Mail/Recipients: `ReplyRecipientPlanner` (`domain/services/reply_recipient_planner.py`).
--   Mail/Categories: `MailCategories` (`domain/services/categories.py`).
--   Mail/Mailbox: the class `Mailbox`; Mail/Matcher: `MailSearchMatcher` and `_contains_keywords`;
--     Mail/Tools: `InMemoryMailTools`. All three stand in `infrastructure/inmemory/mail_tools.py`.
--   Wiki/Error and Wiki/Models, with Search: the wiki's `domain/tool_errors.py`, `domain/models.py` and
--     `domain/enums.py`. Wiki/Store: `SpaceEntry`, `PageEntry` and `Wiki`; its children say what a
--     well-formed wiki is (Valid) and how a page is resolved (Access). Wiki/Matcher, with Criteria and
--     Titles: the filters and orders of a search. Wiki/Reading and Wiki/Tools: the operations of
--     `InMemoryWikiTools` that read and that write. Wiki/Service: calls by several users. Wiki/Terms and Wiki/StopWords: `application/skills/question_terms.py`, which makes
--     queries of a question. Wiki/Freshness: the detector of `application/skills/freshness_skill.py`.
--     Wiki/Tests: runs on a small wiki.
--   Mail/Operations: the catalogue of `application/operations.py`, `domain/operation_names.py` and
--     `domain/permissions.py`; Mail/Operations/Effects sets it beside the in-memory tools.
--     Wiki/Operations and its Effects: the same of the wiki. Operations: the metadata that both share,
--     and the answer of `DeliveredMailOperations` and `DeliveredWikiOperations`.
--   Mail/Confirmation: `application/confirmations/presenter.py` and `targets.py`, with the descriptions
--     that `application/skills/management_skill.py` and `send_skill.py` build; Subjects: `subjects.py`;
--     Covered and Cached are about what is described and what is remembered.
--   Protocol: `encode` and `decode` of the `errors.py` of both protocol packages, over an enumeration
--     of codes; MailCodes and WikiCodes: the two enumerations, the exceptions and their translation by
--     the agents; Earliest, Decoding, MailFailures and WikiFailures: what is read back.
--   Wire: the payloads of `mcp-servers/protocol/src/mail_mcp/protocol/payloads.py` and the rule of
--     `rules.py`; Wire/Mapping: `MailWireMapper`; Wire/Fencing: what it makes of payloads in order.
--   Reference: `InMemoryMailbox` of `mcp-servers/reference/src/mail_mcp/reference/mailbox.py`; Query:
--     `_Query`; Tools: the tools of `protocol/serving.py` over it; Refinement, with Matching, Reading,
--     Labelling, Attaching, Sound, Clean, Shown and Runs: the server seen as the agent's contract,
--     through `MailWireMapper`, for addresses in normal form and dates with a time zone.
--   Client: `McpMailTools._invoke` of `infrastructure/mcp/native/client.py` over the tools of the
--     reference server, with `MailboxDataset`; Trimming and Telling are about the texts of failures,
--     Agreement sets the two together beside the contract.
--   Samples: instances of the interfaces for the tests.
--   Mail/Tests: runs on a small mailbox, and each theorem at a concrete input.
--
-- Correspondence. A method is a function from the state to a result and the state after it; an
-- exception is the result `err`, and what was written before it stays written. `perform` is one
-- call of the mail contract on the caller's mailbox, `serve` finds that mailbox by the user's
-- identifier, and `run` is a sequence of calls by several users; `serve_call` and `run_calls` are the
-- same for the wiki, which all users share. An `async` method of these classes never awaits, so a
-- call is one step. Model objects are immutable in the source, so they are values here. A
-- datetime is its number of microseconds in UTC: the models require a time zone and convert to UTC;
-- a payload says whether its date carries one, and `require_timezone` refuses it if not.
--
-- The reference server and the contract. `answer` is one tool of the server on the mailbox of its
-- owner, `call_as` the call of the contract that it serves, `read_answer` the mapper on what it
-- answers, and `IsShown` says that the mapper makes a mailbox of the contract of the server's.
-- `EmailAddress` strips, lowers and validates, and the server compares what it holds as it is, so the
-- two agree where addresses are in normal form already: `IsCleanMailbox` and `IsCleanCall` say so, and
-- that dates carry a time zone. `view` is that mailbox, written down: the tuple of labels becomes a
-- dict. `told` takes a failure of the server to the exception of the agent with the same arguments.
--
-- Parameters. `Reads` answers what the skills answer to the resolver of the confirmations, each time
-- that it asks. The text that a transport writes before a report is an argument. `Untrusted` is the
-- external type of untrusted text, with the law that text put in comes out again. `Unicode` holds what
-- `str` takes from the Unicode tables and `repr`. The random
-- part of an identifier and the clock's time are arguments of the call that uses them.
--
-- Fuel. The search of a free label identifier tries one more suffix than there are labels, which is
-- enough since the identifiers that it tries differ; decimal notation takes one step more than the
-- number. Both are proved where they are used.
--
-- Not modelled: logging, the agent frameworks' adapters, HTTP and command-line entry points, network
-- clients and their sessions, and the language-model reasoning of the skills; the descriptors' texts for
-- the language model and the gated execution, which is the framework's; and, of the deterministic code,
-- the security floors, the wiki's confirmations, the other skills, the dataset loaders, the
-- wiki server and the Gmail dialects.
pub mod Prelude
pub mod Samples
pub mod Dict
pub mod Text
pub mod Runtime
pub mod Drafts
pub mod Protocol
pub mod Operations
pub mod Mail
pub mod Wire
pub mod Reference
pub mod Client
pub mod Wiki
