-- ===== src/Reference/Refinement.antt =====
-- The reference server's mailbox as the agent's contract sees it, and what it means that a tool of
-- the server does what a method of the in-memory tools does.
pub mod Matching
pub mod Reading
pub mod Labelling
pub mod Sound
pub mod Attaching
pub mod Clean
pub mod Shown
pub mod Runs
pub mod Tests
use ai_agents.Prelude.{◌≡◌, refl, ap, ◌∙◌, ℕ, String, Option, none, some, List, [], ◌∷◌, map}
use ai_agents.Prelude.Exec.{Result, ok, err, continue, or_raise, ◌>>=◌}
use ai_agents.Dict.{Dict}
use ai_agents.Dict.Mapping.{map_entries, map_option}
use ai_agents.Runtime.{Untrusted}
use ai_agents.Protocol.MailCodes.{
  MailServerError, not_found_error, access_denied_error, unavailable_error, protocol_error,
}
use ai_agents.Mail.Error.{
  MailError, Method, not_found, access_denied, tool_unavailable, tool_protocol,
}
use ai_agents.Mail.Models.{MailLabel, MailSortOrder}
use ai_agents.Mail.Models as Domain
use ai_agents.Mail.Models.Search.{MailSearchRequest}
use ai_agents.Mail.Mailbox.{Mailbox}
use ai_agents.Mail.Tools.{Call, Reply}
use ai_agents.Mail.Tools as Tools
use ai_agents.Wire.{Label, SortOrder, newest_first, oldest_first}
use ai_agents.Wire.Mapping.{label, labels, label_outcome}
use ai_agents.Wire.Fencing.{
  address_as, fenced_header, fenced_message, fenced_thread, fenced_result, fenced_draft, sent_as,
}
use ai_agents.Reference.Query.{Search}
use ai_agents.Reference.{InMemoryMailbox, Action}
use ai_agents.Reference.Tools.{
  ToolCall, search_mail, get_mail, get_conversation, labels_of_mailbox, save_draft, send_mail,
  mark_read, archive_mail, attach_label, detach_label, make_label, drop_label, Answer, hits, mail,
  conversation, label_list, saved, delivered, made, acknowledged,
}

-- The exception of the agent for a failure of the server.
abbrev pub told : MailServerError → MailError
told (not_found_error resource identifier) = not_found resource identifier
told (access_denied_error detail) = access_denied detail
told (unavailable_error detail) = tool_unavailable detail
told (protocol_error detail) = tool_protocol detail

abbrev pub order_as : SortOrder → MailSortOrder
order_as newest_first = Domain.newest_first
order_as oldest_first = Domain.oldest_first

-- The request that a search of the server answers.
abbrev pub request_as : Search → MailSearchRequest
request_as s = record {
  keywords = s.query.keywords;
  sender = map_option address_as s.query.sender;
  recipient = map_option address_as s.query.recipient;
  subject_contains = s.query.subject_contains;
  label_ids = s.query.label_ids;
  date_from = s.query.date_from;
  date_to = s.query.date_to;
  unread_only = s.query.unread_only;
  has_attachments = s.query.has_attachments;
  limit = s.limit;
  sort_order = order_as s.sort_order;
}

module _ {U : Type 0} ⦃u : Untrusted U⦄ where
  -- The labels of the server, by their identifiers.
  abbrev pub label_dict : List Label → Dict String (MailLabel U)
  label_dict [] = []
  label_dict (l ∷ ls) = (l.label_id, label l) ∷ label_dict ls

  -- The server's mailbox as a mailbox of the agent's contract.
  abbrev pub view : String → InMemoryMailbox → Mailbox U
  view owner box = record {
    owner_id = owner;
    messages = map_entries fenced_message box.messages;
    labels = label_dict box.labels;
    drafts = map_entries fenced_draft box.drafts;
    sent = map sent_as box.sent;
  }

  -- What a method did, as the agent sees it.
  abbrev pub shown :
      {A B : Type 0}
      → (A → B)
      → String
      → Result MailServerError A × InMemoryMailbox
      → Result MailError B × Mailbox U
  shown f owner (ok a, box) = (ok (f a), view owner box)
  shown f owner (err e, box) = (err (told e), view owner box)

  -- The call of the contract that a call of a tool serves.
  unfoldable pub call_as : ToolCall → Call U
  call_as (search_mail s) = Tools.search_for (request_as s)
  call_as (get_mail i) = Tools.get_message i
  call_as (get_conversation i) = Tools.get_thread i
  call_as labels_of_mailbox = Tools.list_labels
  call_as (save_draft fresh d) = Tools.create_draft fresh (fenced_draft d)
  call_as (send_mail fresh now d) = Tools.send_draft fresh now (fenced_draft d)
  call_as (mark_read i b) = Tools.mark i b
  call_as (archive_mail i) = Tools.archive_message i
  call_as (attach_label i l) = Tools.attach i l
  call_as (detach_label i l) = Tools.detach i l
  call_as (make_label name) = Tools.add_named name
  call_as (drop_label l) = Tools.delete l

  -- The reply of the contract that an answer of the server makes.
  unfoldable pub reply_as : Answer → Reply U
  unfolding fenced_result fenced_message fenced_thread
  reply_as (hits r) = Tools.result (fenced_result r)
  reply_as (mail m) = Tools.one_message (fenced_message m)
  reply_as (conversation t) = Tools.one_thread (fenced_thread t)
  reply_as (label_list ls) = Tools.all_labels (labels ls)
  reply_as (saved d) = Tools.draft (fenced_draft d)
  reply_as (delivered r) = Tools.sent (sent_as r)
  reply_as (made o) = Tools.outcome (label_outcome o)
  reply_as acknowledged = Tools.done

  pub shown-or_raise :
      {A B : Type 0} (f : A → B) (owner : String) (o : Option A) (e : MailServerError)
      (box : InMemoryMailbox)
      → or_raise {S = Mailbox U} (map_option f o) (told e) (view owner box)
        ≡ shown f owner (or_raise o e box)
  shown-or_raise f owner none e box = refl
  shown-or_raise f owner (some a) e box = refl

  module _ {A B C D : Type 0} (f : A → B) (g : C → D) (owner : String) (m : Action A)
      (k : A → Action C) (m' : Method (Mailbox U) B) (k' : B → Method (Mailbox U) D)
      (box : InMemoryMailbox) where
    shown-continue :
        (r : Result MailServerError A × InMemoryMailbox)
        → m box ≡ r
        → ((a : A) (s : InMemoryMailbox)
            → m box ≡ (ok a, s)
            → k' (f a) (view owner s) ≡ shown g owner (k a s))
        → continue m' k' (view owner box) (shown f owner r) ≡ shown g owner (continue m k box r)
    shown-continue (ok a, s) e h = h a s e
    shown-continue (err x, s) e h = refl

    -- A block of the server is shown as a block of the contract, when its parts are.
    pub shown->>= :
        m' (view owner box) ≡ shown f owner (m box)
        → ((a : A) (s : InMemoryMailbox)
            → m box ≡ (ok a, s)
            → k' (f a) (view owner s) ≡ shown g owner (k a s))
        → (m' >>= k') (view owner box) ≡ shown g owner ((m >>= k) box)
    shown->>= first rest =
        ap (continue m' k' (view owner box)) first ∙ shown-continue (m box) refl rest
