-- ===== src/Wire/Mapping.antt =====
-- `MailWireMapper` of agents/mail/src/ai_agent_lab/mail/infrastructure/mcp/native/mapping.py: a server's
-- payloads as the models of the agent, free text fenced, and drafts the other way.
use ai_agents.Prelude.{String, Bool, Option, none, some, List, [], ◌∷◌, map, if◌then◌else◌}
use ai_agents.Prelude.Exec.{ok, err, and_then}
use ai_agents.Text.{Unicode}
use ai_agents.Runtime.{Untrusted}
use ai_agents.Mail.Error.{Checked, invalid, no_draft_recipient, naive_datetime}
use ai_agents.Mail.Models.{
  EmailAddress, MailParticipant, MailAttachment, MailLabel, MailLabelOutcome, MailHeader,
  MailMessage, MailDraft, MailSendResult, MailImportance,
}
use ai_agents.Mail.Models as Domain
use ai_agents.Mail.Models.Address.{make_address}
use ai_agents.Mail.Models.Thread.{MailThread, make_thread}
use ai_agents.Mail.Models.Search.{MailSearchResult, make_result}
use ai_agents.Wire.{
  Importance, low, normal, high, Participant, Attachment, Label, Header, Message, Thread,
  SearchResult, Draft, SendResult, Labels, CreatedLabel,
}

-- `tuple(f(item) for item in items)`, where `f` may raise.
unfoldable pub each : {A B : Type 0} → (A → Checked B) → List A → Checked (List B)
each f [] = ok []
each f (x ∷ xs) = and_then (f x) (λ y. and_then (each f xs) (λ ys. ok (y ∷ ys)))

-- `MailImportance(payload.importance.value)`
unfoldable pub importance : Importance → MailImportance
importance low = Domain.low
importance normal = Domain.normal
importance high = Domain.high

module _ {U : Type 0} ⦃u : Untrusted U⦄ where
  -- `untrusted(text, origin)`, with the origin of the mail domain of that kind.
  abbrev pub fence : String → String → U
  fence kind text = u.untrusted text ("mail", kind)

  abbrev pub fence_optional : String → Option String → Option U
  fence_optional kind none = none
  fence_optional kind (some text) = some (fence kind text)

  unfoldable pub attachment : Attachment → MailAttachment U
  attachment a = record {
    attachment_id = a.attachment_id;
    file_name = fence "attachment_name" a.file_name;
    media_type = a.media_type;
    size_bytes = a.size_bytes;
  }

  unfoldable pub label : Label → MailLabel U
  label l = record { label_id = l.label_id; name = fence "label" l.name; is_system = l.is_system }

  unfoldable pub labels : Labels → List (MailLabel U)
  unfolding label
  labels ls = map label ls

  unfoldable pub label_outcome : CreatedLabel → MailLabelOutcome U
  unfolding label
  label_outcome o = record { label = label o.label; created = o.created }

  unfoldable pub to_wire : MailDraft U → Draft
  to_wire d = record {
    draft_id = d.draft_id;
    to = map (λ (a : EmailAddress). a.value) d.to;
    cc = map (λ (a : EmailAddress). a.value) d.cc;
    subject = u.expose d.subject;
    body = u.expose d.body;
    in_reply_to_message_id = d.in_reply_to_message_id;
    thread_id = d.thread_id;
  }

-- `_require_timezone`, on whether the datetime carries a time zone
unfoldable pub require_timezone : Bool → Checked (Unit {0})
require_timezone has_timezone = if has_timezone then ok tt else err (invalid naive_datetime)

unfoldable pub send_result : SendResult → Checked MailSendResult
unfolding require_timezone
send_result r =
    and_then (require_timezone r.has_timezone)
      (λ _. ok (record { message_id = r.message_id; thread_id = r.thread_id; sent_at = r.sent_at }))

module _ {U : Type 0} ⦃u : Untrusted U⦄ (un : Unicode) where
  -- An address is validated again, so that each of these may raise.
  unfoldable pub participant : Participant → Checked (MailParticipant U)
  participant p =
      and_then (make_address un p.address) (λ a.
        ok (record { address = a; display_name = fence_optional "sender_name" p.display_name }))

  unfoldable pub header : Header → Checked (MailHeader U)
  unfolding participant importance require_timezone
  header h = and_then (participant h.sender) (λ sender.
      and_then (require_timezone h.has_timezone) (λ _. ok (record {
        message_id = h.message_id;
        thread_id = h.thread_id;
        subject = fence "subject" h.subject;
        sender = sender;
        recipient_count = h.recipient_count;
        sent_at = h.sent_at;
        is_read = h.is_read;
        is_archived = h.is_archived;
        has_attachments = h.has_attachments;
        importance = importance h.importance;
        label_ids = h.label_ids;
      })))

  unfoldable pub message : Message → Checked (MailMessage U)
  unfolding participant importance attachment each require_timezone
  message m = and_then (participant m.sender) (λ sender. and_then (each participant m.to) (λ to.
      and_then (each participant m.cc) (λ cc. and_then (require_timezone m.has_timezone) (λ _.
        ok (record {
          message_id = m.message_id;
          thread_id = m.thread_id;
          subject = fence "subject" m.subject;
          body = fence "body" m.body;
          sender = sender;
          to = to;
          cc = cc;
          sent_at = m.sent_at;
          is_read = m.is_read;
          is_archived = m.is_archived;
          importance = importance m.importance;
          label_ids = m.label_ids;
          attachments = map attachment m.attachments;
          in_reply_to = m.in_reply_to;
        })))))

  unfoldable pub thread : Thread → Checked (MailThread U)
  unfolding message each
  thread t =
      and_then (each message t.messages)
        (λ ms. make_thread t.thread_id (fence "subject" t.subject) ms)

  unfoldable pub search_result : SearchResult → Checked (MailSearchResult U)
  unfolding header each
  search_result r =
      and_then (each header r.headers) (λ hs. make_result hs r.total_count r.truncated)

  -- `MailDraft(...)`: at least one recipient.
  abbrev pub make_draft : MailDraft U → List EmailAddress → Checked (MailDraft U)
  make_draft d [] = err (invalid no_draft_recipient)
  make_draft d (a ∷ as_) = ok d

  unfoldable pub draft : Draft → Checked (MailDraft U)
  unfolding make_address each
  draft d = and_then (each (make_address un) d.to) (λ to.
      and_then (each (make_address un) d.cc) (λ cc.
        make_draft
          (record {
            draft_id = d.draft_id;
            to = to;
            cc = cc;
            subject = fence "subject" d.subject;
            body = fence "body" d.body;
            in_reply_to_message_id = d.in_reply_to_message_id;
            thread_id = d.thread_id;
          })
          to))
