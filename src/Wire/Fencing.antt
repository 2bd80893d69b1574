-- ===== src/Wire/Fencing.antt =====
-- What the mapper makes of a payload whose addresses are in order: the models, built without a check.
use ai_agents.Prelude.{
  ◌≡◌, refl, ◌∙◌, if◌then◌else◌, Bool-cases, inl, inr, String, true, Option, none, some, List, [],
  ◌∷◌, map, All, is_nonempty, arith,
}
use ai_agents.Prelude.Exec.{ok, err, and_then}
use ai_agents.Text.{Unicode}
use ai_agents.Runtime.{Untrusted}
use ai_agents.Mail.Error.{Checked, invalid, naive_datetime}
use ai_agents.Mail.Models.{
  EmailAddress, MailParticipant, MailAttachment, MailHeader, MailMessage, MailDraft, MailImportance,
  MailSendResult,
}
use ai_agents.Mail.Models as Domain
use ai_agents.Mail.Models.Address.{make_address}
use ai_agents.Mail.Models.Thread.{MailThread}
use ai_agents.Mail.Models.Search.{MailSearchResult}
use ai_agents.Wire.{
  Importance, low, normal, high, Participant, Attachment, Header, Message, Thread, SearchResult,
  Draft, SendResult,
}
use ai_agents.Wire.Mapping.{
  each, importance, fence_optional, attachment, participant, header, message, draft, make_draft,
  send_result, require_timezone,
}

-- The address of a text that is in normal form.
abbrev pub address_as : String → EmailAddress
address_as a = record { value = a }

abbrev pub importance_as : Importance → MailImportance
importance_as low = Domain.low
importance_as normal = Domain.normal
importance_as high = Domain.high

abbrev pub sent_as : SendResult → MailSendResult
sent_as r = record { message_id = r.message_id; thread_id = r.thread_id; sent_at = r.sent_at }

module _ {U : Type 0} ⦃u : Untrusted U⦄ where
  abbrev pub fenced_name : Option String → Option U
  fenced_name none = none
  fenced_name (some name) = some (u.untrusted name ("mail", "sender_name"))

  abbrev pub fenced_attachment : Attachment → MailAttachment U
  fenced_attachment a = record {
    attachment_id = a.attachment_id;
    file_name = u.untrusted a.file_name ("mail", "attachment_name");
    media_type = a.media_type;
    size_bytes = a.size_bytes;
  }

  abbrev pub fenced_participant : Participant → MailParticipant U
  fenced_participant p = record {
    address = address_as p.address;
    display_name = fenced_name p.display_name;
  }

  unfoldable pub fenced_header : Header → MailHeader U
  fenced_header h = record {
    message_id = h.message_id;
    thread_id = h.thread_id;
    subject = u.untrusted h.subject ("mail", "subject");
    sender = fenced_participant h.sender;
    recipient_count = h.recipient_count;
    sent_at = h.sent_at;
    is_read = h.is_read;
    is_archived = h.is_archived;
    has_attachments = h.has_attachments;
    importance = importance_as h.importance;
    label_ids = h.label_ids;
  }

  unfoldable pub fenced_message : Message → MailMessage U
  fenced_message m = record {
    message_id = m.message_id;
    thread_id = m.thread_id;
    subject = u.untrusted m.subject ("mail", "subject");
    body = u.untrusted m.body ("mail", "body");
    sender = fenced_participant m.sender;
    to = map fenced_participant m.to;
    cc = map fenced_participant m.cc;
    sent_at = m.sent_at;
    is_read = m.is_read;
    is_archived = m.is_archived;
    importance = importance_as m.importance;
    label_ids = m.label_ids;
    attachments = map fenced_attachment m.attachments;
    in_reply_to = m.in_reply_to;
  }

  unfoldable pub fenced_thread : Thread → MailThread U
  unfolding fenced_message
  fenced_thread t = record {
    thread_id = t.thread_id;
    subject = u.untrusted t.subject ("mail", "subject");
    messages = map fenced_message t.messages;
  }

  unfoldable pub fenced_result : SearchResult → MailSearchResult U
  unfolding fenced_header
  fenced_result r = record {
    headers = map fenced_header r.headers;
    total_count = r.total_count;
    truncated = r.truncated;
  }

  unfoldable pub fenced_draft : Draft → MailDraft U
  fenced_draft d = record {
    draft_id = d.draft_id;
    to = map address_as d.to;
    cc = map address_as d.cc;
    subject = u.untrusted d.subject ("mail", "subject");
    body = u.untrusted d.body ("mail", "body");
    in_reply_to_message_id = d.in_reply_to_message_id;
    thread_id = d.thread_id;
  }

-- A text that is a valid address, and already in its normal form.
abbrev pub IsClean : Unicode → String → Type 0
IsClean un a = make_address un a ≡ ok (address_as a)

abbrev pub AreClean : Unicode → List Participant → Type 0
AreClean un = All (λ p. IsClean un p.address)

abbrev pub IsCleanMessage : Unicode → Message → Type 0
IsCleanMessage un m =
    IsClean un m.sender.address × AreClean un m.to × AreClean un m.cc × (m.has_timezone ≡ true)

abbrev pub IsCleanHeader : Unicode → Header → Type 0
IsCleanHeader un h = IsClean un h.sender.address × (h.has_timezone ≡ true)

-- A draft with a recipient, whose addresses are clean.
abbrev pub IsCleanDraft : Unicode → Draft → Type 0
IsCleanDraft un d = All (IsClean un) d.to × All (IsClean un) d.cc × (is_nonempty d.to ≡ true)

pub ok_unique : {A : Type 0} (r : Checked A) {a b : A} → r ≡ ok a → r ≡ ok b → a ≡ b
ok_unique r h k = ground (arith, h, k)

each_ok :
    {A B : Type 0} (f : A → Checked B) (g : A → B) (xs : List A)
    → All (λ x. f x ≡ ok (g x)) xs
    → each f xs ≡ ok (map g xs)
unfolding each
each_ok f g [] h = refl
each_ok f g (x ∷ xs) h = rw (h.0, each_ok f g xs h.1) refl

All-weaken :
    {A : Type 0} (P Q : A → Type 0) (xs : List A) → ((x : A) → P x → Q x) → All P xs → All Q xs
All-weaken P Q [] f h = tt
All-weaken P Q (x ∷ xs) f h = (f x h.0, All-weaken P Q xs f h.1)

importance_lem : (i : Importance) → importance i ≡ importance_as i
unfolding importance
importance_lem low = refl
importance_lem normal = refl
importance_lem high = refl

module _ {U : Type 0} ⦃u : Untrusted U⦄ (un : Unicode) where
  name_lem : (o : Option String) → fence_optional {U = U} "sender_name" o ≡ fenced_name o
  name_lem none = refl
  name_lem (some name) = refl

  attachment_lem : (a : Attachment) → attachment {U = U} a ≡ fenced_attachment a
  unfolding attachment
  attachment_lem a = refl

  attachments_lem :
      (as_ : List Attachment) → map (attachment {U = U}) as_ ≡ map fenced_attachment as_
  attachments_lem [] = refl
  attachments_lem (a ∷ as_) = rw (attachment_lem a, attachments_lem as_) refl

  participant_ok :
      (p : Participant)
      → IsClean un p.address
      → participant {U = U} un p ≡ ok (fenced_participant p)
  unfolding participant
  participant_ok p h = rw (h, name_lem p.display_name) refl

  participants_ok :
      (ps : List Participant)
      → AreClean un ps
      → each (participant {U = U} un) ps ≡ ok (map fenced_participant ps)
  participants_ok ps h =
      each_ok (participant {U = U} un) fenced_participant ps (All-weaken _ _ ps participant_ok h)

  message_lem :
      (m : Message)
      → IsClean un m.sender.address
      → AreClean un m.to
      → AreClean un m.cc
      → message {U = U} un m
        ≡ and_then (require_timezone m.has_timezone) (λ _. ok (fenced_message m))
  unfolding message fenced_message
  message_lem m sender to cc =
      rw
        (
          participant_ok m.sender sender,
          participants_ok m.to to,
          participants_ok m.cc cc,
          importance_lem m.importance,
          attachments_lem m.attachments,
        )
        refl

  -- A message whose addresses are valid and in normal form is accepted by the mapper exactly if its
  -- date carries a time zone, and is refused for the date if not. The model has the subject, the
  -- body, the display names and the file names fenced, and everything else as it was sent.
  pub message-fenced :
      (m : Message)
      → IsClean un m.sender.address
      → AreClean un m.to
      → AreClean un m.cc
      → message {U = U} un m
        ≡ (if m.has_timezone then ok (fenced_message m) else err (invalid naive_datetime))
  unfolding require_timezone
  message-fenced m sender to cc = elim (Bool-cases m.has_timezone) [
    | inl aware ↦ message_lem m sender to cc ∙ rw aware refl
    | inr naive ↦ message_lem m sender to cc ∙ rw naive refl
  ]

  pub message_ok :
      (m : Message) → IsCleanMessage un m → message {U = U} un m ≡ ok (fenced_message m)
  message_ok m h = message-fenced m h.0 h.1 h.2 ∙ rw h.3 refl

  pub messages-fenced :
      (ms : List Message)
      → All (IsCleanMessage un) ms
      → each (message {U = U} un) ms ≡ ok (map fenced_message ms)
  messages-fenced ms h =
      each_ok (message {U = U} un) fenced_message ms (All-weaken _ _ ms message_ok h)

  pub header-fenced : (h : Header) → IsCleanHeader un h → header {U = U} un h ≡ ok (fenced_header h)
  unfolding header fenced_header require_timezone
  header-fenced h clean =
      rw (participant_ok h.sender clean.0, clean.1, importance_lem h.importance) refl

  pub headers-fenced :
      (hs : List Header)
      → All (IsCleanHeader un) hs
      → each (header {U = U} un) hs ≡ ok (map fenced_header hs)
  headers-fenced hs h =
      each_ok (header {U = U} un) fenced_header hs (All-weaken _ _ hs header-fenced h)

  pub draft-fenced : (d : Draft) → IsCleanDraft un d → draft {U = U} un d ≡ ok (fenced_draft d)
  unfolding draft fenced_draft
  draft-fenced d h =
      rw
        (
          each_ok (make_address un) address_as d.to h.0,
          each_ok (make_address un) address_as d.cc h.1,
        )
        (recipients d.to h.2)
    where
      recipients :
          (to : List String)
          → is_nonempty to ≡ true
          → make_draft {U = U} un (fenced_draft d) (map address_as to) ≡ ok (fenced_draft d)
      recipients [] h = absurd (ground (arith, h))
      recipients (a ∷ to) h = refl

pub sent-fenced : (r : SendResult) → r.has_timezone ≡ true → send_result r ≡ ok (sent_as r)
unfolding send_result require_timezone
sent-fenced r h = rw h refl

pub all_sent-fenced :
    (rs : List SendResult)
    → All (λ (r : SendResult). r.has_timezone ≡ true) rs
    → each send_result rs ≡ ok (map sent_as rs)
all_sent-fenced rs h = each_ok send_result sent_as rs (All-weaken _ _ rs sent-fenced h)
