-- ===== src/Reference/Refinement/Shown.antt =====
-- What the agent's mapper makes of the server's answers, and of its whole mailbox.
use ai_agents.Prelude.{
  ◌≡◌, refl, ◌∙◌, ap, String, true, List, [], ◌∷◌, map, string_eq, ◌==◌, All, is_nonempty,
  length-map, arith,
}
use ai_agents.Prelude.Naturality.{All-map}
use ai_agents.Prelude.Exec.{Result, ok, err, and_then}
use ai_agents.Dict.{Dict}
use ai_agents.Dict.Values.{EachEntry}
use ai_agents.Dict.Mapping.{map_entries}
use ai_agents.Text.{Unicode}
use ai_agents.Runtime.{Untrusted}
use ai_agents.Protocol.MailCodes.{MailServerError}
use ai_agents.Mail.Error.{MailError, Checked}
use ai_agents.Mail.Models.{MailLabel, MailMessage, MailDraft, MailSendResult}
use ai_agents.Mail.Models.Search.{make_result}
use ai_agents.Mail.Models.Thread.{make_thread}
use ai_agents.Mail.Mailbox.{Mailbox, in_thread}
use ai_agents.Mail.Mailbox.Conversation.{make_thread_ok}
use ai_agents.Mail.Tools.{Reply}
use ai_agents.Mail.Tools as Tools
use ai_agents.Wire.{Message, Thread, SearchResult}
use ai_agents.Wire.Mapping as Mapper
use ai_agents.Wire.Mapping.{each}
use ai_agents.Wire.Fencing.{
  fenced_header, fenced_message, fenced_thread, fenced_result, fenced_draft, message_ok,
  messages-fenced, headers-fenced, draft-fenced, sent-fenced, all_sent-fenced, ok_unique,
}
use ai_agents.Reference.{InMemoryMailbox}
use ai_agents.Reference.Tools.{
  Answer, hits, mail, conversation, label_list, saved, delivered, made, acknowledged,
}
use ai_agents.Reference.Refinement.{told, view, reply_as, label_dict}
use ai_agents.Reference.Refinement.Clean.{IsCleanMailbox, IsCleanAnswer, IsWhole}

-- A mapping that may fail, on every value of a dict.
abbrev pub each_entry : {A B : Type 0} → (A → Checked B) → Dict String A → Checked (Dict String B)
each_entry f [] = ok []
each_entry f ((k, a) ∷ d) =
    and_then (f a) (λ b. and_then (each_entry f d) (λ rest. ok ((k, b) ∷ rest)))

each_entry_ok :
    {A B : Type 0} (P : A → Type 0) (f : A → Checked B) (g : A → B) (d : Dict String A)
    → ((a : A) → P a → f a ≡ ok (g a))
    → EachEntry (λ _ a. P a) d
    → each_entry f d ≡ ok (map_entries g d)
each_entry_ok P f g [] same h = refl
each_entry_ok P f g ((k, a) ∷ d) same h = rw (same a h.0, each_entry_ok P f g d same h.1) refl

module _ {U : Type 0} ⦃u : Untrusted U⦄ (un : Unicode) where
  -- The end of each method of `McpMailTools`: the mapper on the payload of the answer.
  unfoldable pub read_answer : Answer → Checked (Reply U)
  unfolding Mapper.search_result Mapper.message Mapper.thread Mapper.labels Mapper.draft
      Mapper.send_result Mapper.label_outcome
  read_answer (hits r) = and_then (Mapper.search_result un r) (λ x. ok (Tools.result x))
  read_answer (mail m) = and_then (Mapper.message un m) (λ x. ok (Tools.one_message x))
  read_answer (conversation t) = and_then (Mapper.thread un t) (λ x. ok (Tools.one_thread x))
  read_answer (label_list ls) = ok (Tools.all_labels (Mapper.labels ls))
  read_answer (saved d) = and_then (Mapper.draft un d) (λ x. ok (Tools.draft x))
  read_answer (delivered r) = and_then (Mapper.send_result r) (λ x. ok (Tools.sent x))
  read_answer (made o) = ok (Tools.outcome (Mapper.label_outcome o))
  read_answer acknowledged = ok Tools.done

  -- The mailbox of the server and one of the agent's are the same: the mapper accepts everything in
  -- the one and makes the other of it.
  pub record IsShown (owner : String) (box : InMemoryMailbox) (box' : Mailbox U) : Type 0 where
    pub owner_id : box'.owner_id ≡ owner
    pub messages : each_entry (Mapper.message un) box.messages ≡ ok box'.messages
    pub labels : box'.labels ≡ label_dict box.labels
    pub drafts : each_entry (Mapper.draft un) box.drafts ≡ ok box'.drafts
    pub sent : each Mapper.send_result box.sent ≡ ok box'.sent

  -- A clean mailbox is seen as its view, and as nothing else.
  pub view-IsShown :
      (owner : String) (box : InMemoryMailbox)
      → IsCleanMailbox un box
      → IsShown owner box (view owner box)
  view-IsShown owner box v = record {
    owner_id = refl;
    messages =
        each_entry_ok _ (Mapper.message un) fenced_message box.messages (message_ok un) v.messages;
    labels = refl;
    drafts = each_entry_ok _ (Mapper.draft un) fenced_draft box.drafts (draft-fenced un) v.drafts;
    sent = all_sent-fenced box.sent v.sent;
  }

  pub shown_once :
      (owner : String) (box : InMemoryMailbox) (box' : Mailbox U)
      → IsCleanMailbox un box
      → IsShown owner box box'
      → box' ≡ view owner box
  shown_once owner box box' v s =
      let w = view-IsShown owner box v in
      ap (λ o. record box' { owner_id = o }) s.owner_id
      ∙ ap (λ (d : Dict String (MailMessage U)). record box' { owner_id = owner; messages = d })
          (ok_unique _ s.messages w.messages)
      ∙ ap
          (λ (d : Dict String (MailLabel U)). record box' {
            owner_id = owner;
            messages = map_entries fenced_message box.messages;
            labels = d;
          })
          s.labels
      ∙ ap
          (λ (d : Dict String (MailDraft U)). record (view owner box) {
            drafts = d;
            sent = box'.sent;
          })
          (ok_unique _ s.drafts w.drafts)
      ∙ ap (λ (l : List MailSendResult). record (view owner box) { sent = l })
          (ok_unique _ s.sent w.sent)

  result-fenced :
      (r : SearchResult)
      → IsCleanAnswer un (hits r)
      → Mapper.search_result {U = U} un r ≡ ok (fenced_result r)
  unfolding Mapper.search_result make_result fenced_result
  result-fenced r h =
      rw (headers-fenced {U = U} un r.headers h.0, length-map r.headers (fenced_header {U = U}))
        (ground (arith, h.1))

  thread-fenced : (t : Thread) → IsWhole un t → Mapper.thread {U = U} un t ≡ ok (fenced_thread t)
  unfolding Mapper.thread fenced_thread fenced_message
  thread-fenced t h =
      ap
        (λ r.
          and_then r (λ ms. make_thread t.thread_id (u.untrusted t.subject ("mail", "subject")) ms))
        (messages-fenced {U = U} un t.messages h.0)
      ∙ whole t.messages h.1 h.2
    where
      whole :
          (ms : List Message)
          → is_nonempty ms ≡ true
          → All (λ (m : Message). (m.thread_id == t.thread_id) ≡ true) ms
          → make_thread {U = U} t.thread_id
              (u.untrusted t.subject ("mail", "subject"))
              (map fenced_message ms)
            ≡ ok (record {
              thread_id = t.thread_id;
              subject = u.untrusted t.subject ("mail", "subject");
              messages = map fenced_message ms;
            })
      whole [] h k = absurd (ground (arith, h))
      whole (m ∷ ms) h k =
          make_thread_ok t.thread_id _ (fenced_message m) (map fenced_message ms)
            (All-map fenced_message _ (λ y. in_thread t.thread_id y ≡ true) (m ∷ ms) (λ y e. e) k)

  -- The mapper accepts a clean answer and makes the reply of it.
  pub read_answer_ok : (a : Answer) → IsCleanAnswer un a → read_answer a ≡ ok (reply_as a)
  unfolding read_answer reply_as
  read_answer_ok (hits r) h = rw (result-fenced r h) refl
  read_answer_ok (mail m) h = rw (message_ok {U = U} un m h) refl
  read_answer_ok (conversation t) h = rw (thread-fenced t h) refl
  read_answer_ok (label_list ls) h = refl
  read_answer_ok (saved d) h = rw (draft-fenced {U = U} un d h) refl
  read_answer_ok (delivered r) h = rw (sent-fenced r h) refl
  read_answer_ok (made o) h = refl
  read_answer_ok acknowledged h = refl

  -- What the agent gets of a tool's outcome.
  abbrev pub read_outcome : Result MailServerError Answer → Result MailError (Reply U)
  read_outcome (ok a) = read_answer a
  read_outcome (err e) = err (told e)
