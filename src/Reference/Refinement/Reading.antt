-- ===== src/Reference/Refinement/Reading.antt =====
-- Messages, conversations, drafts, deliveries and the state of a message.
use ai_agents.Prelude.{
  ◌≡◌, refl, sym, ap, ◌∙◌, ℕ, String, Bool, true, false, Option, none, some, List, [], ◌∷◌, map,
  ◌==◌, string_eq, select, length, is_nonempty, suc, arith, All,
}
use ai_agents.Prelude.Naturality.{All-map, map-append, select-map, sort_by-map}
use ai_agents.Prelude.Exec.{Result, ok, err}
use ai_agents.Prelude.Sort.{sort_by, length-sort_by, All-sort_by}
use ai_agents.Text.{concat}
use ai_agents.Protocol.MailCodes.{MailServerError, not_found_error}
use ai_agents.Mail.Error.{MailError}
use ai_agents.Mail.Models.Thread.{MailThread, make_thread}
use ai_agents.Mail.Mailbox.Conversation.{All-select, make_thread_ok}
use ai_agents.Dict.{Dict, values, lookup}
use ai_agents.Dict.Mapping.{values-map_entries, lookup-map_entries, insert-map_entries}
use ai_agents.Runtime.{Untrusted}
use ai_agents.Mail.Models.{MailMessage, MailDraft, MailSendResult}
use ai_agents.Mail.Mailbox as M
use ai_agents.Mail.Tools as T
use ai_agents.Wire.{Message, Thread, Draft, SendResult}
use ai_agents.Wire.Fencing.{fenced_message, fenced_draft, fenced_thread, sent_as}
use ai_agents.Reference as R
use ai_agents.Reference.{InMemoryMailbox}
use ai_agents.Reference.Refinement.{told, view, shown, shown-or_raise, shown->>=}

draft_lem : (fresh : String) (o : Option String) → M.draft_key fresh o ≡ R.draft_name fresh o
draft_lem fresh none = refl
draft_lem fresh (some i) = refl

is_nonempty-length : {A : Type 0} (xs : List A) (n : ℕ) → length xs ≡ suc n → is_nonempty xs ≡ true
is_nonempty-length [] n h = absurd (omega (arith, h))
is_nonempty-length (x ∷ xs) n h = refl

module _ (U : Type 0) ⦃u : Untrusted U⦄ (owner : String) where
  pub require-refines :
      (i : String) (box : InMemoryMailbox)
      → M.message {U = U} i (view owner box) ≡ shown fenced_message owner (R.require i box)
  unfolding M.message R.require
  require-refines i box = rw (lookup-map_entries (fenced_message {U = U}) i box.messages) (
      shown-or_raise fenced_message owner (lookup i box.messages) (not_found_error "message" i) box)

  pub replace-refines :
      (m : Message) (box : InMemoryMailbox)
      → M.replace {U = U} (fenced_message m) (view owner box)
        ≡ shown (λ x. x) owner (R.replace m box)
  unfolding M.replace R.replace fenced_message
  replace-refines m box =
      ap (λ (d : Dict String (MailMessage U)). (ok tt, record (view owner box) { messages = d }))
        (insert-map_entries fenced_message m.message_id m box.messages)

  pub save-refines :
      (fresh : String) (d : Draft) (box : InMemoryMailbox)
      → M.store_draft {U = U} fresh (fenced_draft d) (view owner box)
        ≡ shown fenced_draft owner (R.create_draft fresh d box)
  unfolding M.store_draft R.create_draft fenced_draft
  save-refines fresh d box =
      let key = R.draft_name fresh d.draft_id in
      rw (draft_lem fresh d.draft_id) (
        ap
          (λ (e : Dict String (MailDraft U)). (
            ok (fenced_draft (record d { draft_id = some key })),
            record (view owner box) { drafts = e },
          ))
          (insert-map_entries fenced_draft key (record d { draft_id = some key }) box.drafts))

  pub send-refines :
      (fresh : String) (now : ℕ) (d : Draft) (box : InMemoryMailbox)
      → T.send {U = U} fresh now (fenced_draft d) (view owner box)
        ≡ shown sent_as owner (R.send fresh now d box)
  unfolding T.send R.send M.record_sent fenced_draft
  send-refines fresh now d box =
      let result : SendResult = record {
        message_id = concat ("sent-" ∷ fresh ∷ []);
        thread_id = d.thread_id;
        sent_at = now;
        has_timezone = true;
      } in
      ap (λ (l : List MailSendResult). (ok (sent_as result), record (view owner box) { sent = l }))
        (sym (map-append sent_as box.sent (result ∷ [])))

  -- A result of the server, as the agent sees it.
  abbrev thread_shown : Result MailServerError Thread → Result MailError (MailThread U)
  thread_shown (ok t) = ok (fenced_thread t)
  thread_shown (err e) = err (told e)

  in_thread_lem :
      (i : String) (m : Message) → M.in_thread {U = U} i (fenced_message m) ≡ (m.thread_id == i)
  unfolding fenced_message
  in_thread_lem i m = refl

  sent_lem : (m : Message) → M.sent_key {U = U} (fenced_message m) ≡ R.sent_key m
  unfolding fenced_message
  sent_lem m = refl

  titled_lem :
      (i : String) (m : Message) (sorted : List Message)
      → is_nonempty sorted ≡ true
      → All (λ (x : Message). (x.thread_id == i) ≡ true) sorted
      → make_thread i
          (M.head_or (fenced_message m) (map fenced_message sorted)).subject
          (map fenced_message sorted)
        ≡ thread_shown (R.titled_by_first i sorted)
  unfolding fenced_message fenced_thread
  titled_lem i m [] h same = absurd (ground arith)
  titled_lem i m (x ∷ xs) h same =
      make_thread_ok i (fenced_message x).subject (fenced_message x) (map fenced_message xs)
        (All-map fenced_message _ (λ y. M.in_thread i y ≡ true) (x ∷ xs) (λ y e. e) same)

  collected_lem :
      (i : String) (ms : List Message)
      → All (λ (x : Message). (x.thread_id == i) ≡ true) ms
      → M.thread_of i (map fenced_message ms)
        ≡ thread_shown (R.titled_by_first i (sort_by R.sent_key false ms))
  unfolding sort_by
  collected_lem i [] h = refl
  collected_lem i (m ∷ ms) h =
      rw (sort_by-map (fenced_message {U = U}) M.sent_key R.sent_key sent_lem false (m ∷ ms)) (
        titled_lem i m (sort_by R.sent_key false (m ∷ ms))
          (is_nonempty-length (sort_by R.sent_key false (m ∷ ms)) (length ms)
            (length-sort_by R.sent_key false (m ∷ ms)))
          (All-sort_by R.sent_key (λ (x : Message). (x.thread_id == i) ≡ true) false (m ∷ ms) h))

  thread-shown :
      (r : Result MailServerError Thread) (box : InMemoryMailbox)
      → (thread_shown r, view owner box) ≡ shown {U = U} fenced_thread owner (r, box)
  thread-shown (ok t) box = refl
  thread-shown (err e) box = refl

  -- A conversation of the server is the conversation of the contract, or is missing as it is.
  pub thread-refines :
      (i : String) (box : InMemoryMailbox)
      → M.thread {U = U} i (view owner box) ≡ shown fenced_thread owner (R.get_thread i box)
  unfolding M.thread R.get_thread
  thread-refines i box =
      let sel : List Message = select (λ (m : Message). m.thread_id == i) (values box.messages) in
      ap (λ ms. (M.thread_of i ms, view owner box))
        (ap (select (M.in_thread i)) (values-map_entries fenced_message box.messages)
          ∙ select-map fenced_message (M.in_thread {U = U} i) (λ (m : Message). m.thread_id == i)
              (in_thread_lem i) (values box.messages))
      ∙ ap (λ r. (r, view owner box))
          (collected_lem i sel
            (All-select (λ (m : Message). m.thread_id == i) (values box.messages)))
      ∙ thread-shown (R.titled_by_first i (sort_by R.sent_key false sel)) box

  -- Marking and archiving.
  pub set_read_state-refines :
      (i : String) (b : Bool) (box : InMemoryMailbox)
      → T.set_read_state {U = U} i b (view owner box)
        ≡ shown (λ x. x) owner (R.set_read_state i b box)
  unfolding T.set_read_state R.set_read_state fenced_message
  set_read_state-refines i b box =
      shown->>= fenced_message (λ x. x) owner (R.require i)
        (λ (m : Message). R.replace (record m { is_read = b })) (M.message i)
        (λ (m : MailMessage U). M.replace (record m { is_read = b })) box (require-refines i box)
        (λ m s e. replace-refines (record m { is_read = b }) s)

  pub archive-refines :
      (i : String) (box : InMemoryMailbox)
      → T.archive {U = U} i (view owner box) ≡ shown (λ x. x) owner (R.archive i box)
  unfolding T.archive R.archive fenced_message
  archive-refines i box =
      shown->>= fenced_message (λ x. x) owner (R.require i)
        (λ (m : Message). R.replace (record m { is_archived = true })) (M.message i)
        (λ (m : MailMessage U). M.replace (record m { is_archived = true })) box
        (require-refines i box) (λ m s e. replace-refines (record m { is_archived = true }) s)
