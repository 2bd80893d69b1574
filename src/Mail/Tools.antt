-- ===== src/Mail/Tools.antt =====
-- `InMemoryMailTools` of agents/mail/src/ai_agent_lab/mail/infrastructure/inmemory/mail_tools.py. What a
-- tool does to the caller's mailbox is an action on that mailbox; `serve` finds the mailbox.
pub mod Valid
pub mod Labels
pub mod Deletion
pub mod Attachment
pub mod Undo
pub mod Search
pub mod State
pub mod Isolation
use ai_agents.Prelude.{
  ℕ, ◌<◌, ltb, String, Bool, true, false, not, Option, none, some, List, [], ◌∷◌, ◌++◌, map, ◌==◌,
  string_eq, if◌then◌else◌, select, take, length, contains,
}
use ai_agents.Prelude.Exec.{
  Exec, Result, ok, err, pure, raise, lift, gets, or_raise, modify, raise_if, ◌>>=◌, ◌>>◌,
}
use ai_agents.Prelude.Sort.{sort_by}
use ai_agents.Dict.{Dict, values, lookup, insert}
use ai_agents.Text.{Unicode, concat}
use ai_agents.Runtime.{Untrusted}
use ai_agents.Mail.Error.{MailError, Checked, Method, access_denied}
use ai_agents.Mail.Models.{
  MailMessage, MailLabel, MailLabelOutcome, MailDraft, MailSendResult, MailSortOrder, newest_first,
  oldest_first, MailHeader, to_header,
}
use ai_agents.Mail.Models.Thread.{MailThread}
use ai_agents.Mail.Models.Search.{MailSearchRequest, MailSearchResult, make_result}
use ai_agents.Mail.Matcher.{matches}
use ai_agents.Mail.Mailbox.{
  Mailbox, sent_key, message, thread, replace, store_draft, record_sent, require_label, label_named,
  add_label, drop_label, without_label, carries, mint_label_id,
}

abbrev pub is_newest_first : MailSortOrder → Bool
is_newest_first newest_first = true
is_newest_first oldest_first = false

module _ {U : Type 0} ⦃u : Untrusted U⦄ (un : Unicode) where
  abbrev pub matching : MailSearchRequest → Mailbox U → List (MailMessage U)
  matching r box = select (λ m. matches un m r) (values box.messages)

  -- `matching`, once it is sorted.
  abbrev pub found : MailSearchRequest → Mailbox U → List (MailMessage U)
  found r box = sort_by sent_key (is_newest_first r.sort_order) (matching r box)

  abbrev pub page : MailSearchRequest → Mailbox U → List (MailHeader U)
  page r box = map to_header (take r.limit (found r box))

  -- `search`
  unfoldable pub search_mail : MailSearchRequest → Method (Mailbox U) (MailSearchResult U)
  search_mail r box =
      let headers = page r box in
      let total = length (found r box) in
      (make_result headers total (ltb (length headers) total), box)

  abbrev pub existing_or_new :
      String → Option (MailLabel U) → Method (Mailbox U) (MailLabelOutcome U)
  existing_or_new name (some label) = pure (record { label = label; created = false })
  existing_or_new name none = do
    label_id ← gets (mint_label_id un name)
    label ← add_label (record {
      label_id = label_id;
      name = u.untrusted name ("mail", "label");
      is_system = false;
    })
    pure (record { label = label; created = true })

  -- `create_label`
  unfoldable pub create_label : String → Method (Mailbox U) (MailLabelOutcome U)
  create_label name = do existing ← gets (label_named un name); existing_or_new name existing

  -- The end of `delete_label`: a label of the mail system is refused.
  abbrev pub delete_found : String → MailLabel U → Method (Mailbox U) (Unit {0})
  delete_found label_id label = do
    raise_if label.is_system (
        access_denied (
          concat (
            "label "
            ∷ un.repr (u.expose label.name)
            ∷ " is a system label and cannot be deleted"
            ∷ [])))
    drop_label label_id

  -- `delete_label`
  unfoldable pub delete_label : String → Method (Mailbox U) (Unit {0})
  delete_label label_id = do label ← require_label label_id; delete_found label_id label

module _ {U : Type 0} where
  -- `set_read_state`
  unfoldable pub set_read_state : String → Bool → Method (Mailbox U) (Unit {0})
  set_read_state message_id is_read = do
    m ← message message_id
    replace (record m { is_read = is_read })

  -- `archive`
  unfoldable pub archive : String → Method (Mailbox U) (Unit {0})
  archive message_id = do m ← message message_id; replace (record m { is_archived = true })

  abbrev pub with_label : String → MailMessage U → MailMessage U
  with_label label_id m = record m { label_ids = m.label_ids ++ label_id ∷ [] }

  -- The end of `apply_label`: a message that carries the label is left alone.
  abbrev pub attach_to : String → MailMessage U → Method (Mailbox U) (Unit {0})
  attach_to label_id m = if carries label_id m then pure tt else replace (with_label label_id m)

  -- `apply_label`
  unfoldable pub apply_label : String → String → Method (Mailbox U) (Unit {0})
  apply_label message_id label_id = do
    require_label label_id
    m ← message message_id
    attach_to label_id m

  -- `remove_label`
  unfoldable pub remove_label : String → String → Method (Mailbox U) (Unit {0})
  remove_label message_id label_id = do
    require_label label_id
    m ← message message_id
    replace (without_label label_id m)

  -- `send`: `fresh` is `uuid4().hex[:8]`, `now` the clock's time.
  unfoldable pub send : String → ℕ → MailDraft U → Method (Mailbox U) MailSendResult
  send fresh now draft =
      let result : MailSendResult = record {
        message_id = concat ("sent-" ∷ fresh ∷ []);
        thread_id = draft.thread_id;
        sent_at = now;
      } in
      record_sent result >> pure result

-- The objects that `_mailboxes` holds. Each user has an object of their own, as the dataset loader
-- builds them, so that a write to one changes no other.
abbrev pub Mailboxes : Type 0 → Type 0
Mailboxes U = Dict String (Mailbox U)

abbrev pub on_found :
    {U A : Type 0}
    → String
    → Method (Mailbox U) A
    → Mailboxes U
    → Option (Mailbox U)
    → Result MailError A × Mailboxes U
on_found user_id action boxes none =
    (err (access_denied (concat ("mailbox of " ∷ user_id ∷ []))), boxes)
on_found user_id action boxes (some box) =
    let (r, box') = action box in (r, insert user_id box' boxes)

-- `_mailbox_of(user)`, and an action on that mailbox.
unfoldable pub with_mailbox :
    {U A : Type 0} → String → Method (Mailbox U) A → Method (Mailboxes U) A
with_mailbox user_id action boxes = on_found user_id action boxes (lookup user_id boxes)

-- The calls of the contract, with the choices of the environment: `fresh` names and the time.
pub data Call (U : Type 0) : Type 0 where
  search_for : MailSearchRequest → Call U
  get_message get_thread : String → Call U
  list_labels : Call U
  create_draft : String → MailDraft U → Call U
  send_draft : String → ℕ → MailDraft U → Call U
  mark : String → Bool → Call U
  archive_message : String → Call U
  attach detach : String → String → Call U
  add_named : String → Call U
  delete : String → Call U

pub data Reply (U : Type 0) : Type 0 where
  result : MailSearchResult U → Reply U
  one_message : MailMessage U → Reply U
  one_thread : MailThread U → Reply U
  all_labels : List (MailLabel U) → Reply U
  draft : MailDraft U → Reply U
  sent : MailSendResult → Reply U
  outcome : MailLabelOutcome U → Reply U
  done : Reply U

module _ {U : Type 0} where
  abbrev pub reply_with :
      {A : Type 0} → (A → Reply U) → Method (Mailbox U) A → Method (Mailbox U) (Reply U)
  reply_with f m = m >>= λ a. pure (f a)

module _ {U : Type 0} ⦃u : Untrusted U⦄ (un : Unicode) where
  unfoldable pub perform : Call U → Method (Mailbox U) (Reply U)
  perform (search_for r) = reply_with result (search_mail un r)
  perform (get_message i) = reply_with one_message (message i)
  perform (get_thread i) = reply_with one_thread (thread i)
  perform list_labels = gets (λ (box : Mailbox U). all_labels (values box.labels))
  perform (create_draft fresh d) = reply_with draft (store_draft fresh d)
  perform (send_draft fresh now d) = reply_with sent (send fresh now d)
  perform (mark i b) = reply_with (λ _. done) (set_read_state i b)
  perform (archive_message i) = reply_with (λ _. done) (archive i)
  perform (attach i l) = reply_with (λ _. done) (apply_label i l)
  perform (detach i l) = reply_with (λ _. done) (remove_label i l)
  perform (add_named name) = reply_with outcome (create_label un name)
  perform (delete l) = reply_with (λ _. done) (delete_label un l)

  unfoldable pub serve : String → Call U → Method (Mailboxes U) (Reply U)
  unfolding with_mailbox
  serve user_id call = with_mailbox user_id (perform call)

  -- A run of calls by several users, one after the other.
  pub run : List (String × Call U) → Mailboxes U → Mailboxes U
  run [] boxes = boxes
  run ((user_id, call) ∷ calls) boxes = run calls (serve user_id call boxes).1
