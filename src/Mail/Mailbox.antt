-- ===== src/Mail/Mailbox.antt =====
-- `Mailbox` of agents/mail/src/ai_agent_lab/mail/infrastructure/inmemory/mail_tools.py: the messages,
-- labels, drafts and deliveries of one user. A property or method is an action on the record.
pub mod Access
pub mod Minting
pub mod Valid
pub mod Detach
pub mod Conversation
use ai_agents.Prelude.{
  ℕ, zero, suc, String, code, Bool, true, false, not, Option, none, some, List, [], ◌∷◌, ◌++◌, ◌==◌,
  string_eq, nat_eq, if◌then◌else◌, select, length, contains, is_nonempty,
}
use ai_agents.Prelude.Exec.{
  Exec, ok, err, pure, raise, lift, gets, or_raise, modify, raise_if, ◌>>=◌, ◌>>◌,
}
use ai_agents.Prelude.Sort.{sort_by}
use ai_agents.Prelude.Search.{first_free}
use ai_agents.Dict.{Dict, values, lookup, has_key, insert, erase}
use ai_agents.Dict.Values.{insert_all, rewrite_where}
use ai_agents.Text.{Unicode, concat, is_truthy, map_chars, strip_by}
use ai_agents.Text.Decimal.{decimal}
use ai_agents.Runtime.{Untrusted}
use ai_agents.Mail.Error.{Checked, Method, not_found, key_error}
use ai_agents.Mail.Models.{MailMessage, MailLabel, MailDraft, MailSendResult}
use ai_agents.Mail.Models.Thread.{MailThread, make_thread}

pub record Mailbox (U : Type 0) : Type 0 where
  pub owner_id : String
  pub messages : Dict String (MailMessage U)
  pub labels : Dict String (MailLabel U)
  pub drafts : Dict String (MailDraft U)
  pub sent : List MailSendResult

-- The identifier that a stored draft has: its own, or a new one. `fresh` is `uuid4().hex[:8]`.
abbrev pub draft_key : String → Option String → String
draft_key fresh none = concat ("draft-" ∷ fresh ∷ [])
draft_key fresh (some i) = if i == "" then concat ("draft-" ∷ fresh ∷ []) else i

module _ {U : Type 0} where
  abbrev pub message_key : MailMessage U → String
  message_key m = m.message_id

  abbrev pub label_key : MailLabel U → String
  label_key l = l.label_id

  abbrev pub sent_key : MailMessage U → ℕ
  sent_key m = m.sent_at

  -- `Mailbox.__init__`
  unfoldable pub make_mailbox : String → List (MailMessage U) → List (MailLabel U) → Mailbox U
  unfolding insert
  make_mailbox owner_id messages labels = record {
    owner_id = owner_id;
    messages = insert_all message_key messages [];
    labels = insert_all label_key labels [];
    drafts = [];
    sent = [];
  }

  -- `Mailbox.message`
  unfoldable pub message : String → Method (Mailbox U) (MailMessage U)
  message message_id box =
      or_raise (lookup message_id box.messages) (not_found "message" message_id) box

  abbrev pub head_or : MailMessage U → List (MailMessage U) → MailMessage U
  head_or m [] = m
  head_or m (first ∷ rest) = first

  -- `ordered[0]` exists: `ordered` is as long as the messages that it sorts.
  abbrev pub thread_of : String → List (MailMessage U) → Checked (MailThread U)
  thread_of thread_id [] = err (not_found "thread" thread_id)
  thread_of thread_id (m ∷ ms) =
      let ordered = sort_by sent_key false (m ∷ ms) in
      make_thread thread_id (head_or m ordered).subject ordered

  abbrev pub in_thread : String → MailMessage U → Bool
  in_thread thread_id m = m.thread_id == thread_id

  -- `Mailbox.thread`
  unfoldable pub thread : String → Method (Mailbox U) (MailThread U)
  thread thread_id box =
      (thread_of thread_id (select (in_thread thread_id) (values box.messages)), box)

  -- `Mailbox.replace`
  unfoldable pub replace : MailMessage U → Method (Mailbox U) (Unit {0})
  replace m =
      modify (λ (box : Mailbox U). record box { messages = insert m.message_id m box.messages })

  -- `Mailbox.store_draft`
  unfoldable pub store_draft : String → MailDraft U → Method (Mailbox U) (MailDraft U)
  store_draft fresh draft box =
      let key = draft_key fresh draft.draft_id in
      let stored = record draft { draft_id = some key } in
      (ok stored, record box { drafts = insert key stored box.drafts })

  -- `Mailbox.record_sent`
  unfoldable pub record_sent : MailSendResult → Method (Mailbox U) (Unit {0})
  record_sent result = modify (λ (box : Mailbox U). record box { sent = box.sent ++ result ∷ [] })

  -- `Mailbox.require_label`
  unfoldable pub require_label : String → Method (Mailbox U) (MailLabel U)
  require_label label_id box =
      or_raise (lookup label_id box.labels) (not_found "label" label_id) box

  -- `Mailbox.add_label`
  unfoldable pub add_label : MailLabel U → Method (Mailbox U) (MailLabel U)
  add_label label box = (ok label, record box { labels = insert label.label_id label box.labels })

  abbrev pub carries : String → MailMessage U → Bool
  carries label_id m = contains label_id m.label_ids

  -- The message without a label: `model_copy(update={"label_ids": remaining})`.
  abbrev pub without_label : String → MailMessage U → MailMessage U
  without_label label_id m = record m { label_ids = select (λ i. not (i == label_id)) m.label_ids }

  -- `Mailbox.drop_label`: `del` raises `KeyError` if there is no such label.
  unfoldable pub drop_label : String → Method (Mailbox U) (Unit {0})
  drop_label label_id = do
    raise_if (not (← gets (λ (box : Mailbox U). has_key label_id box.labels))) (key_error label_id)
    modify (λ (box : Mailbox U). record box { labels = erase label_id box.labels })
    modify (λ (box : Mailbox U). record box {
      messages =
          rewrite_where message_key (carries label_id) (without_label label_id)
            (values box.messages) box.messages;
    })

module _ {U : Type 0} ⦃u : Untrusted U⦄ (un : Unicode) where
  abbrev pub is_named : String → MailLabel U → Bool
  is_named folded label = un.casefold (u.expose label.name) == folded

  abbrev pub first_named : String → List (MailLabel U) → Option (MailLabel U)
  first_named folded [] = none
  first_named folded (l ∷ ls) = if is_named folded l then some l else first_named folded ls

  -- `Mailbox.label_named`
  unfoldable pub label_named : String → Mailbox U → Option (MailLabel U)
  label_named name box = first_named (un.casefold name) (values box.labels)

-- The first identifier that `mint_label_id` tries.
unfoldable pub candidate : Unicode → String → String
unfolding map_chars strip_by
candidate un name =
    let slug =
      un.upper
        (strip_by (λ c. code c == b'_') (map_chars (λ c. if un.is_alnum c then c else "_") name)) in
    if slug == "" then "LBL_UNNAMED" else concat ("LBL_" ∷ slug ∷ [])

-- f"{candidate}_{suffix}"
unfoldable pub suffixed : String → ℕ → String
unfolding decimal
suffixed name suffix = concat (name ∷ "_" ∷ decimal suffix ∷ [])

-- `Mailbox.mint_label_id`. The loop makes at most as many rounds as there are labels, and one more.
unfoldable pub mint_label_id : {U : Type 0} → Unicode → String → Mailbox U → String
unfolding candidate suffixed first_free
mint_label_id un name box =
    let c = candidate un name in
    let free = first_free (suc (length box.labels)) (λ s. has_key (suffixed c s) box.labels) 2 in
    if has_key c box.labels then suffixed c free else c
