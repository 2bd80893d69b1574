-- ===== src/Reference.antt =====
-- `InMemoryMailbox` of mcp-servers/reference/src/mail_mcp/reference/mailbox.py: a mailbox that the
-- reference server keeps. A method is an action on the record. Its messages are dated with a time zone
-- all of them, or none: Python does not compare the two kinds.
pub mod Query
pub mod Tools
pub mod Refinement
use ai_agents.Prelude.{
  ℕ, suc, ◌+◌, ltb, String, code, Bool, true, false, not, Option, none, some, List, [], ◌∷◌, ◌++◌,
  map, ◌==◌, string_eq, nat_eq, if◌then◌else◌, select, take, length, contains, is_nonempty,
}
use ai_agents.Prelude.Exec.{Exec, Result, ok, err, pure, lift, gets, or_raise, modify, ◌>>=◌, ◌>>◌}
use ai_agents.Prelude.Sort.{sort_by}
use ai_agents.Prelude.Search.{first_free}
use ai_agents.Dict.{Dict, values, lookup, insert}
use ai_agents.Dict.Values.{insert_all, rewrite_where}
use ai_agents.Text.{Unicode, concat, map_chars, strip_by}
use ai_agents.Text.Decimal.{decimal}
use ai_agents.Protocol.MailCodes.{MailServerError, not_found_error}
use ai_agents.Wire.{
  SortOrder, newest_first, oldest_first, Label, Header, Message, Thread, SearchResult, Draft,
  SendResult, Labels, CreatedLabel, require_deletable,
}
use ai_agents.Reference.Query.{Search, satisfies}

pub record InMemoryMailbox : Type 0 where
  pub messages : Dict String Message
  pub labels : List Label
  pub drafts : Dict String Draft
  pub sent : List SendResult

abbrev pub Action : Type 0 → Type 0
Action A = Exec MailServerError InMemoryMailbox A

abbrev pub message_key : Message → String
message_key m = m.message_id

abbrev pub label_key : Label → String
label_key l = l.label_id

abbrev pub sent_key : Message → ℕ
sent_key m = m.sent_at

-- `__init__`
unfoldable pub open_mailbox : List Message → List Label → InMemoryMailbox
unfolding insert
open_mailbox messages labels = record {
  messages = insert_all message_key messages [];
  labels = labels;
  drafts = [];
  sent = [];
}

-- `_header_of`
unfoldable pub header_of : Message → Header
header_of m = record {
  message_id = m.message_id;
  thread_id = m.thread_id;
  subject = m.subject;
  sender = m.sender;
  recipient_count = length m.to + length m.cc;
  sent_at = m.sent_at;
  has_timezone = m.has_timezone;
  is_read = m.is_read;
  is_archived = m.is_archived;
  has_attachments = is_nonempty m.attachments;
  importance = m.importance;
  label_ids = m.label_ids;
}

abbrev pub is_newest_first : SortOrder → Bool
is_newest_first newest_first = true
is_newest_first oldest_first = false

abbrev pub ordered_matches : Unicode → Search → InMemoryMailbox → List Message
ordered_matches un s box =
    sort_by sent_key (is_newest_first s.sort_order)
      (select (satisfies un s.query) (values box.messages))

-- `search`
unfoldable pub search : Unicode → Search → Action SearchResult
unfolding satisfies sort_by header_of
search un s box =
    let matching = ordered_matches un s box in
    let page = map header_of (take s.limit matching) in
    (
      ok (record {
        headers = page;
        total_count = length matching;
        truncated = ltb (length page) (length matching);
      }),
      box,
    )

-- `_require`, which is also `get_message`
unfoldable pub require : String → Action Message
require message_id box =
    or_raise (lookup message_id box.messages) (not_found_error "message" message_id) box

-- The end of `get_thread`: `messages[0]` exists.
abbrev pub titled_by_first : String → List Message → Result MailServerError Thread
titled_by_first thread_id [] = err (not_found_error "thread" thread_id)
titled_by_first thread_id (m ∷ ms) =
    ok (record { thread_id = thread_id; subject = m.subject; messages = m ∷ ms })

-- `get_thread`
unfoldable pub get_thread : String → Action Thread
unfolding sort_by
get_thread thread_id box = (
  titled_by_first thread_id (
      sort_by sent_key false
        (select (λ (m : Message). m.thread_id == thread_id) (values box.messages))),
  box,
)

-- `list_labels`
unfoldable pub list_labels : Action Labels
list_labels = gets (λ (box : InMemoryMailbox). box.labels)

-- `_label_id`
unfoldable pub label_id_of : Unicode → String → String
unfolding map_chars strip_by
label_id_of un name =
    let slug =
      un.upper
        (strip_by (λ c. code c == b'_') (map_chars (λ c. if un.is_alnum c then c else "_") name)) in
    if slug == "" then "LBL_UNNAMED" else concat ("LBL_" ∷ slug ∷ [])

-- f"{candidate}_{suffix}"
unfoldable pub numbered : String → ℕ → String
unfolding decimal
numbered name suffix = concat (name ∷ "_" ∷ decimal suffix ∷ [])

-- `_mint`. The loop makes at most as many rounds as there are labels, and one more.
unfoldable pub mint : Unicode → String → InMemoryMailbox → String
unfolding label_id_of numbered first_free
mint un name box =
    let taken = map label_key box.labels in
    let c = label_id_of un name in
    let free = first_free (suc (length box.labels)) (λ s. contains (numbered c s) taken) 2 in
    if contains c taken then numbered c free else c

abbrev pub first_called : Unicode → String → List Label → Option Label
first_called un folded [] = none
first_called un folded (l ∷ ls) =
    if un.casefold l.name == folded then some l else first_called un folded ls

-- `_label_named`
unfoldable pub label_called : Unicode → String → InMemoryMailbox → Option Label
label_called un name box = first_called un (un.casefold name) box.labels

abbrev pub give_or_make : Unicode → String → Option Label → Action CreatedLabel
give_or_make un name (some l) box = (ok (record { label = l; created = false }), box)
give_or_make un name none box =
    let l : Label = record { label_id = mint un name box; name = name; is_system = false } in
    (ok (record { label = l; created = true }), record box { labels = box.labels ++ l ∷ [] })

-- `create_label`
unfoldable pub create_label : Unicode → String → Action CreatedLabel
unfolding label_called mint
create_label un name box = give_or_make un name (label_called un name box) box

abbrev pub first_with_id : String → List Label → Option Label
first_with_id label_id [] = none
first_with_id label_id (l ∷ ls) =
    if l.label_id == label_id then some l else first_with_id label_id ls

-- `_require_label`
unfoldable pub require_label : String → Action Label
require_label label_id box =
    or_raise (first_with_id label_id box.labels) (not_found_error "label" label_id) box

-- `_without`
unfoldable pub without : List String → String → List String
without label_ids removed = select (λ i. not (i == removed)) label_ids

abbrev pub carries : String → Message → Bool
carries label_id m = contains label_id m.label_ids

unfoldable pub unlabelled : String → Message → Message
unfolding without
unlabelled label_id m = record m { label_ids = without m.label_ids label_id }

-- The end of `delete_label`: the label goes, then it is detached from every message carrying it.
abbrev pub detach_everywhere : String → Action (Unit {0})
detach_everywhere label_id = do
  modify (λ (box : InMemoryMailbox). record box {
    labels = select (λ (l : Label). not (l.label_id == label_id)) box.labels;
  })
  modify (λ (box : InMemoryMailbox). record box {
    messages =
        rewrite_where message_key (carries label_id) (unlabelled label_id) (values box.messages)
          box.messages;
  })

abbrev pub delete_required : Unicode → String → Label → Action (Unit {0})
delete_required un label_id l = lift (require_deletable un l) >> detach_everywhere label_id

-- `delete_label`
unfoldable pub delete_label : Unicode → String → Action (Unit {0})
unfolding require_label require_deletable unlabelled
delete_label un label_id = do l ← require_label label_id; delete_required un label_id l

-- `draft.draft_id or f"draft-..."`, where `fresh` is `uuid4().hex[:8]`.
abbrev pub draft_name : String → Option String → String
draft_name fresh none = concat ("draft-" ∷ fresh ∷ [])
draft_name fresh (some i) = if i == "" then concat ("draft-" ∷ fresh ∷ []) else i

-- `create_draft`
unfoldable pub create_draft : String → Draft → Action Draft
create_draft fresh d box =
    let key = draft_name fresh d.draft_id in
    let stored = record d { draft_id = some key } in
    (ok stored, record box { drafts = insert key stored box.drafts })

-- `send`, at the clock's time `now`
unfoldable pub send : String → ℕ → Draft → Action SendResult
send fresh now d box =
    let result : SendResult = record {
      message_id = concat ("sent-" ∷ fresh ∷ []);
      thread_id = d.thread_id;
      sent_at = now;
      has_timezone = true;
    } in
    (ok result, record box { sent = box.sent ++ result ∷ [] })

-- `_replace`
unfoldable pub replace : Message → Action (Unit {0})
replace m =
    modify (λ (box : InMemoryMailbox). record box { messages = insert m.message_id m box.messages })

-- `set_read_state`
unfoldable pub set_read_state : String → Bool → Action (Unit {0})
unfolding require replace
set_read_state message_id is_read = do
  m ← require message_id
  replace (record m { is_read = is_read })

-- `archive`
unfoldable pub archive : String → Action (Unit {0})
unfolding require replace
archive message_id = do m ← require message_id; replace (record m { is_archived = true })

abbrev pub add_to : String → Message → Action (Unit {0})
add_to label_id m =
    if carries label_id m
    then pure tt
    else replace (record m { label_ids = m.label_ids ++ label_id ∷ [] })

-- `apply_label`
unfoldable pub apply_label : String → String → Action (Unit {0})
unfolding require_label require replace
apply_label message_id label_id = do
  require_label label_id
  m ← require message_id
  add_to label_id m

-- `remove_label`
unfoldable pub remove_label : String → String → Action (Unit {0})
unfolding require_label require replace unlabelled
remove_label message_id label_id = do
  require_label label_id
  m ← require message_id
  replace (unlabelled label_id m)
