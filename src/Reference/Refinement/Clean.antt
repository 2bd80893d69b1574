-- ===== src/Reference/Refinement/Clean.antt =====
-- Payloads that the agent's mapper accepts as they are: what the mailbox of the server holds and what
-- its tools answer stay such, when it starts with such messages and the calls carry such drafts.
pub mod Acts
use ai_agents.Prelude.{
  ℕ, ◌≤◌, ◌≡◌, refl, String, Bool, true, false, Option, none, some, List, [], ◌∷◌, ◌++◌, map,
  string_eq, ◌==◌, All, is_nonempty, select, take, length, length-map, length-take, arith,
  Bool-cases, inl, inr, contains,
}
use ai_agents.Prelude.Naturality.{All-take, All-select_from, All-map}
use ai_agents.Prelude.Exec.{Result, ok, err, or_raise, continue, lift, pure, ◌>>=◌}
use ai_agents.Prelude.Sort.{sort_by, All-sort_by}
use ai_agents.Dict.{Dict, values, lookup}
use ai_agents.Dict.Values.{EachEntry, EachEntry-insert, EachEntry-lookup, rewrite_where}
use ai_agents.Mail.Mailbox.Conversation.{All-select}
use ai_agents.Text.{Unicode}
use ai_agents.Protocol.MailCodes.{MailServerError}
use ai_agents.Wire.{Message, Label, Thread, SearchResult, Draft, SendResult, require_deletable}
use ai_agents.Wire.Fencing.{IsClean, IsCleanMessage, IsCleanHeader, IsCleanDraft}
use ai_agents.Reference as R
use ai_agents.Reference.{InMemoryMailbox, Action}
use ai_agents.Reference.Query.{Search, satisfies}
use ai_agents.Reference.Tools.{
  ToolCall, search_mail, get_mail, get_conversation, labels_of_mailbox, save_draft, send_mail,
  mark_read, archive_mail, attach_label, detach_label, make_label, drop_label, Answer, hits, mail,
  conversation, label_list, saved, delivered, made, acknowledged, answer, answer_with,
}

module _ (un : Unicode) where
  pub record IsCleanMailbox (box : InMemoryMailbox) : Type 0 where
    pub messages : EachEntry (λ _ m. IsCleanMessage un m) box.messages
    pub drafts : EachEntry (λ _ d. IsCleanDraft un d) box.drafts
    pub sent : All (λ (r : SendResult). r.has_timezone ≡ true) box.sent

  abbrev IsCleanText : Option String → Type 0
  IsCleanText none = Unit
  IsCleanText (some a) = IsClean un a

  -- The addresses that a call carries are valid and in normal form, as those of the agent's models
  -- are, and a draft has a recipient.
  abbrev pub IsCleanCall : ToolCall → Type 0
  IsCleanCall (search_mail s) = IsCleanText s.query.sender × IsCleanText s.query.recipient
  IsCleanCall (save_draft fresh d) = IsCleanDraft un d
  IsCleanCall (send_mail fresh now d) = IsCleanDraft un d
  IsCleanCall _ = Unit

  -- A conversation with at least one message, all of them its own.
  abbrev pub IsWhole : Thread → Type 0
  IsWhole t =
      All (IsCleanMessage un) t.messages
      × (is_nonempty t.messages ≡ true)
      × All (λ (m : Message). (m.thread_id == t.thread_id) ≡ true) t.messages

  abbrev pub IsCleanAnswer : Answer → Type 0
  IsCleanAnswer (hits r) = All (IsCleanHeader un) r.headers × (length r.headers ≤ r.total_count)
  IsCleanAnswer (mail m) = IsCleanMessage un m
  IsCleanAnswer (conversation t) = IsWhole t
  IsCleanAnswer (label_list ls) = Unit
  IsCleanAnswer (saved d) = IsCleanDraft un d
  IsCleanAnswer (delivered r) = r.has_timezone ≡ true
  IsCleanAnswer (made o) = Unit
  IsCleanAnswer acknowledged = Unit

  abbrev pub Holds : {A : Type 0} → (A → Type 0) → Result MailServerError A → Type 0
  Holds P (ok a) = P a
  Holds P (err e) = Unit

  -- An action that leaves a clean mailbox clean and gives what satisfies `P`.
  abbrev pub Gives : {A : Type 0} → (A → Type 0) → Action A → Type 0
  Gives P m =
      (box : InMemoryMailbox) → IsCleanMailbox box → IsCleanMailbox (m box).1 × Holds P (m box).0

  abbrev pub Any : {A : Type 0} → A → Type 0
  Any a = Unit

  module _ {A B : Type 0} (P : A → Type 0) (Q : B → Type 0) (m : Action A) (k : A → Action B) where
    Gives-continue :
        ((a : A) → P a → Gives Q (k a))
        → (box : InMemoryMailbox) (r : Result MailServerError A × InMemoryMailbox)
        → IsCleanMailbox r.1
        → Holds P r.0
        → IsCleanMailbox (continue m k box r).1 × Holds Q (continue m k box r).0
    Gives-continue h box (ok a, s) v p = h a p s v
    Gives-continue h box (err e, s) v p = (v, tt)

    pub Gives->>= : Gives P m → ((a : A) → P a → Gives Q (k a)) → Gives Q (m >>= k)
    Gives->>= first rest box v = Gives-continue rest box (m box) (first box v).0 (first box v).1

  pub Gives-answer :
      {A : Type 0} (P : A → Type 0) (f : A → Answer) (m : Action A)
      → ((a : A) → P a → IsCleanAnswer (f a))
      → Gives P m
      → Gives IsCleanAnswer (answer_with f m)
  Gives-answer P f m h g = Gives->>= P IsCleanAnswer m (λ a. pure (f a)) g (λ a p box v. (v, h a p))
