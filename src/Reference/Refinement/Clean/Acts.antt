-- ===== src/Reference/Refinement/Clean/Acts.antt =====
-- Every tool of the server leaves a clean mailbox clean and gives a clean answer.
use ai_agents.Prelude.{
  ℕ, ◌≤◌, ◌≡◌, refl, String, Bool, true, false, Option, none, some, List, [], ◌∷◌, ◌++◌, map,
  string_eq, ◌==◌, All, select, take, length, length-map, length-take, arith, Bool-cases, inl, inr,
  contains,
}
use ai_agents.Prelude.Naturality.{All-take, All-select_from, All-map}
use ai_agents.Prelude.Exec.{Result, ok, err, or_raise, lift, ◌>>=◌}
use ai_agents.Prelude.Sort.{sort_by, All-sort_by}
use ai_agents.Dict.{Dict, values, lookup}
use ai_agents.Dict.Values.{EachEntry, EachEntry-insert, EachEntry-lookup, rewrite_where}
use ai_agents.Mail.Mailbox.Conversation.{All-select}
use ai_agents.Text.{Unicode}
use ai_agents.Protocol.MailCodes.{MailServerError}
use ai_agents.Wire.{Message, Label, SearchResult, Draft, SendResult, require_deletable}
use ai_agents.Wire.Fencing.{IsCleanMessage, IsCleanHeader, IsCleanDraft}
use ai_agents.Reference as R
use ai_agents.Reference.{InMemoryMailbox, Action}
use ai_agents.Reference.Query.{Search, satisfies}
use ai_agents.Reference.Tools.{
  ToolCall, search_mail, get_mail, get_conversation, labels_of_mailbox, save_draft, send_mail,
  mark_read, archive_mail, attach_label, detach_label, make_label, drop_label, hits, mail,
  conversation, saved, delivered, made, answer,
}
use ai_agents.Reference.Refinement.Clean.{
  IsCleanMailbox, IsCleanCall, IsWhole, IsCleanAnswer, Holds, Gives, Any, Gives->>=, Gives-answer,
}

All-values :
    {A : Type 0} (P : A → Type 0) (d : Dict String A) → EachEntry (λ _ a. P a) d → All P (values d)
All-values P [] h = tt
All-values P ((k, a) ∷ d) h = (h.0, All-values P d h.1)

All-last :
    {A : Type 0} (P : A → Type 0) (xs : List A) (a : A) → All P xs → P a → All P (xs ++ a ∷ [])
All-last P [] a h p = (p, tt)
All-last P (x ∷ xs) a h p = (h.0, All-last P xs a h.1 p)

module _ (un : Unicode) where
  found_or_err :
      (i : String) (o : Option Message) (e : MailServerError) (box : InMemoryMailbox)
      → lookup i box.messages ≡ o
      → IsCleanMailbox un box
      → IsCleanMailbox un (or_raise o e box).1 × Holds un (IsCleanMessage un) (or_raise o e box).0
  found_or_err i none e box found v = (v, tt)
  found_or_err i (some m) e box found v =
      (v, EachEntry-lookup (λ _ x. IsCleanMessage un x) i m box.messages v.messages found)

  require-Gives : (i : String) → Gives un (IsCleanMessage un) (R.require i)
  unfolding R.require
  require-Gives i box v = found_or_err i (lookup i box.messages) _ box refl v

  or_raise-Gives :
      {A : Type 0} (o : Option A) (e : MailServerError) → Gives un (Any un) (or_raise o e)
  or_raise-Gives none e box v = (v, tt)
  or_raise-Gives (some a) e box v = (v, tt)

  require_label-Gives : (l : String) → Gives un (Any un) (R.require_label l)
  unfolding R.require_label
  require_label-Gives l box v = or_raise-Gives _ _ box v

  replace-Gives : (m : Message) → IsCleanMessage un m → Gives un (Any un) (R.replace m)
  unfolding R.replace
  replace-Gives m h box v = (
    record {
      messages =
          EachEntry-insert (λ _ x. IsCleanMessage un x) m.message_id m box.messages h v.messages;
      drafts = v.drafts;
      sent = v.sent;
    },
    tt,
  )

  -- A message is read, edited without a change to its addresses and its date, and written back.
  edit-Gives :
      (i : String) (f : Message → Message)
      → ((m : Message) → IsCleanMessage un m → IsCleanMessage un (f m))
      → Gives un (Any un) (R.require i >>= λ m. R.replace (f m))
  edit-Gives i f keeps =
      Gives->>= un (IsCleanMessage un) (Any un) (R.require i) (λ m. R.replace (f m))
        (require-Gives i) (λ m h. replace-Gives (f m) (keeps m h))

  set_read_state-Gives : (i : String) (b : Bool) → Gives un (Any un) (R.set_read_state i b)
  unfolding R.set_read_state
  set_read_state-Gives i b = edit-Gives i (λ m. record m { is_read = b }) (λ m h. h)

  archive-Gives : (i : String) → Gives un (Any un) (R.archive i)
  unfolding R.archive
  archive-Gives i = edit-Gives i (λ m. record m { is_archived = true }) (λ m h. h)

  add_to-Gives : (l : String) (m : Message) → IsCleanMessage un m → Gives un (Any un) (R.add_to l m)
  add_to-Gives l m h box v = elim (Bool-cases (contains l m.label_ids)) [
    | inl there ↦ rw there (v, tt)
    | inr new ↦ rw new (replace-Gives (record m { label_ids = m.label_ids ++ l ∷ [] }) h box v)
  ]

  apply_label-Gives : (i l : String) → Gives un (Any un) (R.apply_label i l)
  unfolding R.apply_label
  apply_label-Gives i l =
      Gives->>= un (Any un) (Any un) (R.require_label l) (λ _. R.require i >>= λ m. R.add_to l m)
        (require_label-Gives l)
        (λ _ _.
          Gives->>= un (IsCleanMessage un) (Any un) (R.require i) (λ m. R.add_to l m)
            (require-Gives i) (add_to-Gives l))

  unlabelled_keeps :
      (l : String) (m : Message) → IsCleanMessage un m → IsCleanMessage un (R.unlabelled l m)
  unfolding R.unlabelled
  unlabelled_keeps l m h = h

  remove_label-Gives : (i l : String) → Gives un (Any un) (R.remove_label i l)
  unfolding R.remove_label
  remove_label-Gives i l =
      Gives->>= un (Any un) (Any un) (R.require_label l)
        (λ _. R.require i >>= λ m. R.replace (R.unlabelled l m)) (require_label-Gives l)
        (λ _ _. edit-Gives i (R.unlabelled l) (unlabelled_keeps l))

  detached :
      (l : String) (ms : List Message) (d : Dict String Message)
      → All (IsCleanMessage un) ms
      → EachEntry (λ _ m. IsCleanMessage un m) d
      → EachEntry
          (λ _ m. IsCleanMessage un m)
          (rewrite_where R.message_key (R.carries l) (R.unlabelled l) ms d)
  detached l [] d h k = k
  detached l (m ∷ ms) d h k = elim (Bool-cases (R.carries l m)) [
    | inl hit ↦ rw hit (
        detached l ms _ h.1
          (EachEntry-insert (λ _ x. IsCleanMessage un x) _ _ d (unlabelled_keeps l m h.0) k))
    | inr miss ↦ rw miss (detached l ms d h.1 k)
  ]

  detach_everywhere-Gives : (l : String) → Gives un (Any un) (R.detach_everywhere l)
  detach_everywhere-Gives l box v = (
    record {
      messages =
          detached l (values box.messages) box.messages (All-values _ box.messages v.messages)
            v.messages;
      drafts = v.drafts;
      sent = v.sent;
    },
    tt,
  )

  lift-Gives : {A : Type 0} (r : Result MailServerError A) → Gives un (Any un) (lift r)
  lift-Gives (ok a) box v = (v, tt)
  lift-Gives (err e) box v = (v, tt)

  delete_label-Gives : (l : String) → Gives un (Any un) (R.delete_label un l)
  unfolding R.delete_label
  delete_label-Gives l =
      Gives->>= un (Any un) (Any un) (R.require_label l) (R.delete_required un l)
        (require_label-Gives l)
        (λ x _.
          Gives->>= un (Any un) (Any un) (lift (require_deletable un x))
            (λ _. R.detach_everywhere l) (lift-Gives (require_deletable un x))
            (λ _ _. detach_everywhere-Gives l))

  give_or_make-Gives :
      (name : String) (o : Option Label) → Gives un (Any un) (R.give_or_make un name o)
  give_or_make-Gives name (some l) box v = (v, tt)
  give_or_make-Gives name none box v =
      (record { messages = v.messages; drafts = v.drafts; sent = v.sent }, tt)

  create_label-Gives : (name : String) → Gives un (Any un) (R.create_label un name)
  unfolding R.create_label
  create_label-Gives name box v = give_or_make-Gives name (R.label_called un name box) box v

  create_draft-Gives :
      (fresh : String) (d : Draft)
      → IsCleanDraft un d
      → Gives un (IsCleanDraft un) (R.create_draft fresh d)
  unfolding R.create_draft
  create_draft-Gives fresh d h box v = (
    record {
      messages = v.messages;
      drafts = EachEntry-insert (λ _ x. IsCleanDraft un x) _ _ box.drafts h v.drafts;
      sent = v.sent;
    },
    h,
  )

  send-Gives :
      (fresh : String) (now : ℕ) (d : Draft)
      → Gives un (λ (r : SendResult). r.has_timezone ≡ true) (R.send fresh now d)
  unfolding R.send
  send-Gives fresh now d box v = (
    record {
      messages = v.messages;
      drafts = v.drafts;
      sent = All-last (λ (r : SendResult). r.has_timezone ≡ true) box.sent _ v.sent refl;
    },
    refl,
  )

  header-clean : (m : Message) → IsCleanMessage un m → IsCleanHeader un (R.header_of m)
  unfolding R.header_of
  header-clean m h = (h.0, h.3)

  page_fits : (n : ℕ) (ms : List Message) → length (map R.header_of (take n ms)) ≤ length ms
  page_fits n ms = omega (arith, length-map (take n ms) R.header_of, length-take n ms)

  search-Gives :
      (s : Search)
      → Gives un
          (λ (r : SearchResult).
            All (IsCleanHeader un) r.headers × (length r.headers ≤ r.total_count))
          (R.search un s)
  unfolding R.search
  search-Gives s box v = (
    v,
    (
      All-map R.header_of (IsCleanMessage un) (IsCleanHeader un) _ header-clean (
          All-take _ s.limit (R.ordered_matches un s box) (
            All-sort_by R.sent_key _ (R.is_newest_first s.sort_order) _ (
              All-select_from _ (satisfies un s.query) (values box.messages)
                (All-values _ box.messages v.messages)))),
      page_fits s.limit (R.ordered_matches un s box),
    ),
  )

  titled-Whole :
      (i : String) (ms : List Message)
      → All (IsCleanMessage un) ms
      → All (λ (m : Message). (m.thread_id == i) ≡ true) ms
      → Holds un (IsWhole un) (R.titled_by_first i ms)
  titled-Whole i [] h k = tt
  titled-Whole i (m ∷ ms) h k = (h, refl, k)

  get_thread-Gives : (i : String) → Gives un (IsWhole un) (R.get_thread i)
  unfolding R.get_thread
  get_thread-Gives i box v =
      let sel : List Message = select (λ (m : Message). m.thread_id == i) (values box.messages) in
      (
        v,
        titled-Whole i (sort_by R.sent_key false sel)
            (All-sort_by R.sent_key _ false sel
              (All-select_from _ _ (values box.messages) (All-values _ box.messages v.messages)))
            (All-sort_by R.sent_key _ false sel
              (All-select (λ (m : Message). m.thread_id == i) (values box.messages))),
      )

  -- A tool that is called with clean addresses leaves a clean mailbox clean, and what it answers is
  -- clean.
  pub answer-Gives : (c : ToolCall) → IsCleanCall un c → Gives un (IsCleanAnswer un) (answer un c)
  unfolding answer R.list_labels
  answer-Gives (search_mail s) h =
      Gives-answer un _ hits (R.search un s) (λ a p. p) (search-Gives s)
  answer-Gives (get_mail i) h = Gives-answer un _ mail (R.require i) (λ a p. p) (require-Gives i)
  answer-Gives (get_conversation i) h =
      Gives-answer un _ conversation (R.get_thread i) (λ a p. p) (get_thread-Gives i)
  answer-Gives labels_of_mailbox h = λ box v. (v, tt)
  answer-Gives (save_draft fresh d) h =
      Gives-answer un _ saved (R.create_draft fresh d) (λ a p. p) (create_draft-Gives fresh d h)
  answer-Gives (send_mail fresh now d) h =
      Gives-answer un _ delivered (R.send fresh now d) (λ a p. p) (send-Gives fresh now d)
  answer-Gives (mark_read i b) h =
      Gives-answer un (Any un) _ (R.set_read_state i b) (λ a p. tt) (set_read_state-Gives i b)
  answer-Gives (archive_mail i) h =
      Gives-answer un (Any un) _ (R.archive i) (λ a p. tt) (archive-Gives i)
  answer-Gives (attach_label i l) h =
      Gives-answer un (Any un) _ (R.apply_label i l) (λ a p. tt) (apply_label-Gives i l)
  answer-Gives (detach_label i l) h =
      Gives-answer un (Any un) _ (R.remove_label i l) (λ a p. tt) (remove_label-Gives i l)
  answer-Gives (make_label name) h =
      Gives-answer un (Any un) made (R.create_label un name) (λ a p. tt) (create_label-Gives name)
  answer-Gives (drop_label l) h =
      Gives-answer un (Any un) _ (R.delete_label un l) (λ a p. tt) (delete_label-Gives l)
