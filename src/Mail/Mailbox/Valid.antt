-- ===== src/Mail/Mailbox/Valid.antt =====
-- The invariant of a mailbox, and that every method keeps it.
use ai_agents.Prelude.{
  ◌≡◌, ◌∙◌, String, Bool, true, not, List, [], ◌∷◌, arith, ◌==◌, string_eq, contains,
  contains-select, IsNodup, IsSubset, Bool-cases, inl, inr, select,
}
use ai_agents.Dict.{keys, insert, IsNodup-insert, contains-keys-insert}
use ai_agents.Dict.Values.{EachEntry, EachEntry-insert, EachEntry-map, IsKeyed, IsKeyed-insert}
use ai_agents.Mail.Models.{MailMessage, MailLabel, MailDraft}
use ai_agents.Mail.Mailbox.{
  Mailbox, message_key, label_key, replace, add_label, without_label, store_draft, draft_key,
}

-- The labels of a message are labels of the mailbox, none of them twice.
pub record IsFiled {U : Type 0} (ids : List String) (m : MailMessage U) : Type 0 where
  pub known : IsSubset m.label_ids ids
  pub once : IsNodup m.label_ids

pub record IsValid {U : Type 0} (box : Mailbox U) : Type 0 where
  pub messages_nodup : IsNodup (keys box.messages)
  pub messages_keyed : IsKeyed message_key box.messages
  pub labels_nodup : IsNodup (keys box.labels)
  pub labels_keyed : IsKeyed label_key box.labels
  pub drafts_nodup : IsNodup (keys box.drafts)
  pub filed : EachEntry (λ i m. IsFiled (keys box.labels) m) box.messages

-- A selection of the labels of a message, some of which are gone from the mailbox.
IsSubset-select :
    (p : String → Bool) (xs ys zs : List String)
    → ((a : String) → contains a ys ≡ true → p a ≡ true → contains a zs ≡ true)
    → IsSubset xs ys
    → IsSubset (select p xs) zs
IsSubset-select p [] ys zs h s = tt
IsSubset-select p (x ∷ xs) ys zs h s = elim (Bool-cases (p x)) [
  | inl kept ↦ rw kept (h x s.0 kept, IsSubset-select p xs ys zs h s.1)
  | inr out ↦ rw out (IsSubset-select p xs ys zs h s.1)
]

IsNodup-select : (p : String → Bool) (xs : List String) → IsNodup xs → IsNodup (select p xs)
IsNodup-select p [] h = tt
IsNodup-select p (x ∷ xs) h = elim (Bool-cases (p x)) [
  | inl kept ↦ rw kept (contains-select p x xs ∙ ground (arith, h.0), IsNodup-select p xs h.1)
  | inr out ↦ rw out (IsNodup-select p xs h.1)
]

-- More labels do no harm.
IsSubset-weaken :
    (xs ys zs : List String)
    → ((a : String) → contains a ys ≡ true → contains a zs ≡ true)
    → IsSubset xs ys
    → IsSubset xs zs
IsSubset-weaken [] ys zs h s = tt
IsSubset-weaken (x ∷ xs) ys zs h s = (h x s.0, IsSubset-weaken xs ys zs h s.1)

module _ {U : Type 0} where
  -- What detaching leaves is filed under the labels that stay.
  pub without_label-IsFiled :
      (l : String) (ids left : List String) (m : MailMessage U)
      → ((a : String) → contains a ids ≡ true → not (a == l) ≡ true → contains a left ≡ true)
      → IsFiled ids m
      → IsFiled left (without_label l m)
  without_label-IsFiled l ids left m h f = record {
    known = IsSubset-select (λ a. not (a == l)) m.label_ids ids left h f.known;
    once = IsNodup-select (λ a. not (a == l)) m.label_ids f.once;
  }

  pub IsFiled-weaken :
      (ids more : List String) (m : MailMessage U)
      → ((a : String) → contains a ids ≡ true → contains a more ≡ true)
      → IsFiled ids m
      → IsFiled more m
  IsFiled-weaken ids more m h f = record {
    known = IsSubset-weaken m.label_ids ids more h f.known;
    once = f.once;
  }

  -- Writing a filed message.
  pub replace-IsValid :
      (m : MailMessage U) (box : Mailbox U)
      → IsValid box
      → IsFiled (keys box.labels) m
      → IsValid (replace m box).1
  unfolding replace
  replace-IsValid m box v f = record {
    messages_nodup = IsNodup-insert m.message_id m box.messages v.messages_nodup;
    messages_keyed = IsKeyed-insert message_key m box.messages v.messages_keyed;
    labels_nodup = v.labels_nodup;
    labels_keyed = v.labels_keyed;
    drafts_nodup = v.drafts_nodup;
    filed =
        EachEntry-insert (λ i x. IsFiled (keys box.labels) x) m.message_id m box.messages f v.filed;
  }

  pub add_label-IsValid :
      (l : MailLabel U) (box : Mailbox U) → IsValid box → IsValid (add_label l box).1
  unfolding add_label
  add_label-IsValid l box v = record {
    messages_nodup = v.messages_nodup;
    messages_keyed = v.messages_keyed;
    labels_nodup = IsNodup-insert l.label_id l box.labels v.labels_nodup;
    labels_keyed = IsKeyed-insert label_key l box.labels v.labels_keyed;
    drafts_nodup = v.drafts_nodup;
    filed =
        EachEntry-map _ _ box.messages
          (λ i m.
            IsFiled-weaken (keys box.labels) (keys (insert l.label_id l box.labels)) m
              (λ a i. contains-keys-insert l.label_id a l box.labels ∙ ground arith))
          v.filed;
  }

  pub store_draft-IsValid :
      (fresh : String) (d : MailDraft U) (box : Mailbox U)
      → IsValid box
      → IsValid (store_draft fresh d box).1
  unfolding store_draft
  store_draft-IsValid fresh d box v = record {
    messages_nodup = v.messages_nodup;
    messages_keyed = v.messages_keyed;
    labels_nodup = v.labels_nodup;
    labels_keyed = v.labels_keyed;
    drafts_nodup = IsNodup-insert (draft_key fresh d.draft_id) _ box.drafts v.drafts_nodup;
    filed = v.filed;
  }
