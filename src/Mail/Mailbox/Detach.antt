-- ===== src/Mail/Mailbox/Detach.antt =====
-- `drop_label` takes the label out of the mailbox and off every message.
use ai_agents.Prelude.{
  ◌≡◌, refl, ◌∙◌, String, true, false, not, List, [], ◌∷◌, arith, ◌==◌, string_eq, contains,
  contains-select, IsSubset-intro, IsSubset-contains, Bool-cases, inl, inr, eq_iff,
}
use ai_agents.Prelude.Exec.{ok}
use ai_agents.Dict.{Dict, keys, has_key, erase, IsNodup-erase, contains-keys-erase_of_IsNodup}
use ai_agents.Dict.Values.{
  EachEntry, IsKeyed, IsKeyed-erase, map_values, keys-map_values, rewritten, rewrite_where-values,
}
use ai_agents.Mail.Models.{MailMessage}
use ai_agents.Mail.Mailbox.{Mailbox, message_key, label_key, carries, without_label, drop_label}
use ai_agents.Mail.Mailbox.Valid.{IsFiled, IsValid, without_label-IsFiled}

module _ {U : Type 0} (label_id : String) where
  -- A message after the label was dropped.
  abbrev pub stripped : MailMessage U → MailMessage U
  stripped = rewritten message_key (carries label_id) (without_label label_id)

  -- The mailbox after the label was dropped.
  abbrev pub dropped : Mailbox U → Mailbox U
  dropped box = record box {
    labels = erase label_id box.labels;
    messages = map_values stripped box.messages;
  }

  -- The loop of `drop_label` rewrites the messages in place.
  pub drop_label_lem :
      (box : Mailbox U)
      → IsValid box
      → has_key label_id box.labels ≡ true
      → drop_label label_id box ≡ (ok tt, dropped box)
  unfolding drop_label
  drop_label_lem box v h =
      rw
        (
          h,
          rewrite_where-values message_key (carries label_id) (without_label label_id) (λ m. refl)
              box.messages v.messages_nodup v.messages_keyed,
        )
        refl

  contains-without_label : (m : MailMessage U) → carries label_id (without_label label_id m) ≡ false
  contains-without_label m =
      contains-select (λ i. not (i == label_id)) label_id m.label_ids
      ∙ ground (arith, eq_iff label_id label_id)

  -- A stripped message does not carry the label.
  pub carries-stripped : (m : MailMessage U) → carries label_id (stripped m) ≡ false
  carries-stripped m = elim (Bool-cases (carries label_id m)) [
    | inl carried ↦ rw carried (contains-without_label m)
    | inr absent ↦ rw absent absent
  ]

  stripped-IsFiled :
      (ids left : List String) (m : MailMessage U)
      → ((a : String) → contains a ids ≡ true → not (a == label_id) ≡ true → contains a left ≡ true)
      → IsFiled ids m
      → IsFiled left (stripped m)
  stripped-IsFiled ids left m h f = elim (Bool-cases (carries label_id m)) [
    | inl carried ↦ rw carried (without_label-IsFiled label_id ids left m h f)
    | inr absent ↦ rw absent (record {
      known = IsSubset-intro m.label_ids left (λ a i.
          h a (IsSubset-contains a m.label_ids ids f.known i)
            (ground (arith, absent, eq_iff a label_id)));
      once = f.once;
    })
  ]

  map_values-IsFiled :
      (ids left : List String) (d : Dict String (MailMessage U))
      → ((a : String) → contains a ids ≡ true → not (a == label_id) ≡ true → contains a left ≡ true)
      → EachEntry (λ i m. IsFiled ids m) d
      → EachEntry (λ i m. IsFiled left m) (map_values stripped d)
  map_values-IsFiled ids left [] h f = tt
  map_values-IsFiled ids left ((k, m) ∷ d) h f =
      (stripped-IsFiled ids left m h f.0, map_values-IsFiled ids left d h f.1)

  IsKeyed-stripped :
      (d : Dict String (MailMessage U))
      → IsKeyed message_key d
      → IsKeyed message_key (map_values stripped d)
  IsKeyed-stripped [] h = tt
  IsKeyed-stripped ((k, m) ∷ d) h = (ground (arith, h.0), IsKeyed-stripped d h.1)

  pub dropped-IsValid : (box : Mailbox U) → IsValid box → IsValid (dropped box)
  dropped-IsValid box v = record {
    messages_nodup = rw keys-map_values v.messages_nodup;
    messages_keyed = IsKeyed-stripped box.messages v.messages_keyed;
    labels_nodup = IsNodup-erase label_id box.labels v.labels_nodup;
    labels_keyed = IsKeyed-erase label_key label_id box.labels v.labels_keyed;
    drafts_nodup = v.drafts_nodup;
    filed =
        map_values-IsFiled (keys box.labels) (keys (erase label_id box.labels)) box.messages
          (λ a i other.
            contains-keys-erase_of_IsNodup label_id a box.labels v.labels_nodup ∙ ground arith)
          v.filed;
  }
