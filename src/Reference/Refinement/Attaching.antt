-- ===== src/Reference/Refinement/Attaching.antt =====
-- Attaching, detaching and deleting a label.
use ai_agents.Prelude.{
  ◌≡◌, refl, sym, ap, subst, ◌∙◌, String, true, Option, none, some, [], ◌∷◌, ◌++◌, string_eq,
  Bool-cases, inl, inr, contains, is_some,
}
use ai_agents.Prelude.Exec.{ok, or_raise, ◌>>=◌}
use ai_agents.Dict.{Dict, values, has_key}
use ai_agents.Dict.Values.{rewritten, rewrite_where, rewrite_where-values}
use ai_agents.Dict.Mapping.{
  map_option, map_entries, map_values-map_entries, keys-map_entries, IsKeyed-map_entries,
}
use ai_agents.Text.{Unicode}
use ai_agents.Protocol.MailCodes.{MailServerError}
use ai_agents.Runtime.{Untrusted}
use ai_agents.Mail.Models.{MailMessage, MailLabel}
use ai_agents.Mail.Mailbox as M
use ai_agents.Mail.Tools as T
use ai_agents.Wire.{Message, Label, require_deletable}
use ai_agents.Wire.Mapping.{label}
use ai_agents.Wire.Fencing.{fenced_message}
use ai_agents.Reference as R
use ai_agents.Reference.{InMemoryMailbox}
use ai_agents.Reference.Refinement.{label_dict, view, shown, shown->>=}
use ai_agents.Reference.Refinement.Reading.{require-refines, replace-refines}
use ai_agents.Reference.Refinement.Labelling.{
  require_label-refines, erase-label_dict, lookup-label_dict,
}
use ai_agents.Reference.Refinement.Sound.{IsSound}

module _ (U : Type 0) ⦃u : Untrusted U⦄ (owner : String) where
  carries_lem : (i : String) (m : Message) → M.carries {U = U} i (fenced_message m) ≡ R.carries i m
  unfolding fenced_message
  carries_lem i m = refl

  attach_lem :
      (l : String) (m : Message) (box : InMemoryMailbox)
      → T.attach_to {U = U} l (fenced_message m) (view owner box)
        ≡ shown (λ x. x) owner (R.add_to l m box)
  unfolding fenced_message
  attach_lem l m box = elim (Bool-cases (contains l m.label_ids)) [
    | inl there ↦ rw there refl
    | inr new ↦
        rw new (replace-refines U owner (record m { label_ids = m.label_ids ++ l ∷ [] }) box)
  ]

  pub apply_label-refines :
      (i l : String) (box : InMemoryMailbox)
      → T.apply_label {U = U} i l (view owner box) ≡ shown (λ x. x) owner (R.apply_label i l box)
  unfolding T.apply_label R.apply_label
  apply_label-refines i l box =
      shown->>= label (λ x. x) owner (R.require_label l) (λ _. R.require i >>= λ m. R.add_to l m)
        (M.require_label l) (λ _. M.message i >>= λ m. T.attach_to l m) box
        (require_label-refines U l owner box)
        (λ _ s e.
          shown->>= fenced_message (λ x. x) owner (R.require i) (λ m. R.add_to l m) (M.message i)
            (λ m. T.attach_to l m) s (require-refines U owner i s) (λ m t e. attach_lem l m t))

  without_lem :
      (l : String) (m : Message)
      → M.without_label {U = U} l (fenced_message m) ≡ fenced_message (R.unlabelled l m)
  unfolding fenced_message R.unlabelled R.without
  without_lem l m = refl

  detach_lem :
      (l : String) (m : Message) (box : InMemoryMailbox)
      → M.replace {U = U} (M.without_label l (fenced_message m)) (view owner box)
        ≡ shown (λ x. x) owner (R.replace (R.unlabelled l m) box)
  detach_lem l m box =
      ap (λ (x : MailMessage U). M.replace x (view owner box)) (without_lem l m)
      ∙ replace-refines U owner (R.unlabelled l m) box

  pub remove_label-refines :
      (i l : String) (box : InMemoryMailbox)
      → T.remove_label {U = U} i l (view owner box) ≡ shown (λ x. x) owner (R.remove_label i l box)
  unfolding T.remove_label R.remove_label
  remove_label-refines i l box =
      shown->>= label (λ x. x) owner (R.require_label l)
        (λ _. R.require i >>= λ m. R.replace (R.unlabelled l m)) (M.require_label l)
        (λ _. M.message i >>= λ m. M.replace (M.without_label l m)) box
        (require_label-refines U l owner box)
        (λ _ s e.
          shown->>= fenced_message (λ x. x) owner (R.require i) (λ m. R.replace (R.unlabelled l m))
            (M.message i) (λ m. M.replace (M.without_label l m)) s (require-refines U owner i s)
            (λ m t e. detach_lem l m t))

  abbrev unlabelled_where : String → Message → Message
  unlabelled_where l = rewritten R.message_key (R.carries l) (R.unlabelled l)

  keeps_key : (l : String) (m : Message) → R.message_key (R.unlabelled l m) ≡ R.message_key m
  unfolding R.unlabelled
  keeps_key l m = refl

  rewritten_lem :
      (l : String) (m : Message)
      → rewritten M.message_key (M.carries l) (M.without_label l) (fenced_message {U = U} m)
        ≡ fenced_message (unlabelled_where l m)
  rewritten_lem l m = elim (Bool-cases (contains l m.label_ids)) [
    | inl there ↦ rw (carries_lem l m, there) (without_lem l m)
    | inr absent ↦ rw (carries_lem l m, absent) refl
  ]

  key_lem : (m : Message) → M.message_key {U = U} (fenced_message m) ≡ R.message_key m
  unfolding fenced_message
  key_lem m = refl

  -- The loop over the messages, in the server and in the contract.
  loop_lem :
      (l : String) (box : InMemoryMailbox)
      → IsSound box
      → rewrite_where M.message_key
          (M.carries l)
          (M.without_label l)
          (values (map_entries (fenced_message {U = U}) box.messages))
          (map_entries fenced_message box.messages)
        ≡ map_entries fenced_message (
            rewrite_where R.message_key
              (R.carries l)
              (R.unlabelled l)
              (values box.messages)
              box.messages)
  loop_lem l box v =
      rewrite_where-values M.message_key (M.carries l) (M.without_label l) (λ m. refl)
        (map_entries fenced_message box.messages) (rw keys-map_entries v.messages_nodup)
        (IsKeyed-map_entries fenced_message R.message_key M.message_key key_lem box.messages
          v.messages_keyed)
      ∙ map_values-map_entries fenced_message _ (unlabelled_where l) (rewritten_lem l) box.messages
      ∙ ap (map_entries fenced_message) (
          sym (
            rewrite_where-values R.message_key (R.carries l) (R.unlabelled l) (keeps_key l)
              box.messages v.messages_nodup v.messages_keyed))

  or_raise-ok :
      (o : Option Label) (e : MailServerError) (x : Label) (box s : InMemoryMailbox)
      → or_raise o e box ≡ (ok x, s)
      → (o ≡ some x) × (box ≡ s)
  or_raise-ok none e x box s h = absurd cc
  or_raise-ok (some y) e x box s h = (cc, cc)

  -- The mailbox of the server after the label was taken away everywhere.
  abbrev detached : String → InMemoryMailbox → InMemoryMailbox
  detached l box = (R.detach_everywhere l box).1

  drop_lem :
      (l : String) (box : InMemoryMailbox)
      → IsSound box
      → has_key l (label_dict {U = U} box.labels) ≡ true
      → M.drop_label {U = U} l (view owner box) ≡ (ok tt, view owner (detached l box))
  unfolding M.drop_label
  drop_lem l box v h = rw h (
      ap
        (λ (d : Dict String (MailLabel U)). (
          ok tt,
          record (view owner box) {
            labels = d;
            messages =
                rewrite_where M.message_key (M.carries l) (M.without_label l)
                  (values (map_entries fenced_message box.messages))
                  (map_entries fenced_message box.messages);
          },
        ))
        (erase-label_dict U l box.labels v.labels_nodup)
      ∙ ap
          (λ (d : Dict String (MailMessage U)).
            (ok tt, record (view owner (detached l box)) { messages = d }))
          (loop_lem l box v))

  delete_found_lem :
      (un : Unicode) (l : String) (x : Label) (box : InMemoryMailbox)
      → IsSound box
      → has_key l (label_dict {U = U} box.labels) ≡ true
      → T.delete_found {U = U} un l (label x) (view owner box)
        ≡ shown (λ x. x) owner (R.delete_required un l x box)
  unfolding label require_deletable
  delete_found_lem un l x box v h = elim (Bool-cases x.is_system) [
    | inl system ↦ rw (system, u.expose-untrusted x.name ("mail", "label")) refl
    | inr own ↦ rw own (drop_lem l box v h)
  ]

  -- Deleting a label in the reference server is deleting it in the contract: it goes from the
  -- labels and from every message, a label of the mail system is refused with the same words, and
  -- a missing one is missing, in a mailbox that is sound.
  pub delete_label-refines :
      (un : Unicode) (l : String) (box : InMemoryMailbox)
      → IsSound box
      → T.delete_label {U = U} un l (view owner box)
        ≡ shown (λ x. x) owner (R.delete_label un l box)
  unfolding T.delete_label R.delete_label R.require_label
  delete_label-refines un l box v =
      shown->>= label (λ x. x) owner (R.require_label l) (R.delete_required un l)
        (M.require_label l) (T.delete_found un l) box (require_label-refines U l owner box)
        (λ x s e. finish x s (or_raise-ok _ _ x box s e))
    where
      finish :
          (x : Label) (s : InMemoryMailbox)
          → (R.first_with_id l box.labels ≡ some x) × (box ≡ s)
          → T.delete_found {U = U} un l (label x) (view owner s)
            ≡ shown (λ x. x) owner (R.delete_required un l x s)
      finish x s (h, same) =
          subst
            (λ (b : InMemoryMailbox).
              T.delete_found {U = U} un l (label x) (view owner b)
              ≡ shown (λ x. x) owner (R.delete_required un l x b))
            same
            (delete_found_lem un l x box v
              (ap is_some (lookup-label_dict U l box.labels ∙ ap (map_option label) h)))
