-- ===== src/Mail/Tools/Labels.antt =====
-- Creating, deleting, attaching and detaching labels.
use ai_agents.Prelude.{
  ◌≡◌, refl, ap, subst, String, true, false, not, none, some, List, [], ◌∷◌, ◌++◌, arith, string_eq,
  Option-cases, inl, inr, eq_refl, is_some, contains,
}
use ai_agents.Prelude.Exec.{Result, ok, err}
use ai_agents.Dict.{Dict, keys, values, insert-eq-append}
use ai_agents.Dict.Values.{values-append}
use ai_agents.Text.{Unicode}
use ai_agents.Runtime.{Untrusted}
use ai_agents.Mail.Error.{MailError}
use ai_agents.Mail.Models.{MailLabel, MailLabelOutcome}
use ai_agents.Mail.Mailbox.{Mailbox, add_label, label_named, first_named, is_named, mint_label_id}
use ai_agents.Mail.Mailbox.Minting.{mint_label_id-is_new}
use ai_agents.Mail.Tools.{create_label}

module _ {U : Type 0} ⦃u : Untrusted U⦄ (un : Unicode) where
  first_named-append :
      (folded : String) (ls : List (MailLabel U)) (l : MailLabel U)
      → first_named un folded ls ≡ none
      → is_named un folded l ≡ true
      → first_named un folded (ls ++ l ∷ []) ≡ some l
  first_named-append folded [] l none_yet named = rw named refl
  first_named-append folded (x ∷ ls) l none_yet named =
      ground (arith, first_named-append folded ls l)

  -- The label that `create_label` makes.
  abbrev pub new_label : String → Mailbox U → MailLabel U
  new_label name box = record {
    label_id = mint_label_id un name box;
    name = u.untrusted name ("mail", "label");
    is_system = false;
  }

  -- The mailbox with one more label, at the end.
  abbrev pub with_new_label : String → Mailbox U → Mailbox U
  with_new_label name box = record box {
    labels = box.labels ++ (mint_label_id un name box, new_label name box) ∷ [];
  }

  create_label_new :
      (name : String) (box : Mailbox U)
      → label_named un name box ≡ none
      → create_label un name box
        ≡ (ok (record { label = new_label name box; created = true }), with_new_label name box)
  unfolding create_label add_label
  create_label_new name box new = rw (new) (
      ap
        (λ (d : Dict String (MailLabel U)).
          (ok (record { label = new_label name box; created = true }), record box { labels = d }))
        (insert-eq-append (mint_label_id un name box) (new_label name box) box.labels
          (mint_label_id-is_new un name box)))

  create_label_old :
      (name : String) (box : Mailbox U) (l : MailLabel U)
      → label_named un name box ≡ some l
      → create_label un name box ≡ (ok (record { label = l; created = false }), box)
  unfolding create_label
  create_label_old name box l old = rw old refl

  named_after :
      (name : String) (box : Mailbox U)
      → label_named un name box ≡ none
      → label_named un name (with_new_label name box) ≡ some (new_label name box)
  unfolding label_named
  named_after name box new = rw values-append (
      first_named-append (un.casefold name) (values box.labels) (new_label name box) new
        (rw (u.expose-untrusted name ("mail", "label")) (eq_refl (un.casefold name))))

  -- What creating a label leaves behind: a label of that name up to case, which the mailbox finds
  -- by the name; one that was there is returned and nothing changes, a new one stands last under
  -- an identifier that was free.
  pub record IsCreated (name : String) (box : Mailbox U) (o : MailLabelOutcome U) (box' : Mailbox U)
      : Type 0 where
    pub found : label_named un name box' ≡ some o.label
    pub created : o.created ≡ not (is_some (label_named un name box))
    pub kept : o.created ≡ false → box' ≡ box
    pub added :
        o.created ≡ true
        → (contains o.label.label_id (keys box.labels) ≡ false)
          × (box' ≡ record box { labels = box.labels ++ (o.label.label_id, o.label) ∷ [] })

  abbrev pub IsCreation :
      String → Mailbox U → Result MailError (MailLabelOutcome U) × Mailbox U → Type 0
  IsCreation name box (ok o, box') = IsCreated name box o box'
  IsCreation name box (err e, box') = ⊥

  -- Creating a label never fails. A label with that name, up to case, is returned and the mailbox
  -- unchanged; otherwise a label is added last, under an identifier that no label had. Either way
  -- the mailbox then finds the returned label by the name.
  pub create_label-IsCreation :
      (name : String) (box : Mailbox U) → IsCreation name box (create_label un name box)
  create_label-IsCreation name box = elim (Option-cases (label_named un name box)) [
    | inl new ↦ rw (create_label_new name box new) (record {
      found = named_after name box new;
      created = rw new refl;
      kept = λ h. cc;
      added = λ h. (mint_label_id-is_new un name box, refl);
    })
    | inr (l, old) ↦
        rw (create_label_old name box l old)
          (record { found = old; created = rw old refl; kept = λ h. refl; added = λ h. cc })
  ]

  -- Asking again for a label that was just created or found returns the same label, reports that it
  -- was there, and changes nothing.
  pub create_label_twice :
      (name : String) (box : Mailbox U) (o : MailLabelOutcome U) (box' : Mailbox U)
      → create_label un name box ≡ (ok o, box')
      → create_label un name box' ≡ (ok (record { label = o.label; created = false }), box')
  create_label_twice name box o box' made =
      create_label_old name box' o.label
        (subst (IsCreation name box) made (create_label-IsCreation name box)).found
