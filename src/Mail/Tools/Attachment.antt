-- ===== src/Mail/Tools/Attachment.antt =====
-- Attaching a label to a message and detaching it: `apply_label` and `remove_label` on every branch.
use ai_agents.Prelude.{
  ◌≡◌, refl, sym, ◌∙◌, ap, subst, String, true, not, Option, none, some, [], ◌∷◌, ◌++◌, contains,
  select, arith, ◌==◌, ◌⊎◌, string_eq, if◌then◌else◌, Bool-cases, Option-cases, inl, inr, is_some,
  eq_iff,
}
use ai_agents.Prelude.Exec.{Result, ok, err, ◌>>=◌, >>=-ok, >>=-err}
use ai_agents.Dict.{lookup, has_key}
use ai_agents.Dict.Values.{IsKeyed-lookup}
use ai_agents.Mail.Error.{MailError, Method, not_found}
use ai_agents.Mail.Models.{MailMessage}
use ai_agents.Mail.Mailbox.{
  Mailbox, message_key, carries, without_label, message, replace, require_label,
}
use ai_agents.Mail.Mailbox.Valid.{IsValid}
use ai_agents.Mail.Mailbox.Access.{
  message_found, message_missing, require_label_found, require_label_missing,
}
use ai_agents.Mail.Tools.{apply_label, remove_label, attach_to}
use ai_agents.Mail.Tools.State.{IsEdited, IsEdit, replace-IsEdited}

module _ {U : Type 0} (l : String) where
  -- The message with the label at the end, unless it has it.
  abbrev pub labelled : MailMessage U → MailMessage U
  labelled m = if contains l m.label_ids then m else record m { label_ids = m.label_ids ++ l ∷ [] }

  -- The message without the label.
  abbrev pub unlabelled : MailMessage U → MailMessage U
  unlabelled m = record m { label_ids = select (λ i. not (i == l)) m.label_ids }

  -- How such a call may end: the label and the message are there, and the message is changed by `f`;
  -- or the label is missing, or it is there and the message is not, and nothing changes.
  abbrev pub IsRelabel :
      (MailMessage U → MailMessage U)
      → String
      → Mailbox U
      → Result MailError (Unit {0}) × Mailbox U
      → Type 0
  IsRelabel f i box (ok a, box') = (has_key l box.labels ≡ true) × IsEdit f i box (ok a, box')
  IsRelabel f i box (err e, box') =
      ((lookup l box.labels ≡ none) × (e ≡ not_found "label" l) × (box' ≡ box))
      ⊎ ((has_key l box.labels ≡ true) × IsEdit f i box (err e, box'))

  attach_to-IsEdit :
      (i : String) (m : MailMessage U) (box : Mailbox U)
      → IsValid box
      → lookup i box.messages ≡ some m
      → IsEdit labelled i box (attach_to l m box)
  unfolding replace
  attach_to-IsEdit i m box v found = elim (Bool-cases (carries l m)) [
    | inl carried ↦ rw carried (ap is_some found, unchanged carried)
    | inr absent ↦ rw absent (
      ap is_some found,
      subst (λ x. IsEdited labelled i box (replace x box).1) (rw absent refl)
          (replace-IsEdited labelled i m box (key_of m ∙ named) found),
    )
  ]
    where
      named : m.message_id ≡ i
      named = IsKeyed-lookup message_key i m box.messages v.messages_keyed found

      key_of : (x : MailMessage U) → (labelled x).message_id ≡ x.message_id
      key_of x = ground arith

      same_entry :
          carries l m ≡ true
          → (j : String) (o : Option (MailMessage U)) → lookup j box.messages ≡ o
          → o ≡ elim o [ none ↦ none | some x ↦ some (if j == i then labelled x else x) ]
      same_entry carried j none e = refl
      same_entry carried j (some x) e = elim (Bool-cases (j == i)) [
        | inl here ↦
            let at_i : lookup i box.messages ≡ some x =
              ap (λ k. lookup k box.messages) (sym ((eq_iff j i).0 here)) ∙ e in
            let x_is_m : some x ≡ some m = sym at_i ∙ found in
            let same : x ≡ m = cc in rw here (rw (same, carried) refl)
        | inr there ↦ rw there refl
      ]

      unchanged : carries l m ≡ true → IsEdited labelled i box box
      unchanged carried = record {
        messages = λ j. same_entry carried j (lookup j box.messages) refl;
        labels = refl;
        drafts = refl;
        sent = refl;
        owner = refl;
      }

  finish :
      (f : MailMessage U → MailMessage U) (i : String) (box : Mailbox U)
      → has_key l box.labels ≡ true
      → (p : Result MailError (Unit {0}) × Mailbox U) → IsEdit f i box p
      → IsRelabel f i box p
  finish f i box known (ok a, box') h = (known, h)
  finish f i box known (err e, box') h = inr (known, h)

  -- The label is looked up, then the message, and `g` edits it.
  relabel :
      (f : MailMessage U → MailMessage U) (g : MailMessage U → Method (Mailbox U) (Unit {0}))
      (i : String) (box : Mailbox U)
      → ((m : MailMessage U) → lookup i box.messages ≡ some m → IsEdit f i box (g m box))
      → IsRelabel f i box ((require_label l >>= λ _. message i >>= g) box)
  relabel f g i box h = elim (Option-cases (lookup l box.labels)) [
    | inl unknown ↦
        rw
          (>>=-err (require_label l) (λ _. message i >>= g) box _ box
            (require_label_missing l box unknown))
          (inl (unknown, refl, refl))
    | inr (x, known) ↦
        rw
          (>>=-ok (require_label l) (λ _. message i >>= g) box x box
            (require_label_found l x box known))
          (elim (Option-cases (lookup i box.messages)) [
            | inl missing ↦
                rw (>>=-err (message i) g box _ box (message_missing i box missing))
                  (inr (ap is_some known, (missing, refl, refl)))
            | inr (m, found) ↦
                rw (>>=-ok (message i) g box m box (message_found i m box found))
                  (finish f i box (ap is_some known) (g m box) (h m found))
          ])
  ]

  -- In a well-formed mailbox, attaching puts the label last on the message, unless the message
  -- has it, and changes nothing else; it is refused, with nothing changed, exactly if the label
  -- or the message is missing, the label being looked up first.
  pub apply_label-IsRelabel :
      (i : String) (box : Mailbox U) → IsValid box → IsRelabel labelled i box (apply_label i l box)
  unfolding apply_label
  apply_label-IsRelabel i box v =
      relabel labelled (attach_to l) i box (λ m found. attach_to-IsEdit i m box v found)

  -- In a well-formed mailbox, detaching takes the label off the message, leaves its other labels
  -- in order, and changes nothing else; it is refused, with nothing changed, exactly if the label
  -- or the message is missing, the label being looked up first.
  pub remove_label-IsRelabel :
      (i : String) (box : Mailbox U)
      → IsValid box
      → IsRelabel unlabelled i box (remove_label i l box)
  unfolding remove_label replace
  remove_label-IsRelabel i box v =
      relabel unlabelled (λ m. replace (without_label l m)) i box
        (λ m found. (
          ap is_some found,
          replace-IsEdited unlabelled i m box
              (IsKeyed-lookup message_key i m box.messages v.messages_keyed found) found,
        ))
