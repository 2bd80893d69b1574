-- ===== src/Mail/Tools/Deletion.antt =====
-- Deleting a label: `delete_label` on every branch.
use ai_agents.Prelude.{
  ◌≡◌, refl, sym, ◌∙◌, ap, String, true, false, not, Option, none, some, [], ◌∷◌, ◌==◌, ◌⊎◌,
  string_eq, if◌then◌else◌, Bool-cases, Option-cases, inl, inr, is_some, select,
}
use ai_agents.Prelude.Exec.{Result, ok, err, >>=-ok, >>=-err}
use ai_agents.Dict.{lookup, lookup-erase}
use ai_agents.Dict.Values.{lookup-map_values}
use ai_agents.Text.{Unicode, concat}
use ai_agents.Runtime.{Untrusted}
use ai_agents.Mail.Error.{MailError, not_found, access_denied}
use ai_agents.Mail.Models.{MailMessage, MailLabel}
use ai_agents.Mail.Mailbox.{Mailbox, carries, require_label}
use ai_agents.Mail.Mailbox.Valid.{IsValid}
use ai_agents.Mail.Mailbox.Access.{require_label_found, require_label_missing}
use ai_agents.Mail.Mailbox.Detach.{stripped, dropped, drop_label_lem, carries-stripped}
use ai_agents.Mail.Tools.{delete_label, delete_found}

-- `box'` is `box` without a label.
pub record IsDeleted {U : Type 0} (l : String) (box box' : Mailbox U) : Type 0 where
  pub labels : (j : String) → lookup j box'.labels ≡ (if j == l then none else lookup j box.labels)
  pub detached :
      (i : String) (m : MailMessage U) → lookup i box'.messages ≡ some m → carries l m ≡ false
  pub others :
      (i : String) (m : MailMessage U)
      → lookup i box.messages ≡ some m
      → carries l m ≡ false
      → lookup i box'.messages ≡ some m
  pub remaining :
      (i : String) (m : MailMessage U)
      → lookup i box.messages ≡ some m
      → carries l m ≡ true
      → lookup i box'.messages
        ≡ some (record m { label_ids = select (λ j. not (j == l)) m.label_ids })
  pub drafts : box'.drafts ≡ box.drafts
  pub sent : box'.sent ≡ box.sent

module _ {U : Type 0} (l : String) where
  dropped-IsDeleted : (box : Mailbox U) → IsValid box → IsDeleted l box (dropped l box)
  dropped-IsDeleted box v = record {
    labels = λ j. lookup-erase l j box.labels v.labels_nodup;
    detached = λ i m found.
        detached_from i m (lookup i box.messages)
          (sym (lookup-map_values (stripped l) i box.messages) ∙ found);
    others = λ i m found absent.
        lookup-map_values (stripped l) i box.messages ∙ rw found (rw absent refl);
    remaining = λ i m found carried.
        lookup-map_values (stripped l) i box.messages ∙ rw found (rw carried refl);
    drafts = refl;
    sent = refl;
  }
    where
      detached_from :
          (i : String) (m : MailMessage U) (o : Option (MailMessage U))
          → elim o [ none ↦ none | some x ↦ some (stripped l x) ] ≡ some m
          → carries l m ≡ false
      detached_from i m none h = cc
      detached_from i m (some x) h =
          let same : stripped l x ≡ m = cc in ap (carries l) (sym same) ∙ carries-stripped l x

module _ {U : Type 0} ⦃u : Untrusted U⦄ (un : Unicode) (l : String) where
  -- How a deletion may end.
  abbrev pub IsDeletion : Mailbox U → Result MailError (Unit {0}) × Mailbox U → Type 0
  IsDeletion box (ok _, box') =
      ((x : MailLabel U) × (lookup l box.labels ≡ some x) × (x.is_system ≡ false))
      × IsDeleted l box box'
  IsDeletion box (err e, box') =
      (box' ≡ box)
      × (((lookup l box.labels ≡ none) × (e ≡ not_found "label" l))
          ⊎ ((x : MailLabel U) × (lookup l box.labels ≡ some x)
              × (x.is_system ≡ true)
              × (e
                  ≡ access_denied (
                      concat (
                        "label "
                        ∷ un.repr (u.expose x.name)
                        ∷ " is a system label and cannot be deleted"
                        ∷ [])))))

  delete_found-IsDeletion :
      (x : MailLabel U) (box : Mailbox U)
      → IsValid box
      → lookup l box.labels ≡ some x
      → IsDeletion box (delete_found un l x box)
  delete_found-IsDeletion x box v known = elim (Bool-cases x.is_system) [
    | inl system ↦ rw system (refl, inr (x, known, system, refl))
    | inr user_made ↦
        rw (user_made, drop_label_lem l box v (ap is_some known))
          ((x, known, user_made), dropped-IsDeleted l box v)
  ]

  -- In a well-formed mailbox a deletion takes away the label and nothing else from the labels, and
  -- detaches it from every message that carried it, leaving the other labels in order and the other
  -- messages, the drafts and the deliveries alone. It is refused, with nothing changed, exactly if
  -- there is no such label or it is a label of the mail system.
  pub delete_label-IsDeletion :
      (box : Mailbox U) → IsValid box → IsDeletion box (delete_label un l box)
  unfolding delete_label
  delete_label-IsDeletion box v = elim (Option-cases (lookup l box.labels)) [
    | inl unknown ↦
        rw
          (>>=-err (require_label l) (delete_found un l) box _ box
            (require_label_missing l box unknown))
          (refl, inl (unknown, refl))
    | inr (x, known) ↦
        rw
          (>>=-ok (require_label l) (delete_found un l) box x box
            (require_label_found l x box known))
          (delete_found-IsDeletion x box v known)
  ]
