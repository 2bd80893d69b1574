-- ===== src/Mail/Tools/Undo.antt =====
-- Attaching a label and detaching it again.
use ai_agents.Prelude.{
  ◌≡◌, refl, sym, ◌∙◌, ap, String, true, false, not, some, List, [], ◌∷◌, ◌++◌, arith, ◌==◌, ◌⊎◌,
  string_eq, if◌then◌else◌, Bool-cases, Option-cases, inl, inr, contains, select, eq_iff, eq_refl,
}
use ai_agents.Prelude.Exec.{ok, ◌>>=◌, ◌>>◌, >>=-ok}
use ai_agents.Dict.{lookup, has_key, insert, lookup-insert}
use ai_agents.Dict.Values.{IsKeyed-lookup}
use ai_agents.Mail.Error.{Method}
use ai_agents.Mail.Models.{MailMessage}
use ai_agents.Mail.Mailbox.{
  Mailbox, message_key, carries, without_label, message, replace, require_label,
}
use ai_agents.Mail.Mailbox.Valid.{IsValid}
use ai_agents.Mail.Mailbox.Access.{message_found, require_label_found}
use ai_agents.Mail.Tools.{apply_label, remove_label, attach_to, with_label}

module _ {U : Type 0} (l : String) where
  -- A label that was put on is all that is taken off again.
  without-with_label :
      (m : MailMessage U) → carries l m ≡ false → without_label l (with_label l m) ≡ m
  without-with_label m absent =
      ap (λ ids. record m { label_ids = ids }) (select_back m.label_ids absent)
    where
      select_back :
          (ids : List String)
          → contains l ids ≡ false
          → select (λ i. not (i == l)) (ids ++ l ∷ []) ≡ ids
      select_back [] h = ground (arith, eq_iff l l)
      select_back (x ∷ ids) h = ground (arith, select_back ids, eq_iff x l, eq_iff l x)

  abbrev written : MailMessage U → Mailbox U → Mailbox U
  written m box = record box { messages = insert m.message_id m box.messages }

  looked_up :
      (g : MailMessage U → Method (Mailbox U) (Unit {0})) (i : String) (m : MailMessage U)
      (box : Mailbox U)
      → has_key l box.labels ≡ true
      → lookup i box.messages ≡ some m
      → (require_label l >>= λ _. message i >>= g) box ≡ g m box
  looked_up g i m box known found = elim (Option-cases (lookup l box.labels)) [
    | inl unknown ↦ absurd (ground (arith, known, unknown))
    | inr (x, at) ↦
        >>=-ok (require_label l) (λ _. message i >>= g) box x box (require_label_found l x box at)
        ∙ >>=-ok (message i) g box m box (message_found i m box found)
  ]

  apply_label_ok :
      (i : String) (m : MailMessage U) (box : Mailbox U)
      → has_key l box.labels ≡ true
      → lookup i box.messages ≡ some m
      → carries l m ≡ false
      → apply_label i l box ≡ (ok tt, written (with_label l m) box)
  unfolding apply_label replace
  apply_label_ok i m box known found absent =
      looked_up (attach_to l) i m box known found ∙ rw absent refl

  remove_label_ok :
      (i : String) (m : MailMessage U) (box : Mailbox U)
      → has_key l box.labels ≡ true
      → lookup i box.messages ≡ some m
      → remove_label i l box ≡ (ok tt, written (without_label l m) box)
  unfolding remove_label replace
  remove_label_ok i m box known found =
      looked_up (λ x. replace (without_label l x)) i m box known found

  -- In a well-formed mailbox, where the message is there without the label and the label exists,
  -- both calls succeed, and attaching the label and detaching it again gives every message back as
  -- it was.
  pub apply-then-remove :
      (i : String) (m : MailMessage U) (box : Mailbox U)
      → IsValid box
      → has_key l box.labels ≡ true
      → lookup i box.messages ≡ some m
      → carries l m ≡ false
      → (((apply_label i l >> remove_label i l) box).0 ≡ ok tt)
        × ((j : String)
            → lookup j ((apply_label i l >> remove_label i l) box).1.messages
              ≡ lookup j box.messages)
  apply-then-remove i m box v known found absent =
      (ap (λ p. p.0) both, λ j. ap (λ p. lookup j p.1.messages) both ∙ back j)
    where
      box' : Mailbox U
      box' = written (with_label l m) box

      named : m.message_id ≡ i
      named = IsKeyed-lookup message_key i m box.messages v.messages_keyed found

      found' : lookup i box'.messages ≡ some (with_label l m)
      found' =
          ap (λ k. lookup i (insert k (with_label l m) box.messages)) named
          ∙ lookup-insert i i (with_label l m) box.messages
          ∙ rw (eq_refl i) refl

      both :
          (apply_label i l >> remove_label i l) box
          ≡ (ok tt, written (without_label l (with_label l m)) box')
      both =
          >>=-ok (apply_label i l) (λ _. remove_label i l) box tt box'
            (apply_label_ok i m box known found absent)
          ∙ remove_label_ok i (with_label l m) box' known found'

      settle :
          (j : String)
          → ((j == m.message_id) ≡ true) ⊎ ((j == m.message_id) ≡ false)
          → (if j == m.message_id
              then some m
              else if j == m.message_id
              then some (with_label l m)
              else lookup j box.messages)
            ≡ lookup j box.messages
      settle j (inl here) =
          rw here
            (sym (ap (λ k. lookup k box.messages) ((eq_iff j m.message_id).0 here ∙ named) ∙ found))
      settle j (inr there) = rw (there) refl

      back :
          (j : String)
          → lookup j (written (without_label l (with_label l m)) box').messages
            ≡ lookup j box.messages
      back j =
          ap (λ x. lookup j (insert m.message_id x box'.messages)) (without-with_label m absent)
          ∙ lookup-insert m.message_id j m box'.messages
          ∙ ap (λ o. if j == m.message_id then some m else o)
              (lookup-insert m.message_id j (with_label l m) box.messages)
          ∙ settle j (Bool-cases (j == m.message_id))
