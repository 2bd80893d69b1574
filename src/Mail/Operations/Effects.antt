-- ===== src/Mail/Operations/Effects.antt =====
-- The catalogue tells the truth about the in-memory tools.
use ai_agents.Prelude.{string_eq, Option, none, some, ◌≡◌, refl, String, false, arith}
use ai_agents.Prelude.Exec.{Result, ok, err, continue, pure, or_raise}
use ai_agents.Text.{Unicode}
use ai_agents.Runtime.{Untrusted}
use ai_agents.Dict.{lookup}
use ai_agents.Mail.Error.{MailError, Method, not_found}
use ai_agents.Mail.Mailbox.{Mailbox, message, thread}
use ai_agents.Mail.Tools.{
  Call, search_for, get_message, get_thread, list_labels, create_draft, send_draft, mark,
  archive_message, attach, detach, add_named, delete, Reply, reply_with, perform, search_mail,
}
use ai_agents.Mail.Tools as T
use ai_agents.Operations.{is_write}
use ai_agents.Mail.Operations.{MailToolName, descriptor}
use ai_agents.Mail.Operations as O

-- The operation that a call of the contract is, by the catalogue's names.
unfoldable pub operation_of : {U : Type 0} → Call U → MailToolName
operation_of (search_for r) = O.search_mail
operation_of (get_message i) = O.get_mail
operation_of (get_thread i) = O.get_thread
operation_of list_labels = O.list_labels
operation_of (create_draft fresh d) = O.create_draft
operation_of (send_draft fresh now d) = O.send_mail
operation_of (mark i b) = O.mark_read
operation_of (archive_message i) = O.archive_mail
operation_of (attach i l) = O.apply_label
operation_of (detach i l) = O.remove_label
operation_of (add_named name) = O.create_label
operation_of (delete l) = O.delete_label

module _ {U : Type 0} where
  -- A method that leaves the mailbox as it is.
  abbrev Leaves : {A : Type 0} → Method (Mailbox U) A → Mailbox U → Type 0
  Leaves m box = (m box).1 ≡ box

  reply_with-Leaves :
      {A : Type 0} (f : A → Reply U) (m : Method (Mailbox U) A) (box : Mailbox U)
      → Leaves m box
      → Leaves (reply_with f m) box
  reply_with-Leaves f m box h = go (m box) h
    where
      go :
          (r : Result MailError _ × Mailbox U)
          → r.1 ≡ box
          → (continue m (λ a. pure (f a)) box r).1 ≡ box
      go (ok a, s) e = e
      go (err x, s) e = e

  or_raise-Leaves :
      {A : Type 0} (o : Option A) (e : MailError) (box : Mailbox U) → Leaves (or_raise o e) box
  or_raise-Leaves none e box = refl
  or_raise-Leaves (some a) e box = refl

  message-Leaves : (i : String) (box : Mailbox U) → Leaves (message i) box
  unfolding message
  message-Leaves i box = or_raise-Leaves (lookup i box.messages) (not_found "message" i) box

  -- An operation that the catalogue describes as reading changes nothing in the mailbox, whatever
  -- it is called with and whether it fails or not.
  pub reads-leave :
      ⦃u : Untrusted U⦄ (un : Unicode) (c : Call U) (box : Mailbox U)
      → is_write (descriptor (operation_of c)) ≡ false
      → (perform un c box).1 ≡ box
  unfolding descriptor operation_of perform search_mail thread
  reads-leave un (search_for r) box h = reply_with-Leaves T.result (search_mail un r) box refl
  reads-leave un (get_message i) box h =
      reply_with-Leaves T.one_message (message i) box (message-Leaves i box)
  reads-leave un (get_thread i) box h = reply_with-Leaves T.one_thread (thread i) box refl
  reads-leave un list_labels box h = refl
  reads-leave un _ box h = absurd (ground arith)
