-- ===== src/Mail/Mailbox/Access.antt =====
-- `message` and `require_label` change nothing, and fail exactly where the key is missing.
use ai_agents.Prelude.{◌≡◌, String, none, some, arith, string_eq}
use ai_agents.Prelude.Exec.{ok, err}
use ai_agents.Dict.{lookup}
use ai_agents.Mail.Error.{not_found}
use ai_agents.Mail.Models.{MailMessage, MailLabel}
use ai_agents.Mail.Mailbox.{Mailbox, message, require_label}

module _ {U : Type 0} where
  pub message_found :
      (i : String) (m : MailMessage U) (box : Mailbox U)
      → lookup i box.messages ≡ some m
      → message i box ≡ (ok m, box)
  unfolding message
  message_found i m box h = ground arith

  pub message_missing :
      (i : String) (box : Mailbox U)
      → lookup i box.messages ≡ none
      → message i box ≡ (err (not_found "message" i), box)
  unfolding message
  message_missing i box h = ground arith

  pub require_label_found :
      (i : String) (l : MailLabel U) (box : Mailbox U)
      → lookup i box.labels ≡ some l
      → require_label i box ≡ (ok l, box)
  unfolding require_label
  require_label_found i l box h = ground arith

  pub require_label_missing :
      (i : String) (box : Mailbox U)
      → lookup i box.labels ≡ none
      → require_label i box ≡ (err (not_found "label" i), box)
  unfolding require_label
  require_label_missing i box h = ground arith
