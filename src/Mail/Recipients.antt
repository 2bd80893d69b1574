-- ===== src/Mail/Recipients.antt =====
-- agents/mail/src/ai_agent_lab/mail/domain/services/reply_recipient_planner.py
pub mod Unique
pub mod Plan
use ai_agents.Prelude.{
  String, Bool, true, false, not, List, [], ◌∷◌, ◌++◌, contains, is_nonempty, if◌then◌else◌,
  string_eq,
}
use ai_agents.Prelude.Exec.{ok, err, and_then}
use ai_agents.Dict.{Dict, values, set_default}
use ai_agents.Mail.Error.{Checked, no_reply_recipient}
use ai_agents.Mail.Models.{EmailAddress, MailParticipant, MailMessage, address_eq}

-- A reply with no `cc`.
abbrev pub alone : List EmailAddress → Checked (List EmailAddress × List EmailAddress)
alone to = ok (to, [])

module _ {U : Type 0} where
  -- The loop of `_unique`.
  unique_from :
      List (MailParticipant U)
      → List EmailAddress
      → Dict String EmailAddress
      → Dict String EmailAddress
  unique_from [] exclude seen = seen
  unique_from (p ∷ ps) exclude seen =
      unique_from ps exclude
        (if contains p.address exclude then seen else set_default p.address.value p.address seen)

  -- `_unique`
  pub unique : List (MailParticipant U) → List EmailAddress → List EmailAddress
  unfolding unique_from set_default
  unique ps exclude = values (unique_from ps exclude [])

  -- `_require_recipients`
  abbrev pub require_recipients : List EmailAddress → MailMessage U → Checked (List EmailAddress)
  require_recipients [] m = err (no_reply_recipient m.message_id)
  require_recipients (a ∷ rest) m = ok (a ∷ rest)

  -- `ReplyRecipientPlanner.plan`: the `to` and `cc` lists of a reply.
  unfoldable pub plan :
      MailMessage U → EmailAddress → Bool → Checked (List EmailAddress × List EmailAddress)
  unfolding unique
  plan m owner reply_all =
      let primary = unique (m.sender ∷ []) (owner ∷ []) in
      let others = unique (m.to ++ m.cc) (owner ∷ primary) in
      if not reply_all
      then and_then (require_recipients primary m) alone
      else if is_nonempty primary
      then ok (primary, others)
      else and_then (require_recipients others m) alone
