-- ===== src/Mail/Confirmation/Covered.antt =====
-- Every operation that the catalogue gates can be described.
use ai_agents.Prelude.{◌≡◌, refl, String, true, string_eq, arith}
use ai_agents.Prelude.Exec.{Result, ok, err}
use ai_agents.Drafts.{DraftStore, DraftError, get}
use ai_agents.Drafts.{draft_not_found as missing}
use ai_agents.Runtime.{Untrusted}
use ai_agents.Mail.Error.{MailError, draft_not_found}
use ai_agents.Mail.Models.{MailDraft}
use ai_agents.Mail.Operations.{
  MailToolName, send_mail, mark_read, archive_mail, apply_label, remove_label, delete_label,
  tool_value, descriptor,
}
use ai_agents.Mail.Confirmation.{
  Proposal, Arguments, with_draft, present, present_send, present_housekeeping, present_creation,
  present_deletion, message_proposal, label_proposal, send_proposal,
}
use ai_agents.Mail.Confirmation.Subjects.{Resolver, Reads}

-- A description of the tool, or that the draft to send is not there.
abbrev pub Describes : MailToolName → Result MailError Proposal → Type 0
Describes t (ok p) = p.tool ≡ t
Describes t (err (draft_not_found reference)) = t ≡ send_mail
Describes t (err _) = ⊥

with_draft-Describes :
    {U : Type 0} ⦃u : Untrusted U⦄ (reference : String) (found : Result DraftError (MailDraft U))
    (r : Resolver)
    → Describes send_mail (with_draft reference found r).0
unfolding with_draft send_proposal
with_draft-Describes reference (ok d) r = refl
with_draft-Describes reference (err (missing ref)) r = refl

module _ {U : Type 0} ⦃u : Untrusted U⦄ (reads : Reads U) (drafts : DraftStore (MailDraft U))
    (user_id : String) where
  -- The presenter describes every operation for which the catalogue asks a confirmation by default:
  -- the description names that operation, unless the draft of a send is not in the store. No gated
  -- operation is ever refused as unknown.
  pub present-Describes :
      (t : MailToolName) (arguments : Arguments) (r : Resolver)
      → (descriptor t).confirmation_required_by_default ≡ true
      → Describes t (present reads drafts user_id (tool_value t) arguments r).0
  unfolding present present_send present_housekeeping present_creation present_deletion descriptor
      tool_value message_proposal label_proposal
  present-Describes send_mail arguments r h = with_draft-Describes _ (get _ user_id drafts) r
  present-Describes mark_read arguments r h = refl
  present-Describes archive_mail arguments r h = refl
  present-Describes apply_label arguments r h = refl
  present-Describes remove_label arguments r h = refl
  present-Describes delete_label arguments r h = refl
  present-Describes _ arguments r h = absurd (ground arith)
