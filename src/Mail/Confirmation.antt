-- ===== src/Mail/Confirmation.antt =====
-- What a user is shown before a gated operation: agents/mail/src/ai_agent_lab/mail/application/
-- confirmations/targets.py and presenter.py, and the descriptions that
-- application/skills/management_skill.py and send_skill.py build.
pub mod Subjects
pub mod Covered
pub mod Cached
pub mod Tests
use ai_agents.Prelude.{
  ℕ, leb, String, Bool, true, false, ◌&&◌, Option, none, some, List, [], ◌∷◌, ◌++◌, map, ◌==◌,
  string_eq, if◌then◌else◌, is_nonempty,
}
use ai_agents.Prelude.Exec.{Result, ok, err, Exec, pure, raise, lift, ◌>>=◌}
use ai_agents.Dict.{Dict, lookup}
use ai_agents.Text.{concat, join}
use ai_agents.Text.Find.{size}
use ai_agents.Text.Slice.{keep}
use ai_agents.Drafts.{DraftStore, DraftError, draft_not_found, get}
use ai_agents.Runtime.{Untrusted}
use ai_agents.Mail.Error.{MailError, unknown_gated_tool}
use ai_agents.Mail.Error as Error
use ai_agents.Mail.Models.{EmailAddress, MailDraft}
use ai_agents.Mail.Operations.{
  MailToolName, send_mail, mark_read, archive_mail, apply_label, remove_label, create_label,
  delete_label, tool_named,
}
use ai_agents.Mail.Confirmation.Subjects.{
  MailSubject, Resolver, Reads, describe_message, label_name,
}

-- `housekeeping_target`
unfoldable pub housekeeping_target : String → Option String → String
housekeeping_target message_id none = message_id
housekeeping_target message_id (some label_id) = concat (message_id ∷ ":" ∷ label_id ∷ [])

-- What `GatedMailOperationRunner.build_confirmation_request` is called with.
pub record Proposal : Type 0 where
  pub tool : MailToolName
  pub title : String
  pub target : String
  pub details : List (String × String)

-- `_TITLES`. The presenter asks for the title of these six tools only.
unfoldable pub title_of : MailToolName → String
title_of mark_read = "Change the read state of this message?"
title_of archive_mail = "Archive this message?"
title_of apply_label = "Apply this label to the message?"
title_of remove_label = "Remove this label from the message?"
title_of create_label = "Create this label in the mailbox?"
title_of delete_label = "Delete this label from the mailbox, and from every message carrying it?"
title_of _ = ""

-- `_named`
unfoldable pub named : String → Option String → String
named identifier none = identifier
named identifier (some name) =
    if name == "" then identifier else concat (name ∷ " (" ∷ identifier ∷ ")" ∷ [])

-- A detail that is shown where its value is known.
abbrev pub shown_if : {A : Type 0} → String → (A → String) → Option A → List (String × String)
shown_if caption text none = []
shown_if caption text (some a) = (caption, text a) ∷ []

abbrev pub state_text : Bool → String
state_text is_read = if is_read then "read" else "unread"

abbrev pub or_target : String → String → String
or_target target message_id = if target == "" then message_id else target

-- `MailManagementSkill.build_confirmation_request`
unfoldable pub message_proposal :
    MailToolName
    → String
    → Option String
    → Option String
    → Option Bool
    → Option MailSubject
    → String
    → Proposal
unfolding title_of named
message_proposal tool message_id label_id label_name is_read described target = record {
  tool = tool;
  title = title_of tool;
  target = or_target target message_id;
  details =
      (("Message", message_id) ∷ [])
      ++ shown_if "Subject" (λ (d : MailSubject). d.subject) described
      ++ shown_if "From" (λ (d : MailSubject). d.sender) described
      ++ shown_if "Label" (λ i. named i label_name) label_id
      ++ shown_if "New state" state_text is_read;
}

-- `build_label_confirmation_request`
unfoldable pub label_proposal : MailToolName → String → Option String → Proposal
unfolding title_of named
label_proposal tool label label_name = record {
  tool = tool;
  title = title_of tool;
  target = label;
  details = ("Label", named label label_name) ∷ [];
}

-- `_BODY_PREVIEW_CHARACTERS`
abbrev pub body_preview_characters : ℕ
body_preview_characters = 600

-- `_preview`
unfoldable pub preview : String → String
unfolding keep size
preview body =
    if leb (size body) body_preview_characters
    then body
    else concat (keep body_preview_characters body ∷ "\n[...]" ∷ [])

abbrev pub addresses : List EmailAddress → String
addresses as_ = join ", " (map (λ (a : EmailAddress). a.value) as_)

-- `SendMailSkill.build_confirmation_request`
unfoldable pub send_proposal : {U : Type 0} ⦃u : Untrusted U⦄ → MailDraft U → String → Proposal
unfolding preview join
send_proposal ⦃u⦄ draft target = record {
  tool = send_mail;
  title = "Send this email?";
  target = target;
  details =
      (("To", addresses draft.to) ∷ [])
      ++ (if is_nonempty draft.cc then ("Cc", addresses draft.cc) ∷ [] else [])
      ++ ("Subject", u.expose draft.subject) ∷ ("Body", preview (u.expose draft.body)) ∷ [];
}

-- The arguments that a model proposes: JSON values, those of other kinds by their `str`.
pub data Argument : Type 0 where
  null : Argument
  text : String → Argument
  truth : Bool → Argument
  other : String → Argument

-- `str(value)`
abbrev pub as_text : Argument → String
as_text null = "None"
as_text (text s) = s
as_text (truth b) = if b then "True" else "False"
as_text (other s) = s

-- `str(arguments.get(key, ""))`
abbrev pub required_text : Option Argument → String
required_text none = ""
required_text (some a) = as_text a

-- `_optional_str(arguments.get(key))`
abbrev pub optional_text : Option Argument → Option String
optional_text none = none
optional_text (some null) = none
optional_text (some a) = some (as_text a)

-- `arguments.get(key)`, where it is a `bool`.
abbrev pub only_truth : Option Argument → Option Bool
only_truth (some (truth b)) = some b
only_truth _ = none

abbrev pub Arguments : Type 0
Arguments = Dict String Argument

-- `DraftNotFoundError` of the store, or the description of the draft.
unfoldable pub with_draft :
    {U : Type 0} ⦃u : Untrusted U⦄
    → String
    → Result DraftError (MailDraft U)
    → Exec MailError Resolver Proposal
unfolding send_proposal
with_draft reference (ok draft) = pure (send_proposal draft reference)
with_draft reference (err (draft_not_found missing)) = raise (Error.draft_not_found missing)

module _ {U : Type 0} ⦃u : Untrusted U⦄ (reads : Reads U) where
  -- The label name that a description asks for, where there is a label.
  abbrev pub named_label : Option String → Resolver → Option String × Resolver
  named_label none r = (none, r)
  named_label (some label_id) r = label_name reads label_id r

  -- `_present_housekeeping`
  unfoldable pub present_housekeeping : MailToolName → Arguments → Exec MailError Resolver Proposal
  unfolding lookup describe_message label_name message_proposal housekeeping_target
  present_housekeeping tool arguments r =
      let message_id = required_text (lookup "message_id" arguments) in
      let label_id = optional_text (lookup "label_id" arguments) in
      let is_read = only_truth (lookup "is_read" arguments) in
      let (described, r') = describe_message reads message_id r in
      let (name, r'') = named_label label_id r' in
      (
        ok (
            message_proposal tool message_id label_id name is_read described
              (housekeeping_target message_id label_id)),
        r'',
      )

  -- `_present_label_lifecycle`, for a deletion
  unfoldable pub present_deletion : Arguments → Exec MailError Resolver Proposal
  unfolding lookup label_name label_proposal
  present_deletion arguments r =
      let label_id = required_text (lookup "label_id" arguments) in
      let (name, r') = label_name reads label_id r in
      (ok (label_proposal delete_label label_id name), r')

  -- `_present_label_lifecycle`, for a creation
  unfoldable pub present_creation : Arguments → Exec MailError Resolver Proposal
  unfolding lookup label_proposal
  present_creation arguments =
      pure (label_proposal create_label (required_text (lookup "name" arguments)) none)

  module _ (drafts : DraftStore (MailDraft U)) (user_id : String) where
    -- `_present_send`
    unfoldable pub present_send : Arguments → Exec MailError Resolver Proposal
    unfolding lookup get with_draft
    present_send arguments =
        let reference = required_text (lookup "draft_reference" arguments) in
        with_draft reference (get reference user_id drafts)

    abbrev pub present_tool :
        String → Option MailToolName → Arguments → Exec MailError Resolver Proposal
    present_tool name (some send_mail) arguments = present_send arguments
    present_tool name (some mark_read) arguments = present_housekeeping mark_read arguments
    present_tool name (some archive_mail) arguments = present_housekeeping archive_mail arguments
    present_tool name (some apply_label) arguments = present_housekeeping apply_label arguments
    present_tool name (some remove_label) arguments = present_housekeeping remove_label arguments
    present_tool name (some create_label) arguments = present_creation arguments
    present_tool name (some delete_label) arguments = present_deletion arguments
    present_tool name _ arguments = raise (unknown_gated_tool name)

    -- `present`
    unfoldable pub present : String → Arguments → Exec MailError Resolver Proposal
    unfolding tool_named present_send present_housekeeping present_creation present_deletion
    present tool_name arguments = present_tool tool_name (tool_named tool_name) arguments

    -- The resolver after several suspended calls were presented.
    abbrev pub present_all : List (String × Arguments) → Resolver → Resolver
    present_all [] r = r
    present_all ((name, arguments) ∷ calls) r = present_all calls (present name arguments r).1
