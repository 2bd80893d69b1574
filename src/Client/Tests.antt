-- ===== src/Client/Tests.antt =====
-- The client and the reference server together on a small mailbox.
use ai_agents.Prelude.{◌≡◌, refl, String, true, [], ◌∷◌, string_eq}
use ai_agents.Prelude.Exec.{err}
use ai_agents.Dict.{lookup}
use ai_agents.Text.{is_space, is_prefix}
use ai_agents.Samples.{plain, tables}
use ai_agents.Protocol.{marker}
use ai_agents.Client.Trimming.{cannot_start}
use ai_agents.Protocol.MailCodes.{
  MailErrorCode, mail_codes, not_found, access_denied, unavailable, protocol, mail_code_value,
  access_denied_error, mail_not_found, mail_tool_protocol, reported, decode_failure,
}
use ai_agents.Mail.Tools.{perform}
use ai_agents.Reference.{require}
use ai_agents.Reference.Tools.{get_mail, drop_label}
use ai_agents.Reference.Refinement.{view, call_as}
use ai_agents.Reference.Refinement.Tests.{served, served-IsSound, served-IsClean}
use ai_agents.Reference.Refinement.Shown.{view-IsShown}
use ai_agents.Client.{MailboxDataset, text_of, refusal, invoke}
use ai_agents.Client.Agreement.{IsNeutral, Agrees, invoke-Agrees}

abbrev mailboxes : MailboxDataset
mailboxes = ("you", served) ∷ ("me", served) ∷ []

abbrev context : String
context = "Error executing tool get_mail: "

missing_message :
    invoke tables context "me" "me" (get_mail "m2") mailboxes
    ≡ (err (mail_not_found "message 'm2' was not found"), mailboxes)
unfolding invoke is_prefix require
missing_message = refl

another_user :
    invoke tables context "me" "you" (drop_label "L1") mailboxes
    ≡ (err (refusal tables "you"), mailboxes)
unfolding invoke
another_user = refl

-- A failure without a text loses its code: the blank behind the colon is taken off before the text
-- is decoded.
blank_loses_code :
    decode_failure tables (text_of "" (reported tables (access_denied_error "")))
    ≡ mail_tool_protocol "mail_access_denied:"
unfolding decode_failure text_of reported is_prefix
blank_loses_code = refl

context-quiet : (c : MailErrorCode) → cannot_start (marker c) context ≡ true
unfolding mail_code_value is_prefix
context-quiet not_found = refl
context-quiet access_denied = refl
context-quiet unavailable = refl
context-quiet protocol = refl

context-IsNeutral : IsNeutral context
unfolding is_space
context-IsNeutral = record { bare = refl; quiet = context-quiet }

invoke-Agrees_example :
    Agrees tables String "me" context
      (invoke tables context "me" "me" (drop_label "L1") mailboxes)
      (perform tables (call_as (drop_label "L1")) (view "me" served))
unfolding lookup
invoke-Agrees_example =
    invoke-Agrees tables String "me" context (drop_label "L1") mailboxes served (view "me" served)
      refl served-IsSound served-IsClean tt (view-IsShown tables "me" served served-IsClean)
      context-IsNeutral
