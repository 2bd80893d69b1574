-- ===== src/Mail/Confirmation/Tests.antt =====
-- Confirmations on small examples: runs, and each theorem at a concrete input.
use ai_agents.Prelude.{◌≡◌, refl, String, false, none, some, inl, List, [], ◌∷◌, string_eq}
use ai_agents.Prelude.Exec.{ok}
use ai_agents.Drafts.{DraftStore}
use ai_agents.Samples.{plain, tables}
use ai_agents.Mail.Models.{MailMessage, MailDraft, normal}
use ai_agents.Mail.Mailbox.{Mailbox}
use ai_agents.Mail.Tools.{get_thread, perform}
use ai_agents.Mail.Operations.{apply_label, tool_value, descriptor}
use ai_agents.Mail.Operations.Effects.{operation_of, reads-leave}
use ai_agents.Mail.Confirmation.{housekeeping_target, Arguments, text, present, present_all}
use ai_agents.Mail.Confirmation.Subjects.{Reads, new_resolver, label_name, listed_names}
use ai_agents.Mail.Confirmation.Covered.{Describes, present-Describes}
use ai_agents.Dict.{lookup}
use ai_agents.Mail.Confirmation.Cached.{IsCached, present_all-IsCached}

abbrev invoice : MailMessage String
invoice = record {
  message_id = "m1";
  thread_id = "t1";
  subject = "Your   invoice";
  body = "please pay";
  sender = record { address = record { value = "ann@x.org" }; display_name = none };
  to = [];
  cc = [];
  sent_at = 20;
  is_read = false;
  is_archived = false;
  importance = normal;
  label_ids = [];
  attachments = [];
  in_reply_to = none;
}

abbrev answers : Reads String
answers = record {
  labels_at = λ n. some (record { label_id = "L1"; name = "Bills"; is_system = false } ∷ []);
  message_at = λ n i. some invoice;
}

abbrev store : DraftStore (MailDraft String)
store = []

abbrev labelling : Arguments
labelling = ("message_id", text "m1") ∷ ("label_id", text "L1") ∷ []

presented :
    (present answers store "me" "apply_label" labelling new_resolver).0
    ≡ ok (record {
      tool = apply_label;
      title = "Apply this label to the message?";
      target = "m1:L1";
      details =
          ("Message", "m1")
          ∷ ("Subject", "Your invoice")
          ∷ ("From", "ann@x.org")
          ∷ ("Label", "Bills (L1)")
          ∷ [];
    })
unfolding present
presented = refl

-- Two different changes with one target.
shared_target : housekeeping_target "a:b" none ≡ housekeeping_target "a" (some "b")
unfolding housekeeping_target
shared_target = refl

abbrev suspended : List (String × Arguments)
suspended =
    ("apply_label", labelling)
    ∷ ("delete_label", ("label_id", text "L1") ∷ [])
    ∷ ("search_mail", [])
    ∷ ("send_mail", ("draft_reference", text "draft-1") ∷ [])
    ∷ []

fresh-IsCached : IsCached answers new_resolver
fresh-IsCached = record { short = tt; listed = inl (refl, refl) }

present_all-IsCached_example :
    IsCached answers (present_all answers store "me" suspended new_resolver)
    × ((l : String)
        → (label_name answers l (present_all answers store "me" suspended new_resolver)).0
          ≡ lookup l (listed_names answers (answers.labels_at 0)))
present_all-IsCached_example =
    present_all-IsCached answers store "me" suspended new_resolver fresh-IsCached

present-Describes_example :
    Describes apply_label (present answers store "me" "apply_label" labelling new_resolver).0
unfolding tool_value descriptor
present-Describes_example =
    present-Describes answers store "me" apply_label labelling new_resolver refl

abbrev mailbox : Mailbox String
mailbox = record {
  owner_id = "me";
  messages = ("m1", invoice) ∷ [];
  labels = [];
  drafts = [];
  sent = [];
}

reads-leave_example : (perform tables (get_thread "t9") mailbox).1 ≡ mailbox
unfolding descriptor operation_of
reads-leave_example = reads-leave tables (get_thread "t9") mailbox refl
