-- ===== src/Reference/Refinement/Tests.antt =====
-- The reference server on a small mailbox: runs, and each theorem at a concrete input.
use ai_agents.Prelude.{◌≡◌, refl, String, true, false, none, some, List, [], ◌∷◌, map, string_eq}
use ai_agents.Prelude.Exec.{Result, ok, err}
use ai_agents.Dict.{lookup, insert}
use ai_agents.Text.{map_chars, strip_by, is_space}
use ai_agents.Protocol.MailCodes.{MailServerError, not_found_error, access_denied_error}
use ai_agents.Samples.{plain, tables}
use ai_agents.Mail.Matcher.{matches}
use ai_agents.Wire.{Participant, Message, normal}
use ai_agents.Mail.Models.{newest_first}
use ai_agents.Mail.Models.Search.{MailSearchRequest}
use ai_agents.Client.{asked}
use ai_agents.Reference.Refinement.Clean.{IsCleanMailbox}
use ai_agents.Reference.Refinement.Shown.{IsShown, view-IsShown, read_outcome}
use ai_agents.Wire.Mapping.{message}
use ai_agents.Wire.Fencing.{IsCleanMessage, fenced_message, message-fenced, message_ok}
use ai_agents.Mail.Models.Address.{make_address}
use ai_agents.Reference.{InMemoryMailbox, apply_label, delete_label, create_label}
use ai_agents.Reference.Query.{satisfies}
use ai_agents.Reference.Tools.{
  ToolCall, Answer, answer, get_mail, attach_label, make_label, drop_label,
}
use ai_agents.Reference.Refinement.{view, call_as}
use ai_agents.Reference.Refinement.Matching.{matches-eq-satisfies}
use ai_agents.Reference.Refinement.Sound.{IsSound}
use ai_agents.Reference.Refinement.Runs.{answer-Keeps, perform_all, answer_all, answer_all-refines}

abbrev pub person : String → Participant
person a = record { address = a; display_name = some "Somebody" }

abbrev pub first_mail : Message
first_mail = record {
  message_id = "m1";
  thread_id = "t1";
  subject = "Invoice";
  body = "please pay";
  sender = person "ann@x.org";
  to = person "me@x.org" ∷ [];
  cc = [];
  sent_at = 20;
  has_timezone = true;
  is_read = false;
  is_archived = false;
  importance = normal;
  label_ids = "L1" ∷ [];
  attachments = [];
  in_reply_to = none;
}

abbrev pub served : InMemoryMailbox
served = record {
  messages = ("m1", first_mail) ∷ [];
  labels =
      record { label_id = "L1"; name = "Invoices"; is_system = false }
      ∷ record { label_id = "INBOX"; name = "Inbox"; is_system = true }
      ∷ [];
  drafts = [];
  sent = [];
}

pub served-IsSound : IsSound served
served-IsSound = record {
  messages_nodup = (refl, tt);
  messages_keyed = (refl, tt);
  labels_nodup = (refl, (refl, tt));
}

abbrev pay : MailSearchRequest
pay = record {
  keywords = some "pay";
  sender = some (record { value = "ann@x.org" });
  recipient = some (record { value = "me@x.org" });
  subject_contains = some "INVOICE";
  label_ids = "L1" ∷ [];
  date_from = some 10;
  date_to = none;
  unread_only = true;
  has_attachments = some false;
  limit = 5;
  sort_order = newest_first;
}

abbrev calls : List ToolCall
calls =
    attach_label "m1" "INBOX"
    ∷ drop_label "INBOX"
    ∷ make_label "invoices"
    ∷ drop_label "L1"
    ∷ get_mail "m2"
    ∷ []

-- What the calls of the run come to: the deletion of the system label and the missing message fail.
abbrev is_failure : Result MailServerError Answer → String
is_failure (ok a) = "ok"
is_failure (err (not_found_error resource identifier)) = identifier
is_failure (err (access_denied_error detail)) = detail
is_failure (err _) = "other"

run_outcomes :
    map is_failure (answer_all tables calls served).0
    ≡ "ok" ∷ "label 'Inbox' is a system label and cannot be deleted" ∷ "ok" ∷ "ok" ∷ "m2" ∷ []
unfolding answer_all map_chars apply_label lookup delete_label create_label insert
run_outcomes = refl

pub clean : IsCleanMessage tables first_mail
unfolding make_address map_chars strip_by is_space
clean = (refl, (refl, tt), tt, refl)

pub served-IsClean : IsCleanMailbox tables served
served-IsClean = record { messages = (clean, tt); drafts = tt; sent = tt }

answer_all-refines_example :
    ((perform_all String tables "me" (map call_as calls) (view "me" served)).0
      ≡ map (read_outcome tables) (answer_all tables calls served).0)
    × IsShown tables "me"
        (answer_all tables calls served).1
        (perform_all String tables "me" (map call_as calls) (view "me" served)).1
answer_all-refines_example =
    answer_all-refines String tables "me" calls served (view "me" served) served-IsSound
      served-IsClean (tt, (tt, (tt, (tt, (tt, tt)))))
      (view-IsShown tables "me" served served-IsClean)

matches-eq-satisfies_example :
    matches {U = String} tables (fenced_message first_mail) pay
    ≡ satisfies tables (asked pay).query first_mail
matches-eq-satisfies_example =
    matches-eq-satisfies String tables pay first_mail (fenced_message first_mail) clean
      (message_ok tables first_mail clean)

answer-Keeps_example : IsSound (answer tables (drop_label "L1") served).1
answer-Keeps_example = answer-Keeps tables (drop_label "L1") served served-IsSound

message-fenced_example : message {U = String} tables first_mail ≡ ok (fenced_message first_mail)
message-fenced_example = message-fenced tables first_mail clean.0 clean.1 clean.2
