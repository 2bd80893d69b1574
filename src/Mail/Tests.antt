-- ===== src/Mail/Tests.antt =====
-- The mail agent on small mailboxes: runs, and each theorem at a concrete input.
use ai_agents.Prelude.{
  ℕ, ◌≡◌, ◌↔◌, refl, String, Bool, true, false, none, some, List, [], ◌∷◌, string_eq, nat_eq,
  if◌then◌else◌, contains, select,
}
use ai_agents.Prelude.Exec.{ok, ◌>>◌}
use ai_agents.Dict.{keys, lookup}
use ai_agents.Dict.Values.{EachEntry}
use ai_agents.Text.{map_chars, is_infix, split}
use ai_agents.Samples.{plain, tables}
use ai_agents.Mail.Models.{
  MailParticipant, MailMessage, MailLabel, fyi, newsletter, other, normal, newest_first, address_eq,
}
use ai_agents.Mail.Models.Search.{MailSearchRequest, MailSearchResult}
use ai_agents.Mail.Recipients.{plan}
use ai_agents.Mail.Recipients.Plan.{IsPlanned, plan-IsPlanned}
use ai_agents.Mail.Categories.{make_categories, normalise, normalise_lem, category_eq}
use ai_agents.Mail.Matcher.{matches}
use ai_agents.Mail.Matcher.Criteria.{MeetsMetadata}
use ai_agents.Mail.Matcher.Envelope.{MeetsEnvelope, matches_iff}
use ai_agents.Mail.Mailbox.{Mailbox, make_mailbox, mint_label_id, label_named, thread}
use ai_agents.Mail.Mailbox.Valid.{IsValid}
use ai_agents.Mail.Mailbox.Minting.{mint_label_id-is_new}
use ai_agents.Mail.Mailbox.Conversation.{IsThread, members, thread-IsThread}
use ai_agents.Mail.Tools.{
  Mailboxes, Call, attach, delete, mark, run, search_mail, create_label, delete_label, apply_label,
  remove_label, set_read_state, archive,
}
use ai_agents.Mail.Tools.Isolation.{by, run_isolated, run-IsValid}
use ai_agents.Mail.Tools.Deletion.{IsDeletion, delete_label-IsDeletion}
use ai_agents.Mail.Tools.Labels.{IsCreation, create_label-IsCreation, create_label_twice}
use ai_agents.Mail.Tools.Search.{IsPage, search_mail-IsPage}
use ai_agents.Mail.Tools.State.{IsEdit, set_read_state-IsEdit, archive-IsEdit}
use ai_agents.Mail.Tools.Attachment.{
  labelled, unlabelled, IsRelabel, apply_label-IsRelabel, remove_label-IsRelabel,
}
use ai_agents.Mail.Tools.Undo.{apply-then-remove}

abbrev person : String → MailParticipant String
person a = record { address = record { value = a }; display_name = none }

abbrev mail : String → String → String → ℕ → List String → MailMessage String
mail i t from at labels = record {
  message_id = i;
  thread_id = t;
  subject = "Invoice";
  body = "please pay";
  sender = person from;
  to = person "me@x.org" ∷ person "bob@x.org" ∷ [];
  cc = person "eve@x.org" ∷ person "bob@x.org" ∷ [];
  sent_at = at;
  is_read = false;
  is_archived = false;
  importance = normal;
  label_ids = labels;
  attachments = [];
  in_reply_to = none;
}

abbrev label : String → String → Bool → MailLabel String
label i n s = record { label_id = i; name = n; is_system = s }

abbrev first_mail : MailMessage String
first_mail = mail "m1" "t1" "ann@x.org" 20 ("L1" ∷ "SYS" ∷ [])

abbrev second_mail : MailMessage String
second_mail = mail "m2" "t1" "me@x.org" 10 []

abbrev box : Mailbox String
box = record {
  owner_id = "me";
  messages = ("m1", first_mail) ∷ ("m2", second_mail) ∷ [];
  labels =
      ("L1", label "L1" "Invoices" false)
      ∷ ("SYS", label "SYS" "Inbox" true)
      ∷ ("LBL_X", label "LBL_X" "x" false)
      ∷ [];
  drafts = [];
  sent = [];
}

abbrev boxes : Mailboxes String
boxes = ("me", box) ∷ ("you", box) ∷ []

abbrev calls : List (String × Call String)
calls =
    ("me", delete "L1")
    ∷ ("you", attach "m2" "L1")
    ∷ ("me", mark "m2" true)
    ∷ ("you", delete "SYS")
    ∷ []

made_box :
    make_mailbox "me"
      (first_mail ∷ second_mail ∷ [])
      (label "L1" "Invoices" false ∷ label "SYS" "Inbox" true ∷ label "LBL_X" "x" false ∷ [])
    ≡ box
unfolding make_mailbox
made_box = refl

box-IsValid : IsValid box
box-IsValid = record {
  messages_nodup = (refl, (refl, tt));
  messages_keyed = (refl, (refl, tt));
  labels_nodup = (refl, (refl, (refl, tt)));
  labels_keyed = (refl, (refl, (refl, tt)));
  drafts_nodup = tt;
  filed = (
    record { known = (refl, (refl, tt)); once = (refl, (refl, tt)) },
    (record { known = tt; once = tt }, tt),
  );
}

minted : mint_label_id tables "x" box ≡ "LBL_x"
unfolding mint_label_id lookup
minted = refl

minted_again : mint_label_id tables "X" box ≡ "LBL_X_2"
unfolding mint_label_id lookup
minted_again = refl

found_again :
    create_label tables "invoices" box
    ≡ (ok (record { label = label "L1" "Invoices" false; created = false }), box)
unfolding create_label label_named map_chars
found_again = refl

run_isolated_example :
    lookup "you" (run tables calls boxes)
    ≡ lookup "you" (run tables (select (by "you") calls) boxes)
run_isolated_example = run_isolated tables "you" calls boxes

run-IsValid_example : EachEntry (λ k b. IsValid b) (run tables calls boxes)
run-IsValid_example = run-IsValid tables calls boxes (box-IsValid, (box-IsValid, tt))

delete_label-IsDeletion_example : IsDeletion tables "L1" box (delete_label tables "L1" box)
delete_label-IsDeletion_example = delete_label-IsDeletion tables "L1" box box-IsValid

create_label-IsCreation_example :
    IsCreation tables "invoices" box (create_label tables "invoices" box)
create_label-IsCreation_example = create_label-IsCreation tables "invoices" box

mint_label_id-is_new_example : contains (mint_label_id tables "X" box) (keys box.labels) ≡ false
mint_label_id-is_new_example = mint_label_id-is_new tables "X" box

-- "pay" and "please" both occur, whatever their order.
abbrev request : MailSearchRequest
request = record {
  keywords = some "pay please";
  sender = some (record { value = "ann@x.org" });
  recipient = none;
  subject_contains = some "";
  label_ids = "L1" ∷ [];
  date_from = some 20;
  date_to = some 20;
  unread_only = true;
  has_attachments = some false;
  limit = 1;
  sort_order = newest_first;
}

accepts_first : matches tables first_mail request ≡ true
unfolding matches is_infix split map_chars
accepts_first = refl

refuses_second : matches tables second_mail request ≡ false
unfolding matches is_infix split map_chars
refuses_second = refl

create_label_twice_example :
    create_label tables "invoices" box
    ≡ (ok (record { label = label "L1" "Invoices" false; created = false }), box)
create_label_twice_example =
    create_label_twice tables "invoices" box
      (record { label = label "L1" "Invoices" false; created = false }) box found_again

search_mail-IsPage_example :
    (res : MailSearchResult String) × (search_mail tables request box ≡ (ok res, box))
    × IsPage tables request box res
search_mail-IsPage_example = search_mail-IsPage tables request box

matches_iff_example :
    (matches tables first_mail request ≡ true)
    ↔ (MeetsEnvelope tables first_mail request × MeetsMetadata first_mail request)
matches_iff_example = matches_iff tables first_mail request

thread-IsThread_example :
    IsThread "t1" (members "t1" box) (thread "t1" box).0 × ((thread "t1" box).1 ≡ box)
thread-IsThread_example = thread-IsThread "t1" box

plan-IsPlanned_example :
    IsPlanned first_mail
      (record { value = "me@x.org" })
      true
      (plan first_mail (record { value = "me@x.org" }) true)
plan-IsPlanned_example = plan-IsPlanned first_mail (record { value = "me@x.org" }) true

apply_label-IsRelabel_example :
    IsRelabel "LBL_X" (labelled "LBL_X") "m1" box (apply_label "m1" "LBL_X" box)
apply_label-IsRelabel_example = apply_label-IsRelabel "LBL_X" "m1" box box-IsValid

remove_label-IsRelabel_example :
    IsRelabel "L1" (unlabelled "L1") "m1" box (remove_label "m1" "L1" box)
remove_label-IsRelabel_example = remove_label-IsRelabel "L1" "m1" box box-IsValid

apply-then-remove_example :
    (((apply_label "m2" "L1" >> remove_label "m2" "L1") box).0 ≡ ok tt)
    × ((j : String)
        → lookup j ((apply_label "m2" "L1" >> remove_label "m2" "L1") box).1.messages
          ≡ lookup j box.messages)
unfolding lookup
apply-then-remove_example = apply-then-remove "L1" "m2" second_mail box box-IsValid refl refl refl

set_read_state-IsEdit_example :
    IsEdit (λ m. record m { is_read = true }) "m2" box (set_read_state "m2" true box)
set_read_state-IsEdit_example = set_read_state-IsEdit "m2" true box box-IsValid

archive-IsEdit_example : IsEdit (λ m. record m { is_archived = true }) "m1" box (archive "m1" box)
archive-IsEdit_example = archive-IsEdit "m1" box box-IsValid

offer_made :
    make_categories (fyi ∷ other ∷ []) other
    ≡ ok (record { categories = fyi ∷ other ∷ []; fallback = other })
unfolding make_categories
offer_made = refl

normalise_lem_example :
    (contains
        (normalise (record { categories = fyi ∷ other ∷ []; fallback = other }) newsletter)
        (fyi ∷ other ∷ [])
      ≡ true)
    × (normalise (record { categories = fyi ∷ other ∷ []; fallback = other }) newsletter
        ≡ (if contains newsletter (fyi ∷ other ∷ []) then newsletter else other))
normalise_lem_example = normalise_lem (fyi ∷ other ∷ []) other offer_made newsletter
