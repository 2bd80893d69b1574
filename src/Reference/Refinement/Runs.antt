-- ===== src/Reference/Refinement/Runs.antt =====
-- Every tool, and runs of the tools: the reference server does what the in-memory tools do.
use ai_agents.Prelude.{◌≡◌, refl, sym, ap, subst, All, ◌∙◌, String, List, [], ◌∷◌, map}
use ai_agents.Prelude.Exec.{Result, ok, err, pure}
use ai_agents.Text.{Unicode}
use ai_agents.Runtime.{Untrusted}
use ai_agents.Protocol.MailCodes.{MailServerError}
use ai_agents.Mail.Error.{MailError, Method}
use ai_agents.Mail.Models.{MailLabel}
use ai_agents.Mail.Mailbox as M
use ai_agents.Mail.Mailbox.{Mailbox}
use ai_agents.Mail.Tools as T
use ai_agents.Mail.Tools.{Call, Reply, perform, reply_with}
use ai_agents.Wire.Mapping.{labels, label_outcome}
use ai_agents.Wire.Fencing.{fenced_message, fenced_thread, fenced_result, fenced_draft, sent_as}
use ai_agents.Reference as R
use ai_agents.Reference.{InMemoryMailbox, Action}
use ai_agents.Reference.Tools.{
  ToolCall, search_mail, get_mail, get_conversation, labels_of_mailbox, save_draft, send_mail,
  mark_read, archive_mail, attach_label, detach_label, make_label, drop_label, Answer, hits, mail,
  conversation, saved, delivered, made, acknowledged, answer, answer_with,
}
use ai_agents.Reference.Refinement.{told, view, shown, shown->>=, call_as, reply_as}
use ai_agents.Reference.Refinement.Matching.{search-refines}
use ai_agents.Reference.Refinement.Reading.{
  require-refines, thread-refines, save-refines, send-refines, set_read_state-refines,
  archive-refines,
}
use ai_agents.Reference.Refinement.Labelling.{create_label-refines, values-label_dict}
use ai_agents.Reference.Refinement.Attaching.{
  apply_label-refines, remove_label-refines, delete_label-refines,
}
use ai_agents.Reference.Refinement.Clean.{IsCleanMailbox, IsCleanCall, IsCleanAnswer, Holds}
use ai_agents.Reference.Refinement.Clean.Acts.{answer-Gives}
use ai_agents.Reference.Refinement.Shown.{
  IsShown, view-IsShown, shown_once, read_answer_ok, read_outcome,
}
use ai_agents.Reference.Refinement.Sound.{
  IsSound, Keeps, Keeps->>=, require-Keeps, set_read_state-Keeps, archive-Keeps, apply_label-Keeps,
  remove_label-Keeps, delete_label-Keeps, create_label-Keeps,
}

-- Each tool of the reference server leaves a sound mailbox sound: messages stand once and under their
-- own identifiers, and no two labels share theirs.
pub answer-Keeps : (un : Unicode) (c : ToolCall) → Keeps (answer un c)
unfolding answer R.search R.require R.get_thread R.list_labels R.create_draft R.send
answer-Keeps un (search_mail s) = λ box v. v
answer-Keeps un (get_mail i) =
    Keeps->>= (R.require i) (λ m. pure (mail m)) (require-Keeps i) (λ _ box v. v)
answer-Keeps un (get_conversation i) =
    Keeps->>= (R.get_thread i) (λ t. pure (conversation t)) (λ box v. v) (λ _ box v. v)
answer-Keeps un labels_of_mailbox = λ box v. v
answer-Keeps un (save_draft fresh d) = λ box v. record {
  messages_nodup = v.messages_nodup;
  messages_keyed = v.messages_keyed;
  labels_nodup = v.labels_nodup;
}
answer-Keeps un (send_mail fresh now d) = λ box v. record {
  messages_nodup = v.messages_nodup;
  messages_keyed = v.messages_keyed;
  labels_nodup = v.labels_nodup;
}
answer-Keeps un (mark_read i b) =
    Keeps->>= (R.set_read_state i b) (λ _. pure acknowledged) (set_read_state-Keeps i b)
      (λ _ box v. v)
answer-Keeps un (archive_mail i) =
    Keeps->>= (R.archive i) (λ _. pure acknowledged) (archive-Keeps i) (λ _ box v. v)
answer-Keeps un (attach_label i l) =
    Keeps->>= (R.apply_label i l) (λ _. pure acknowledged) (apply_label-Keeps i l) (λ _ box v. v)
answer-Keeps un (detach_label i l) =
    Keeps->>= (R.remove_label i l) (λ _. pure acknowledged) (remove_label-Keeps i l) (λ _ box v. v)
answer-Keeps un (make_label name) =
    Keeps->>= (R.create_label un name) (λ o. pure (made o)) (create_label-Keeps un name)
      (λ _ box v. v)
answer-Keeps un (drop_label l) =
    Keeps->>= (R.delete_label un l) (λ _. pure acknowledged) (delete_label-Keeps un l)
      (λ _ box v. v)

-- A run of tools, one after the other: what each one came to, and the mailbox at the end.
unfoldable pub answer_all :
    Unicode
    → List ToolCall
    → InMemoryMailbox
    → List (Result MailServerError Answer) × InMemoryMailbox
unfolding answer
answer_all un [] box = ([], box)
answer_all un (c ∷ cs) box =
    let (r, box') = answer un c box in let (rs, last) = answer_all un cs box' in (r ∷ rs, last)

module _ (U : Type 0) ⦃u : Untrusted U⦄ (un : Unicode) (owner : String) where
  replied :
      {A B : Type 0} (f : A → B) (g : B → Reply U) (h : A → Answer) (m : Action A)
      (m' : Method (Mailbox U) B) (box : InMemoryMailbox)
      → ((a : A) → g (f a) ≡ reply_as (h a))
      → m' (view owner box) ≡ shown f owner (m box)
      → reply_with g m' (view owner box) ≡ shown reply_as owner (answer_with h m box)
  replied f g h m m' box same e =
      shown->>= f reply_as owner m (λ a. pure (h a)) m' (λ b. pure (g b)) box e
        (λ a s _. ap (λ r. (ok r, view owner s)) (same a))

  -- In a sound mailbox, each tool of the reference server answers what the in-memory tools reply
  -- on the mailbox that it is shown as, fails where they fail and with the same failure, and leaves
  -- the mailbox that they leave.
  pub answer-refines :
      (c : ToolCall) (box : InMemoryMailbox)
      → IsSound box
      → perform un (call_as {U = U} c) (view owner box) ≡ shown reply_as owner (answer un c box)
  unfolding perform call_as answer reply_as R.list_labels labels
  answer-refines (search_mail s) box v =
      replied fenced_result T.result hits (R.search un s) (T.search_mail un _) box (λ a. refl)
        (search-refines U un owner s box)
  answer-refines (get_mail i) box v =
      replied fenced_message T.one_message mail (R.require i) (M.message i) box (λ a. refl)
        (require-refines U owner i box)
  answer-refines (get_conversation i) box v =
      replied fenced_thread T.one_thread conversation (R.get_thread i) (M.thread i) box (λ a. refl)
        (thread-refines U owner i box)
  answer-refines labels_of_mailbox box v =
      ap (λ (ls : List (MailLabel U)). (ok (T.all_labels ls), view owner box))
        (values-label_dict U box.labels)
  answer-refines (save_draft fresh d) box v =
      replied fenced_draft T.draft saved (R.create_draft fresh d) (M.store_draft fresh _) box
        (λ a. refl) (save-refines U owner fresh d box)
  answer-refines (send_mail fresh now d) box v =
      replied sent_as T.sent delivered (R.send fresh now d) (T.send fresh now (fenced_draft d)) box
        (λ a. refl) (send-refines U owner fresh now d box)
  answer-refines (mark_read i b) box v =
      replied (λ x. x) (λ _. T.done) (λ _. acknowledged) (R.set_read_state i b)
        (T.set_read_state i b) box (λ a. refl) (set_read_state-refines U owner i b box)
  answer-refines (archive_mail i) box v =
      replied (λ x. x) (λ _. T.done) (λ _. acknowledged) (R.archive i) (T.archive i) box (λ a. refl)
        (archive-refines U owner i box)
  answer-refines (attach_label i l) box v =
      replied (λ x. x) (λ _. T.done) (λ _. acknowledged) (R.apply_label i l) (T.apply_label i l) box
        (λ a. refl) (apply_label-refines U owner i l box)
  answer-refines (detach_label i l) box v =
      replied (λ x. x) (λ _. T.done) (λ _. acknowledged) (R.remove_label i l) (T.remove_label i l)
        box (λ a. refl) (remove_label-refines U owner i l box)
  answer-refines (make_label name) box v =
      replied label_outcome T.outcome made (R.create_label un name) (T.create_label un name) box
        (λ a. refl) (create_label-refines U un name owner box)
  answer-refines (drop_label l) box v =
      replied (λ x. x) (λ _. T.done) (λ _. acknowledged) (R.delete_label un l) (T.delete_label un l)
        box (λ a. refl) (delete_label-refines U owner un l box v)

  -- A run of calls, one after the other: what each one came to, and the mailbox at the end.
  abbrev pub perform_all : List (Call U) → Mailbox U → List (Result MailError (Reply U)) × Mailbox U
  perform_all [] box = ([], box)
  perform_all (c ∷ cs) box =
      let (r, box') = perform un c box in let (rs, last) = perform_all cs box' in (r ∷ rs, last)

  abbrev pub told_reply : Result MailServerError Answer → Result MailError (Reply U)
  told_reply (ok a) = ok (reply_as a)
  told_reply (err e) = err (told e)

  split_shown :
      (r : Result MailServerError Answer) (box : InMemoryMailbox)
      → shown {U = U} reply_as owner (r, box) ≡ (told_reply r, view owner box)
  split_shown (ok a) box = refl
  split_shown (err e) box = refl

  -- The rest of a run after its first call.
  abbrev after_first :
      List (Call U)
      → Result MailError (Reply U) × Mailbox U
      → List (Result MailError (Reply U)) × Mailbox U
  after_first cs (r, box) = let (rs, last) = perform_all cs box in (r ∷ rs, last)

  -- A run on the view of a mailbox.
  answer_all-view :
      (cs : List ToolCall) (box : InMemoryMailbox)
      → IsSound box
      → perform_all (map call_as cs) (view owner box)
        ≡ (map told_reply (answer_all un cs box).0, view owner (answer_all un cs box).1)
  unfolding answer_all
  answer_all-view [] box v = refl
  answer_all-view (c ∷ cs) box v =
      let rest = answer_all-view cs (answer un c box).1 (answer-Keeps un c box v) in
      ap (after_first (map call_as cs))
        (answer-refines c box v ∙ split_shown (answer un c box).0 (answer un c box).1)
      ∙ ap
          (λ (p : List (Result MailError (Reply U)) × Mailbox U).
            (told_reply (answer un c box).0 ∷ p.0, p.1))
          rest

  -- A run leaves a clean mailbox clean, and the mapper makes the replies of its answers.
  run_clean :
      (cs : List ToolCall) (box : InMemoryMailbox)
      → IsCleanMailbox un box
      → All (IsCleanCall un) cs
      → IsCleanMailbox un (answer_all un cs box).1
        × (map told_reply (answer_all un cs box).0
            ≡ map (read_outcome {U = U} un) (answer_all un cs box).0)
  unfolding answer_all
  run_clean [] box v h = (v, refl)
  run_clean (c ∷ cs) box v h =
      let first = answer-Gives un c h.0 box v in
      let rest = run_clean cs (answer un c box).1 first.0 h.1 in
      (rest.0, rw (told_as_read (answer un c box).0 first.1, rest.1) refl)
    where
      told_as_read :
          (r : Result MailServerError Answer)
          → Holds un (IsCleanAnswer un) r
          → told_reply r ≡ read_outcome {U = U} un r
      told_as_read (ok a) k = sym (read_answer_ok un a k)
      told_as_read (err e) k = refl

  -- Of a sound mailbox of the server whose addresses are valid and in normal form and whose dates
  -- carry a time zone, let the agent's mapper make a mailbox of the contract. Then any run of the
  -- tools of the server, with calls whose addresses are valid and in normal form and whose drafts
  -- have a recipient, gives what the mapper turns into the replies and failures that the same run of
  -- the in-memory tools gives, in the same order; and the mapper makes of the mailbox that the server
  -- ends with the one that the in-memory tools end with.
  pub answer_all-refines :
      (cs : List ToolCall) (box : InMemoryMailbox) (box' : Mailbox U)
      → IsSound box
      → IsCleanMailbox un box
      → All (IsCleanCall un) cs
      → IsShown un owner box box'
      → ((perform_all (map call_as cs) box').0 ≡ map (read_outcome un) (answer_all un cs box).0)
        × IsShown un owner (answer_all un cs box).1 (perform_all (map call_as cs) box').1
  answer_all-refines cs box box' v clean calls s =
      let run =
        ap (perform_all (map call_as cs)) (shown_once un owner box box' clean s)
        ∙ answer_all-view cs box v in
      let kept = run_clean cs box clean calls in
      (
        ap (λ p. p.0) run ∙ kept.1,
        subst (IsShown un owner (answer_all un cs box).1) (sym (ap (λ p. p.1) run))
            (view-IsShown un owner (answer_all un cs box).1 kept.0),
      )
