-- ===== src/Client/Agreement.antt =====
-- The client and the server together against the contract.
use ai_agents.Prelude.{◌≡◌, sym, ap, subst, ◌∙◌, String, true, some, string_eq, eq_refl}
use ai_agents.Prelude.Exec.{Result, ok, err}
use ai_agents.Dict.{lookup, insert, lookup-insert_same}
use ai_agents.Text.{Unicode, is_space, strip_right}
use ai_agents.Runtime.{Untrusted}
use ai_agents.Protocol.{marker, encode, decode, strip, or_else}
use ai_agents.Protocol.Decoding.{decode-encode}
use ai_agents.Protocol.MailCodes.{
  MailErrorCode, mail_codes, mail_members, not_found, access_denied, unavailable, protocol,
  MailServerError, not_found_error, access_denied_error, unavailable_error, protocol_error,
  server_code, server_text, reported, ToolFailure, mail_not_found, mail_access_denied,
  mail_tool_unavailable, mail_tool_protocol, failure_from, tool_failure, mail_code_value,
  decode_failure,
}
use ai_agents.Protocol.MailCodes as P
use ai_agents.Mail.Error.{MailError, tool_unavailable, tool_protocol}
use ai_agents.Mail.Error as Error
use ai_agents.Mail.Mailbox.{Mailbox}
use ai_agents.Mail.Tools.{Reply, perform}
use ai_agents.Reference.{InMemoryMailbox}
use ai_agents.Reference.Tools.{ToolCall, Answer, answer}
use ai_agents.Reference.Refinement.{told, view, shown, call_as, reply_as}
use ai_agents.Reference.Refinement.Clean.{IsCleanMailbox, IsCleanCall, IsCleanAnswer, Holds}
use ai_agents.Reference.Refinement.Clean.Acts.{answer-Gives}
use ai_agents.Reference.Refinement.Shown.{
  IsShown, view-IsShown, shown_once, read_answer, read_answer_ok,
}
use ai_agents.Reference.Refinement.Sound.{IsSound}
use ai_agents.Reference.Refinement.Runs.{answer-refines}
use ai_agents.Client.{MailboxDataset, serve_tool, text_of, read_result, invoke}
use ai_agents.Client.Trimming.{cannot_start, silent_anywhere, starts_bare, strip-report}
use ai_agents.Client.Telling.{IsTelling, TellsOf, answer-Tells}
use Prim.Native.String.{◌++◌ as str_append}

-- A context that starts with no white space, and in which no code can start.
pub record IsNeutral (context : String) : Type 0 where
  pub bare : starts_bare context ≡ true
  pub quiet : (c : MailErrorCode) → cannot_start (marker c) context ≡ true

-- The client raises the exception of the class that the contract raises.
abbrev pub SameClass : ToolFailure → MailError → Type 0
SameClass (mail_not_found text) (Error.not_found resource identifier) = Unit
SameClass (mail_access_denied text) (Error.access_denied detail) = Unit
SameClass (mail_tool_unavailable text) (tool_unavailable detail) = Unit
SameClass (mail_tool_protocol text) (tool_protocol detail) = Unit
SameClass _ _ = ⊥

module _ (un : Unicode) where
  failure_from-class :
      (e : MailServerError) (text : String)
      → SameClass (failure_from un (server_code e, text)) (told e)
  unfolding server_code tool_failure mail_code_value P.mail_not_found_error
      P.mail_access_denied_error
  failure_from-class (not_found_error resource identifier) text = tt
  failure_from-class (access_denied_error detail) text = tt
  failure_from-class (unavailable_error detail) text = tt
  failure_from-class (protocol_error detail) text = tt

  read_failure-class :
      (context : String) (e : MailServerError)
      → IsNeutral context
      → IsTelling un e
      → SameClass (decode_failure un (text_of context (reported un e))) (told e)
  unfolding decode_failure text_of reported
  read_failure-class context e n t =
      let rest : String = strip_right is_space (server_text un e) in
      let trimmed = strip-report context (server_code e) (server_text un e) n.bare t in
      let read =
        decode-encode context (server_code e) rest
          (λ c. silent_anywhere (marker c) context (encode (server_code e) rest) (n.quiet c)) in
      subst (λ f. SameClass f (told e))
        (sym (ap (λ s. failure_from un (decode s)) trimmed ∙ ap (failure_from un) read))
        (failure_from-class e
          (or_else (strip rest) (str_append context (encode (server_code e) rest))))

  module _ (U : Type 0) ⦃u : Untrusted U⦄ (owner context : String) where
    -- What the client got, beside what the contract came to: the mapper makes the contract's reply of
    -- the answer, or the failures are of the same class; and the mapper makes of the owner's mailbox
    -- in the dataset the mailbox that the contract leaves.
    abbrev pub SameOutcome : Result ToolFailure Answer → Result MailError (Reply U) → Type 0
    SameOutcome (ok a) (ok r) = read_answer un a ≡ ok r
    SameOutcome (err f) (err e) = SameClass f e
    SameOutcome _ _ = ⊥

    abbrev pub Agrees :
        Result ToolFailure Answer × MailboxDataset → Result MailError (Reply U) × Mailbox U → Type 0
    Agrees (r, mailboxes) (r', box') =
        SameOutcome r r'
        × ((box : InMemoryMailbox) × (lookup owner mailboxes ≡ some box)
            × IsShown un owner box box')

    read-Agrees :
        (r : Result MailServerError Answer) (box : InMemoryMailbox) (mailboxes : MailboxDataset)
        → IsNeutral context
        → TellsOf un r
        → IsCleanMailbox un box
        → Holds un (IsCleanAnswer un) r
        → Agrees
            (read_result un context (r, insert owner box mailboxes))
            (shown reply_as owner (r, box))
    read-Agrees (ok a) box mailboxes n t v h = (
      read_answer_ok un a h,
      (box, lookup-insert_same owner box mailboxes, view-IsShown un owner box v),
    )
    read-Agrees (err e) box mailboxes n t v h = (
      read_failure-class context e n t,
      (box, lookup-insert_same owner box mailboxes, view-IsShown un owner box v),
    )

    on_view :
        (c : ToolCall) (mailboxes : MailboxDataset) (box : InMemoryMailbox)
        → lookup owner mailboxes ≡ some box
        → IsSound box
        → IsCleanMailbox un box
        → IsCleanCall un c
        → IsNeutral context
        → Agrees
            (invoke un context owner owner c mailboxes)
            (perform un (call_as c) (view owner box))
    unfolding invoke serve_tool
    on_view c mailboxes box served v clean call n =
        let after = answer-Gives un c call box clean in
        rw (eq_refl owner, served, answer-refines U un owner c box v)
          (read-Agrees (answer un c box).0 (answer un c box).1 mailboxes n (answer-Tells un c box)
            after.0 after.1)

    -- Let the server keep a sound mailbox of the owner whose addresses are valid and in normal form
    -- and whose dates carry a time zone, and let the agent's mapper make a mailbox of the contract of
    -- it. A call by the owner, with addresses that are valid and in normal form and drafts that have
    -- a recipient, over a transport whose context is neutral, then comes to what the same call of the
    -- in-memory tools comes to: the mapper makes their reply of the answer, or the failure is of the
    -- class of theirs; and it makes of the mailbox afterwards the one that they leave.
    pub invoke-Agrees :
        (c : ToolCall) (mailboxes : MailboxDataset) (box : InMemoryMailbox) (box' : Mailbox U)
        → lookup owner mailboxes ≡ some box
        → IsSound box
        → IsCleanMailbox un box
        → IsCleanCall un c
        → IsShown un owner box box'
        → IsNeutral context
        → Agrees (invoke un context owner owner c mailboxes) (perform un (call_as c) box')
    invoke-Agrees c mailboxes box box' served v clean call s n =
        subst (λ b. Agrees (invoke un context owner owner c mailboxes) (perform un (call_as c) b))
          (sym (shown_once un owner box box' clean s))
          (on_view c mailboxes box served v clean call n)
