-- ===== src/Protocol/MailFailures.antt =====
-- A failure of the mail server, from where it is raised to the exception that the agent sees.
use ai_agents.Prelude.{◌≡◌, refl, ap, ◌∙◌, String, false, ◌==◌, string_eq}
use ai_agents.Text.{Unicode}
use ai_agents.Text.Occurrence.{append-nonempty_left, append-nonempty_right}
use ai_agents.Protocol.{encode, or_else, strip}
use ai_agents.Protocol.Decoding.{AreSilent, or_else-nonempty, decode-encode}
use ai_agents.Protocol.MailCodes.{
  MailErrorCode, not_found, access_denied, unavailable, protocol, mail_code_value, mail_codes,
  MailServerError, not_found_error, access_denied_error, unavailable_error, protocol_error,
  server_code, server_text, reported, ToolFailure, mail_not_found, mail_access_denied,
  mail_tool_unavailable, mail_tool_protocol, mail_not_found_error, mail_access_denied_error,
  tool_failure, failure_from, decode_failure,
}
use Prim.Native.String.{◌++◌ as str_append}

encode-nonempty : (c : MailErrorCode) (detail : String) → (encode c detail == "") ≡ false
unfolding encode mail_code_value
encode-nonempty not_found detail = append-nonempty_left "mail_not_found" _ refl
encode-nonempty access_denied detail = append-nonempty_left "mail_access_denied" _ refl
encode-nonempty unavailable detail = append-nonempty_left "mail_unavailable" _ refl
encode-nonempty protocol detail = append-nonempty_left "mail_protocol" _ refl

-- The exception of each class of failure, with a text.
abbrev pub failure_of : MailServerError → String → ToolFailure
failure_of (not_found_error _ _) text = mail_not_found text
failure_of (access_denied_error _) text = mail_access_denied text
failure_of (unavailable_error _) text = mail_tool_unavailable text
failure_of (protocol_error _) text = mail_tool_protocol text

failure_from-code :
    (un : Unicode) (e : MailServerError) (text : String)
    → (text == "") ≡ false
    → failure_from un (server_code e, text) ≡ failure_of e text
unfolding server_code tool_failure mail_code_value mail_not_found_error mail_access_denied_error
failure_from-code un (not_found_error r i) text h = rw h refl
failure_from-code un (access_denied_error d) text h = rw h refl
failure_from-code un (unavailable_error d) text h = refl
failure_from-code un (protocol_error d) text h = refl

module _ (un : Unicode) (context : String) (e : MailServerError) where
  -- What the agent reads: the server's text without the white space around it, or the whole report
  -- where that is nothing.
  abbrev pub read_text : String
  read_text = or_else (strip (server_text un e)) (str_append context (reported un e))

  -- `decode_failure`, given a server's report behind a context in which no code starts, gives the
  -- exception of the class that the server raised. Its text is the server's without the white space
  -- around it, or the context and the report together where that is nothing.
  pub decode_failure-reported :
      AreSilent MailErrorCode context (reported un e)
      → decode_failure un (str_append context (reported un e)) ≡ failure_of e read_text
  unfolding decode_failure reported
  decode_failure-reported quiet =
      ap (failure_from un) (decode-encode context (server_code e) (server_text un e) quiet)
      ∙ failure_from-code un e read_text (
          or_else-nonempty (strip (server_text un e)) (str_append context (reported un e)) (
            append-nonempty_right context (reported un e)
              (encode-nonempty (server_code e) (server_text un e))))
