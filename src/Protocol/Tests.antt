-- ===== src/Protocol/Tests.antt =====
-- Failures on the wire: runs, and each theorem at a concrete input.
use ai_agents.Prelude.{◌≡◌, refl, String, nat_eq, string_eq}
use ai_agents.Text.{is_prefix, is_space, strip_by}
use ai_agents.Samples.{tables}
use ai_agents.Protocol.{encode, decode}
use ai_agents.Protocol.Decoding.{AreSilent, decode-encode}
use ai_agents.Protocol.MailCodes.{
  MailErrorCode, not_found, access_denied, unavailable, protocol, mail_codes, mail_code_value,
  MailServerError, not_found_error, mail_not_found, server_code, server_text, reported,
  decode_failure,
}
use ai_agents.Protocol.MailFailures.{failure_of, read_text, decode_failure-reported}
use ai_agents.Protocol.WikiCodes.{
  WikiErrorCode, conflict, wiki_codes, wiki_code_value, WikiToolError, edit_error, code_of,
  encode_failure, decode_wiki_failure,
}
use ai_agents.Protocol.WikiCodes as W
use ai_agents.Protocol.WikiFailures.{retold, retold_text, decode-encode_failure}
use Prim.Native.String.{◌++◌ as str_append}

-- What the server's runtime writes before the report.
abbrev context : String
context = "Error executing tool get_mail: "

abbrev missing : MailServerError
missing = not_found_error "message" "m9"

reads_back :
    decode_failure tables (str_append context (reported tables missing))
    ≡ mail_not_found "message 'm9' was not found"
unfolding decode_failure reported strip_by is_space is_prefix
reads_back = refl

earliest_wins : decode "x mail_unavailable: mail_not_found: y" ≡ (unavailable, "mail_not_found: y")
unfolding decode mail_code_value is_prefix strip_by is_space
earliest_wins = refl

unknown_is_protocol : decode "boom" ≡ (protocol, "boom")
unfolding decode mail_code_value is_prefix
unknown_is_protocol = refl

nothing_left : decode "mail_not_found:  " ≡ (not_found, "mail_not_found:  ")
unfolding decode mail_code_value is_prefix strip_by is_space
nothing_left = refl

context-AreSilent : AreSilent MailErrorCode context (reported tables missing)
unfolding reported mail_code_value is_prefix
context-AreSilent not_found = refl
context-AreSilent access_denied = refl
context-AreSilent unavailable = refl
context-AreSilent protocol = refl

decode-encode_example :
    decode (str_append context (encode not_found "message 'm9' was not found"))
    ≡ (not_found, "message 'm9' was not found")
unfolding encode mail_code_value server_text server_code strip_by is_space reported
decode-encode_example =
    decode-encode context not_found "message 'm9' was not found" context-AreSilent

decode_failure-reported_example :
    decode_failure tables (str_append context (reported tables missing))
    ≡ failure_of missing (read_text tables context missing)
decode_failure-reported_example = decode_failure-reported tables context missing context-AreSilent

abbrev edited : WikiToolError
edited = edit_error "page 'p1' is at version 4, not the expected 3"

edited-AreSilent : AreSilent WikiErrorCode "Error: " (encode_failure edited)
unfolding encode_failure wiki_code_value is_prefix
edited-AreSilent W.not_found = refl
edited-AreSilent W.access_denied = refl
edited-AreSilent W.conflict = refl
edited-AreSilent W.unavailable = refl
edited-AreSilent W.protocol = refl

decode-encode_failure_example :
    decode_wiki_failure tables (str_append "Error: " (encode_failure edited))
    ≡ retold edited (retold_text tables "Error: " edited)
decode-encode_failure_example = decode-encode_failure tables "Error: " edited edited-AreSilent
