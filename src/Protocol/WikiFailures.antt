-- ===== src/Protocol/WikiFailures.antt =====
-- A failure of the wiki tools survives its journey over the wire.
use ai_agents.Prelude.{◌≡◌, refl, ap, ◌∙◌, String, false, ◌==◌, string_eq}
use ai_agents.Text.{Unicode}
use ai_agents.Text.Occurrence.{append-nonempty_left, append-nonempty_right}
use ai_agents.Protocol.{encode, or_else, strip}
use ai_agents.Protocol.Decoding.{AreSilent, or_else-nonempty, decode-encode}
use ai_agents.Protocol.WikiCodes.{
  WikiErrorCode, not_found, access_denied, conflict, unavailable, protocol, wiki_code_value,
  wiki_codes, WikiToolError, missing_error, denied_error, edit_error, unreachable_error,
  unusable_error, error_text, code_of, encode_failure, failures, failure_with, decode_wiki_failure,
}
use Prim.Native.String.{◌++◌ as str_append}

encode-nonempty : (c : WikiErrorCode) (detail : String) → (encode c detail == "") ≡ false
unfolding encode wiki_code_value
encode-nonempty not_found detail = append-nonempty_left "wiki_not_found" _ refl
encode-nonempty access_denied detail = append-nonempty_left "wiki_access_denied" _ refl
encode-nonempty conflict detail = append-nonempty_left "wiki_conflict" _ refl
encode-nonempty unavailable detail = append-nonempty_left "wiki_unavailable" _ refl
encode-nonempty protocol detail = append-nonempty_left "wiki_protocol" _ refl

-- An error of the same class with another text.
abbrev pub retold : WikiToolError → String → WikiToolError
retold (missing_error _) text = missing_error text
retold (denied_error _) text = denied_error text
retold (edit_error _) text = edit_error text
retold (unreachable_error _) text = unreachable_error text
retold (unusable_error _) text = unusable_error text

failure_with-code :
    (un : Unicode) (e : WikiToolError) (text : String)
    → (text == "") ≡ false
    → failure_with un (code_of e, text) ≡ retold e text
unfolding code_of failures
failure_with-code un (missing_error _) text h = rw h refl
failure_with-code un (denied_error _) text h = rw h refl
failure_with-code un (edit_error _) text h = rw h refl
failure_with-code un (unreachable_error _) text h = refl
failure_with-code un (unusable_error _) text h = refl

module _ (un : Unicode) (context : String) (e : WikiToolError) where
  -- The text of the error without the white space around it, or the whole report where that is
  -- nothing.
  abbrev pub retold_text : String
  retold_text = or_else (strip (error_text e)) (str_append context (encode_failure e))

  -- A wiki tool error that is written as a report is read, behind a context in which no code starts,
  -- as an error of the same class. Its text is that of the error without the white space around it,
  -- or the context and the report together where that is nothing.
  pub decode-encode_failure :
      AreSilent WikiErrorCode context (encode_failure e)
      → decode_wiki_failure un (str_append context (encode_failure e)) ≡ retold e retold_text
  unfolding decode_wiki_failure encode_failure
  decode-encode_failure quiet =
      ap (failure_with un) (decode-encode context (code_of e) (error_text e) quiet)
      ∙ failure_with-code un e retold_text (
          or_else-nonempty (strip (error_text e)) (str_append context (encode_failure e)) (
            append-nonempty_right context (encode_failure e)
              (encode-nonempty (code_of e) (error_text e))))
