-- ===== src/Protocol/WikiCodes.antt =====
-- The wiki server's codes and failures, mcp-servers/wiki-protocol/src/wiki_mcp/protocol/errors.py, and how
-- the wiki agent reads and writes them, agents/wiki/src/ai_agent_lab/wiki/infrastructure/mcp/errors.py,
-- whose enumeration has the same values.
use ai_agents.Prelude.{
  ℕ, ◌≡◌, ◌↔◌, refl, sym, ◌∙◌, ap, String, true, List, [], ◌∷◌, arith, Eq, string_eq, nat_beq,
  nat_beq_iff, if◌then◌else◌, contains,
}
use ai_agents.Text.{Unicode, is_prefix, concat}
use ai_agents.Protocol.{Codes, encode, decode, or_else}
use Prim.Native.String.{◌++◌ as str_append}

-- `WikiErrorCode`
pub data WikiErrorCode : Type 0 where
  not_found access_denied conflict unavailable protocol : WikiErrorCode

unfoldable pub wiki_code_value : WikiErrorCode → String
wiki_code_value not_found = "wiki_not_found"
wiki_code_value access_denied = "wiki_access_denied"
wiki_code_value conflict = "wiki_conflict"
wiki_code_value unavailable = "wiki_unavailable"
wiki_code_value protocol = "wiki_protocol"

-- The members of an enumeration are compared by identity.
abbrev rank : WikiErrorCode → ℕ
rank not_found = 0
rank access_denied = 1
rank conflict = 2
rank unavailable = 3
rank protocol = 4

abbrev at_rank : ℕ → WikiErrorCode
at_rank n =
    if nat_beq n 0
    then not_found
    else if nat_beq n 1
    then access_denied
    else if nat_beq n 2
    then conflict
    else if nat_beq n 3
    then unavailable
    else protocol

at_rank-rank : (c : WikiErrorCode) → at_rank (rank c) ≡ c
at_rank-rank not_found = refl
at_rank-rank _ = refl

pub wiki_code_beq_iff : (a b : WikiErrorCode) → (nat_beq (rank a) (rank b) ≡ true) ↔ (a ≡ b)
wiki_code_beq_iff a b = (
  λ h. sym (at_rank-rank a) ∙ ap at_rank ((nat_beq_iff (rank a) (rank b)).0 h) ∙ at_rank-rank b,
  λ same. (nat_beq_iff (rank a) (rank b)).1 (ap rank same),
)

abbrev pub wiki_code_eq : Eq WikiErrorCode
wiki_code_eq = record { beq = λ a b. nat_beq (rank a) (rank b); beq_iff = wiki_code_beq_iff }

abbrev pub wiki_members : List WikiErrorCode
wiki_members = not_found ∷ access_denied ∷ conflict ∷ unavailable ∷ protocol ∷ []

pub wiki-listed : (c : WikiErrorCode) → contains ⦃e = wiki_code_eq⦄ c wiki_members ≡ true
wiki-listed not_found = refl
wiki-listed _ = refl

pub wiki-apart :
    (c d : WikiErrorCode)
    → is_prefix (str_append (wiki_code_value c) ": ") (str_append (wiki_code_value d) ": ") ≡ true
    → c ≡ d
unfolding is_prefix wiki_code_value
wiki-apart not_found not_found h = refl
wiki-apart access_denied access_denied h = refl
wiki-apart conflict conflict h = refl
wiki-apart unavailable unavailable h = refl
wiki-apart protocol protocol h = refl
wiki-apart _ _ h = absurd (ground arith)

instance abbrev pub wiki_codes : Codes WikiErrorCode
wiki_codes = record {
  members = wiki_members;
  value = wiki_code_value;
  protocol = protocol;
  same = wiki_code_eq;
  listed = wiki-listed;
  apart = wiki-apart;
}

-- `encode` and `decode` of the wiki server.
abbrev pub wiki_encode : WikiErrorCode → String → String
wiki_encode = encode

abbrev pub wiki_decode : String → WikiErrorCode × String
wiki_decode = decode

-- `WikiToolError` and its classes, each with its text.
pub data WikiToolError : Type 0 where
  missing_error denied_error edit_error unreachable_error unusable_error : String → WikiToolError

-- `str(error)`
abbrev pub error_text : WikiToolError → String
error_text (missing_error text) = text
error_text (denied_error text) = text
error_text (edit_error text) = text
error_text (unreachable_error text) = text
error_text (unusable_error text) = text

-- `code_of`
unfoldable pub code_of : WikiToolError → WikiErrorCode
code_of (missing_error text) = not_found
code_of (denied_error text) = access_denied
code_of (edit_error text) = conflict
code_of (unreachable_error text) = unavailable
code_of (unusable_error text) = protocol

unfoldable pub encode_failure : WikiToolError → String
unfolding encode code_of
encode_failure e = encode (code_of e) (error_text e)

-- `_FAILURES`: the exceptions made with `message=detail`, which have a text of their own where the
-- detail is empty, and those made with the detail.
unfoldable pub failures : Unicode → WikiErrorCode → String → WikiToolError
failures un not_found detail =
    missing_error (or_else detail (concat (" " ∷ un.repr "" ∷ " was not found" ∷ [])))
failures un access_denied detail =
    denied_error
      (or_else detail (concat ("access to " ∷ un.repr "" ∷ " was denied by the wiki" ∷ [])))
failures un conflict detail = edit_error (
    or_else detail (
      concat (
        "page "
        ∷ un.repr ""
        ∷ " is at version None, not the expected None: somebody edited it in the meantime"
        ∷ [])))
failures un unavailable detail = unreachable_error detail
failures un protocol detail = unusable_error detail

abbrev pub failure_with : Unicode → WikiErrorCode × String → WikiToolError
failure_with un (code, detail) = failures un code detail

-- `decode_failure`: no known code makes a protocol error of the whole report.
unfoldable pub decode_wiki_failure : Unicode → String → WikiToolError
unfolding decode failures
decode_wiki_failure un text = failure_with un (decode text)
