-- ===== src/Mail/Models/Search.antt =====
-- `MailSearchRequest` and `MailSearchResult` of domain/models.py.
use ai_agents.Prelude.{
  ℕ, String, Bool, false, not, ◌&&◌, ◌||◌, List, Option, some, string_eq, is_some, if◌then◌else◌,
  ltb, leb, length, is_nonempty,
}
use ai_agents.Prelude.Exec.{ok, err}
use ai_agents.Text.{is_truthy}
use ai_agents.Mail.Error.{Checked, invalid, limit_range, date_range, count_range}
use ai_agents.Mail.Models.{EmailAddress, MailHeader, MailSortOrder}

abbrev pub max_search_limit : ℕ
max_search_limit = 100

pub record MailSearchRequest : Type 0 where
  pub keywords : Option String
  pub sender : Option EmailAddress
  pub recipient : Option EmailAddress
  pub subject_contains : Option String
  pub label_ids : List String
  pub date_from : Option ℕ
  pub date_to : Option ℕ
  pub unread_only : Bool
  pub has_attachments : Option Bool
  pub limit : ℕ
  pub sort_order : MailSortOrder

-- `date_from > date_to`, where both are given.
abbrev pub is_reversed : Option ℕ → Option ℕ → Bool
is_reversed (some a) (some b) = ltb b a
is_reversed _ _ = false

-- `MailSearchRequest(...)`: the bounds of `limit`, then `_validate_range`.
unfoldable pub make_request : MailSearchRequest → Checked MailSearchRequest
make_request r =
    if not (leb 1 r.limit && leb r.limit max_search_limit)
    then err (invalid limit_range)
    else if is_reversed r.date_from r.date_to
    then err (invalid date_range)
    else ok r

unfoldable pub is_empty : MailSearchRequest → Bool
is_empty r = not (
    is_truthy r.keywords
    || is_some r.sender
    || is_some r.recipient
    || is_truthy r.subject_contains
    || is_nonempty r.label_ids
    || is_some r.date_from
    || is_some r.date_to
    || r.unread_only
    || is_some r.has_attachments)

pub record MailSearchResult (U : Type 0) : Type 0 where
  pub headers : List (MailHeader U)
  pub total_count : ℕ
  pub truncated : Bool

-- `MailSearchResult(...)`: `_validate_count`.
unfoldable pub make_result :
    {U : Type 0} → List (MailHeader U) → ℕ → Bool → Checked (MailSearchResult U)
make_result headers total truncated =
    if ltb total (length headers)
    then err (invalid count_range)
    else ok (record { headers = headers; total_count = total; truncated = truncated })
