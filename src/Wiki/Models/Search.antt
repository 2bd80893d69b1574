-- ===== src/Wiki/Models/Search.antt =====
-- `WikiSearchRequest`, `WikiSearchResult` and `WikiPageTree` of the wiki's domain/models.py.
use ai_agents.Prelude.{
  ℕ, String, Bool, false, not, ◌&&◌, ◌||◌, Option, some, List, ◌==◌, string_eq, if◌then◌else◌, ltb,
  leb, length, is_nonempty, is_some,
}
use ai_agents.Prelude.Exec.{ok, err}
use ai_agents.Text.{is_space, strip_by}
use ai_agents.Wiki.Error.{WikiChecked, invalid, limit_range, reversed_window, small_total}
use ai_agents.Wiki.Models.{WikiPageReference, WikiPageStatus, WikiSortOrder}

abbrev pub wiki_search_limit : ℕ
wiki_search_limit = 50

pub record WikiSearchRequest : Type 0 where
  pub text : String
  pub space_keys : List String
  pub labels : List String
  pub title_contains : String
  pub modified_after : Option ℕ
  pub modified_before : Option ℕ
  pub statuses : List WikiPageStatus
  pub sort_order : WikiSortOrder
  pub limit : ℕ

abbrev is_reversed : Option ℕ → Option ℕ → Bool
is_reversed (some a) (some b) = ltb b a
is_reversed _ _ = false

-- `WikiSearchRequest(...)`: the bounds of `limit`, then `_validate_window`.
unfoldable pub make_wiki_request : WikiSearchRequest → WikiChecked WikiSearchRequest
make_wiki_request r =
    if not (leb 1 r.limit && leb r.limit wiki_search_limit)
    then err (invalid limit_range)
    else if is_reversed r.modified_after r.modified_before
    then err (invalid reversed_window)
    else ok r

-- `WikiSearchRequest.is_empty`
unfoldable pub constrains_nothing : WikiSearchRequest → Bool
unfolding strip_by is_space
constrains_nothing r = not (
    not (strip_by is_space r.text == "")
    || is_nonempty r.space_keys
    || is_nonempty r.labels
    || not (strip_by is_space r.title_contains == "")
    || is_some r.modified_after
    || is_some r.modified_before)

pub record WikiSearchResult (U : Type 0) : Type 0 where
  pub references : List (WikiPageReference U)
  pub total_count : ℕ
  pub truncated : Bool

-- `WikiSearchResult(...)`: `_validate_count`.
unfoldable pub make_wiki_result :
    {U : Type 0} → List (WikiPageReference U) → ℕ → Bool → WikiChecked (WikiSearchResult U)
make_wiki_result references total truncated =
    if ltb total (length references)
    then err (invalid small_total)
    else ok (record { references = references; total_count = total; truncated = truncated })

pub record WikiPageTree (U : Type 0) : Type 0 where
  pub parent_id : String
  pub children : List (WikiPageReference U)
