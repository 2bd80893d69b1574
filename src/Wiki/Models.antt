-- ===== src/Wiki/Models.antt =====
-- agents/wiki/src/ai_agent_lab/wiki/domain/models.py and enums.py: spaces, pages, comments, histories.
-- `U` is the framework's type of untrusted text. A datetime is its number of microseconds in UTC:
-- `_require_timezone` has run on it.
pub mod Search
use ai_agents.Prelude.{
  ℕ, String, Bool, true, false, not, ◌&&◌, ◌||◌, Option, none, some, List, [], ◌∷◌, map, ◌==◌,
  string_eq, nat_eq, if◌then◌else◌, ltb, leb, contains, Eq, ◌≡◌, ◌↔◌, nat_beq, nat_beq_iff, refl,
  sym, ap, ◌∙◌,
}
use ai_agents.Prelude.Exec.{ok, err}
use ai_agents.Wiki.Error.{
  WikiChecked, invalid, empty_identifier, bad_version, before_creation, own_parent,
  replies_to_itself, no_versions, not_newest_first, repeated_version,
}

pub data WikiContentFormat : Type 0 where
  markdown plain_text : WikiContentFormat

pub data WikiPageStatus : Type 0 where
  current draft archived : WikiPageStatus

pub data WikiSortOrder : Type 0 where
  relevance last_modified created title : WikiSortOrder

-- The members of the enumeration are compared by identity.
abbrev is_status : WikiPageStatus → WikiPageStatus → Bool
is_status current current = true
is_status draft draft = true
is_status archived archived = true
is_status _ _ = false

-- `status in statuses`
abbrev pub has_status : WikiPageStatus → List WikiPageStatus → Bool
has_status s [] = false
has_status s (t ∷ ts) = is_status s t || has_status s ts

pub record WikiAuthor (U : Type 0) : Type 0 where
  pub account_id : String
  pub display_name : Option U

pub record WikiSpace (U : Type 0) : Type 0 where
  pub key : String
  pub name : U
  pub is_personal : Bool
  pub homepage_id : Option String

pub record WikiPageReference (U : Type 0) : Type 0 where
  pub page_id : String
  pub space_key : String
  pub title : U
  pub excerpt : Option U
  pub status : WikiPageStatus
  pub last_modified_at : ℕ
  pub version : ℕ
  pub url : String

pub record WikiPage (U : Type 0) : Type 0 where
  pub page_id : String
  pub space_key : String
  pub title : U
  pub body : U
  pub body_format : WikiContentFormat
  pub status : WikiPageStatus
  pub parent_id : Option String
  pub labels : List U
  pub created_at : ℕ
  pub created_by : Option (WikiAuthor U)
  pub last_modified_at : ℕ
  pub last_modified_by : Option (WikiAuthor U)
  pub version : ℕ
  pub url : String

pub record WikiComment (U : Type 0) : Type 0 where
  pub comment_id : String
  pub page_id : String
  pub body : U
  pub body_format : WikiContentFormat
  pub author : Option (WikiAuthor U)
  pub created_at : ℕ
  pub parent_comment_id : Option String
  pub is_resolved : Bool

pub record WikiPageVersion (U : Type 0) : Type 0 where
  pub version : ℕ
  pub modified_at : ℕ
  pub modified_by : Option (WikiAuthor U)
  pub message : Option U
  pub is_minor_edit : Bool

pub record WikiPageHistory (U : Type 0) : Type 0 where
  pub page_id : String
  pub versions : List (WikiPageVersion U)

-- `x is not None and x == i`
abbrev pub is_named : String → Option String → Bool
is_named i none = false
is_named i (some j) = j == i

-- The numbers run from newest to oldest: `numbers == sorted(numbers, reverse=True)`.
abbrev pub descends : List ℕ → Bool
descends [] = true
descends (n ∷ []) = true
descends (n ∷ m ∷ ns) = leb m n && descends (m ∷ ns)

-- `len(set(numbers)) != len(numbers)`
abbrev pub repeats : List ℕ → Bool
repeats [] = false
repeats (n ∷ ns) = contains n ns || repeats ns

module _ {U : Type 0} where
  -- `WikiPage(...)`: the bounds of its fields, `_validate_chronology` and `_validate_parentage`.
  unfoldable pub make_page : WikiPage U → WikiChecked (WikiPage U)
  make_page p =
      if p.page_id == "" || p.space_key == ""
      then err (invalid empty_identifier)
      else if not (leb 1 p.version)
      then err (invalid bad_version)
      else if ltb p.last_modified_at p.created_at
      then err (invalid before_creation)
      else if is_named p.page_id p.parent_id
      then err (invalid own_parent)
      else ok p

  -- `WikiPage.to_reference`
  unfoldable pub to_reference : WikiPage U → WikiPageReference U
  to_reference p = record {
    page_id = p.page_id;
    space_key = p.space_key;
    title = p.title;
    excerpt = none;
    status = p.status;
    last_modified_at = p.last_modified_at;
    version = p.version;
    url = p.url;
  }

  -- `WikiComment(...)`: the bounds of its fields and `_validate_parentage`.
  unfoldable pub make_comment : WikiComment U → WikiChecked (WikiComment U)
  make_comment c =
      if c.comment_id == "" || c.page_id == ""
      then err (invalid empty_identifier)
      else if is_named c.comment_id c.parent_comment_id
      then err (invalid replies_to_itself)
      else ok c

  -- `WikiPageVersion(...)`
  unfoldable pub make_version : WikiPageVersion U → WikiChecked (WikiPageVersion U)
  make_version v = if leb 1 v.version then ok v else err (invalid bad_version)

  abbrev pub numbers : List (WikiPageVersion U) → List ℕ
  numbers vs = map (λ (v : WikiPageVersion U). v.version) vs

  -- `WikiPageHistory(...)`: the bounds of its fields and `_validate_ordering`.
  unfoldable pub make_history : String → List (WikiPageVersion U) → WikiChecked (WikiPageHistory U)
  make_history page_id [] = err (invalid no_versions)
  make_history page_id (v ∷ vs) =
      if page_id == ""
      then err (invalid empty_identifier)
      else if not (descends (numbers (v ∷ vs)))
      then err (invalid not_newest_first)
      else if repeats (numbers (v ∷ vs))
      then err (invalid repeated_version)
      else ok (record { page_id = page_id; versions = v ∷ vs })
