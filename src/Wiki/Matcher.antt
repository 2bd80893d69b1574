-- ===== src/Wiki/Matcher.antt =====
-- The filters and the orders of a search in `InMemoryWikiTools`, of
-- agents/wiki/src/ai_agent_lab/wiki/infrastructure/inmemory/wiki_tools.py.
pub mod Criteria
pub mod Titles
use ai_agents.Prelude.{
  ℕ, code, String, Bool, true, false, not, ◌&&◌, ◌||◌, List, [], ◌∷◌, map, Option, none, some, ◌==◌,
  string_eq, nat_eq, if◌then◌else◌, ltb, contains, all, is_nonempty,
}
use ai_agents.Prelude.Sort.{sort_by, sort_with}
use ai_agents.Text.{Unicode, concat, is_infix, is_space, split, strip_by}
use ai_agents.Runtime.{Untrusted}
use ai_agents.Wiki.Models.{
  WikiPage, WikiSortOrder, relevance, last_modified, created, title, has_status,
}
use ai_agents.Wiki.Models.Search.{WikiSearchRequest}

-- `s <= t` on texts: by code point, a prefix first.
unfoldable pub str_leb : String → String → Bool
str_leb String.[] t = true
str_leb (String.◌∷◌ c s) String.[] = false
str_leb (String.◌∷◌ c s) (String.◌∷◌ d t) =
    let rest = str_leb s t in if code c == code d then rest else ltb (code c) (code d)

module _ {U : Type 0} where
  -- `_matches_status`
  abbrev pub matches_status : WikiPage U → WikiSearchRequest → Bool
  matches_status p r = not (is_nonempty r.statuses) || has_status p.status r.statuses

  -- `_matches_space`
  abbrev pub matches_space : WikiPage U → WikiSearchRequest → Bool
  matches_space p r = not (is_nonempty r.space_keys) || contains p.space_key r.space_keys

  abbrev pub too_old : WikiPage U → Option ℕ → Bool
  too_old p none = false
  too_old p (some bound) = ltb p.last_modified_at bound

  abbrev pub too_new : WikiPage U → Option ℕ → Bool
  too_new p none = false
  too_new p (some bound) = ltb bound p.last_modified_at

  -- `_matches_window`
  abbrev pub matches_window : WikiPage U → WikiSearchRequest → Bool
  matches_window p r =
      if too_old p r.modified_after then false else not (too_new p r.modified_before)

  abbrev pub modified_key : WikiPage U → ℕ
  modified_key p = p.last_modified_at

  abbrev pub created_key : WikiPage U → ℕ
  created_key p = p.created_at

module _ {U : Type 0} ⦃u : Untrusted U⦄ (un : Unicode) where
  -- `_matches_text`
  unfoldable pub matches_text : WikiPage U → WikiSearchRequest → Bool
  unfolding is_infix split
  matches_text p r =
      let terms = split (un.casefold r.text) in
      let haystack = un.casefold (concat (u.expose p.title ∷ "\n" ∷ u.expose p.body ∷ [])) in
      if not (is_nonempty terms) then true else all (λ term. is_infix term haystack) terms

  -- `_matches_title`
  unfoldable pub matches_title : WikiPage U → WikiSearchRequest → Bool
  unfolding is_infix strip_by is_space
  matches_title p r =
      let fragment = strip_by is_space (un.casefold r.title_contains) in
      fragment == "" || is_infix fragment (un.casefold (u.expose p.title))

  -- `_matches_labels`
  unfoldable pub matches_labels : WikiPage U → WikiSearchRequest → Bool
  matches_labels p r =
      let carried = map (λ l. un.casefold (u.expose l)) p.labels in
      if not (is_nonempty r.labels)
      then true
      else all (λ l. contains (un.casefold l) carried) r.labels

  -- `_matches`
  unfoldable pub matches_page : WikiPage U → WikiSearchRequest → Bool
  unfolding matches_text matches_title matches_labels
  matches_page p r =
      matches_status p r
      && (matches_space p r
          && (matches_window p r
              && (matches_text p r && (matches_title p r && matches_labels p r))))

  abbrev pub folded_title : WikiPage U → String
  folded_title p = un.casefold (u.expose p.title)

  abbrev pub title_before : WikiPage U → WikiPage U → Bool
  title_before p q = str_leb (folded_title p) (folded_title q)

  -- `_ordered`
  abbrev pub ordered : WikiSortOrder → List (WikiPage U) → List (WikiPage U)
  ordered title pages = sort_with title_before pages
  ordered created pages = sort_by created_key true pages
  ordered last_modified pages = sort_by modified_key true pages
  ordered relevance pages = sort_by modified_key true pages
