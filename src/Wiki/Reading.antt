-- ===== src/Wiki/Reading.antt =====
-- The operations of `InMemoryWikiTools` that read: search, get_page, get_children, list_spaces and
-- get_comments of agents/wiki/src/ai_agent_lab/wiki/infrastructure/inmemory/wiki_tools.py.
use ai_agents.Prelude.{
  ℕ, zero, suc, String, Bool, false, List, map, some, string_eq, nat_eq, ltb, select, take, length,
}
use ai_agents.Prelude.Exec.{pure, gets, ◌>>=◌}
use ai_agents.Prelude.Sort.{sort_by, sort_with}
use ai_agents.Text.{Unicode}
use ai_agents.Runtime.{Untrusted}
use ai_agents.Wiki.Error.{WikiMethod}
use ai_agents.Wiki.Models.{WikiSpace, WikiPage, WikiPageReference, WikiComment, to_reference}
use ai_agents.Wiki.Models.Search.{
  WikiSearchRequest, WikiSearchResult, WikiPageTree, make_wiki_result,
}
use ai_agents.Wiki.Store.{Wiki, page_of, comments_of, children_of, readable_pages, readable_spaces}
use ai_agents.Wiki.Matcher.{matches_page, ordered, title_before, str_leb}

abbrev pub excerpt_length : ℕ
excerpt_length = 200

-- `s[:n]`
unfoldable pub cut : ℕ → String → String
cut zero s = String.[]
cut (suc n) String.[] = String.[]
cut (suc n) (String.◌∷◌ c s) = String.◌∷◌ c (cut n s)

module _ {U : Type 0} where
  -- `get_page`
  abbrev pub get_page : String → String → WikiMethod (Wiki U) (WikiPage U)
  get_page page_id user_id = page_of page_id user_id

  abbrev pub space_before : WikiSpace U → WikiSpace U → Bool
  space_before a b = str_leb a.key b.key

  -- `list_spaces`
  unfoldable pub list_spaces : String → WikiMethod (Wiki U) (List (WikiSpace U))
  list_spaces user_id =
      gets (λ (wiki : Wiki U). sort_with space_before (readable_spaces user_id wiki))

  abbrev pub comment_key : WikiComment U → ℕ
  comment_key c = c.created_at

  -- `get_comments`
  unfoldable pub get_comments : String → String → WikiMethod (Wiki U) (List (WikiComment U))
  get_comments page_id user_id =
      comments_of page_id user_id >>= λ cs. pure (sort_by comment_key false cs)

module _ {U : Type 0} ⦃u : Untrusted U⦄ (un : Unicode) where
  -- `_reference`
  unfoldable pub reference : WikiPage U → WikiPageReference U
  unfolding to_reference cut
  reference p = record (to_reference p) {
    excerpt = some (u.untrusted (cut excerpt_length (u.expose p.body)) ("wiki", "page_excerpt"));
  }

  -- The pages that a search finds, in order.
  abbrev pub found_pages : WikiSearchRequest → String → Wiki U → List (WikiPage U)
  found_pages r user_id wiki =
      ordered un r.sort_order (select (λ p. matches_page un p r) (readable_pages user_id wiki))

  -- `search`
  unfoldable pub search_wiki : WikiSearchRequest → String → WikiMethod (Wiki U) (WikiSearchResult U)
  search_wiki r user_id wiki =
      let pages = found_pages r user_id wiki in
      let selected = take r.limit pages in
      (
        make_wiki_result (map reference selected) (length pages)
            (ltb (length selected) (length pages)),
        wiki,
      )

  abbrev pub tree_of : String → List (WikiPage U) → WikiPageTree U
  tree_of page_id children = record {
    parent_id = page_id;
    children = map to_reference (sort_with (title_before un) children);
  }

  -- `get_children`. The tree's model refuses an empty identifier, which no page has.
  unfoldable pub get_children : String → String → WikiMethod (Wiki U) (WikiPageTree U)
  get_children page_id user_id =
      children_of page_id user_id >>= λ pages. pure (tree_of page_id pages)
