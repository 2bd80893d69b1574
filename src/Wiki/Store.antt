-- ===== src/Wiki/Store.antt =====
-- `SpaceEntry`, `PageEntry` and `Wiki` of agents/wiki/src/ai_agent_lab/wiki/infrastructure/inmemory/wiki.py.
-- A frozenset of accounts is a list: the code reads whether it is empty and what it contains.
pub mod Valid
pub mod Access
use ai_agents.Prelude.{
  String, Bool, true, false, not, ◌&&◌, ◌||◌, Option, none, some, List, [], ◌∷◌, map, ◌==◌,
  string_eq, if◌then◌else◌, select, contains, is_nonempty,
}
use ai_agents.Prelude.Exec.{Exec, ok, err, pure, raise, lift, gets, modify, ◌>>=◌, ◌>>◌}
use ai_agents.Dict.{Dict, values, lookup, has_key, insert, erase}
use ai_agents.Dict.Values.{insert_all}
use ai_agents.Wiki.Error.{WikiChecked, WikiMethod, not_found, access_denied}
use ai_agents.Wiki.Models.{WikiSpace, WikiPage, WikiComment, WikiPageHistory, is_named}

pub record SpaceEntry (U : Type 0) : Type 0 where
  pub space : WikiSpace U
  pub readable_by : List String

pub record PageEntry (U : Type 0) : Type 0 where
  pub page : WikiPage U
  pub comments : List (WikiComment U)
  pub history : Option (WikiPageHistory U)
  pub restricted_to : List String

pub record Wiki (U : Type 0) : Type 0 where
  pub spaces : Dict String (SpaceEntry U)
  pub pages : Dict String (PageEntry U)

-- `not accounts or account_id in accounts`
abbrev pub admits : List String → String → Bool
admits accounts account_id = not (is_nonempty accounts) || contains account_id accounts

module _ {U : Type 0} where
  -- `SpaceEntry.is_readable_by`
  abbrev pub is_space_readable : SpaceEntry U → String → Bool
  is_space_readable entry account_id = admits entry.readable_by account_id

  -- `PageEntry.is_readable_by`
  abbrev pub is_page_readable : PageEntry U → String → Bool
  is_page_readable entry account_id = admits entry.restricted_to account_id

  abbrev pub page_key : PageEntry U → String
  page_key entry = entry.page.page_id

  abbrev pub space_key_of : SpaceEntry U → String
  space_key_of entry = entry.space.key

  -- `Wiki.__init__`
  unfoldable pub make_wiki : List (SpaceEntry U) → List (PageEntry U) → Wiki U
  unfolding insert
  make_wiki spaces pages = record {
    spaces = insert_all space_key_of spaces [];
    pages = insert_all page_key pages [];
  }

  abbrev pub in_readable_space : Option (SpaceEntry U) → String → Bool
  in_readable_space none account_id = true
  in_readable_space (some space) account_id = is_space_readable space account_id

  -- `Wiki._may_read`
  unfoldable pub may_read : Wiki U → PageEntry U → String → Bool
  may_read wiki entry account_id =
      if not (in_readable_space (lookup entry.page.space_key wiki.spaces) account_id)
      then false
      else is_page_readable entry account_id

  abbrev pub resolve : String → String → Wiki U → Option (PageEntry U) → WikiChecked (PageEntry U)
  resolve page_id account_id wiki none = err (not_found "page" page_id)
  resolve page_id account_id wiki (some entry) =
      if may_read wiki entry account_id then ok entry else err (access_denied page_id)

  -- `Wiki._entry`, which is also `Wiki.entry`.
  unfoldable pub entry_of : String → String → WikiMethod (Wiki U) (PageEntry U)
  entry_of page_id account_id wiki =
      (resolve page_id account_id wiki (lookup page_id wiki.pages), wiki)

  -- `Wiki.readable_spaces`
  unfoldable pub readable_spaces : String → Wiki U → List (WikiSpace U)
  readable_spaces account_id wiki =
      map (λ (s : SpaceEntry U). s.space)
        (select (λ s. is_space_readable s account_id) (values wiki.spaces))

  -- `Wiki.readable_pages`
  unfoldable pub readable_pages : String → Wiki U → List (WikiPage U)
  readable_pages account_id wiki =
      map (λ (e : PageEntry U). e.page)
        (select (λ e. may_read wiki e account_id) (values wiki.pages))

  -- `Wiki.page`
  unfoldable pub page_of : String → String → WikiMethod (Wiki U) (WikiPage U)
  page_of page_id account_id = entry_of page_id account_id >>= λ entry. pure entry.page

  -- `Wiki.comments`
  unfoldable pub comments_of : String → String → WikiMethod (Wiki U) (List (WikiComment U))
  comments_of page_id account_id = entry_of page_id account_id >>= λ entry. pure entry.comments

  abbrev pub recorded :
      String → Option (WikiPageHistory U) → WikiMethod (Wiki U) (WikiPageHistory U)
  recorded page_id none = raise (not_found "history of page" page_id)
  recorded page_id (some history) = pure history

  -- `Wiki.history`
  unfoldable pub history_of : String → String → WikiMethod (Wiki U) (WikiPageHistory U)
  history_of page_id account_id =
      entry_of page_id account_id >>= λ entry. recorded page_id entry.history

  abbrev pub is_child : String → String → Wiki U → PageEntry U → Bool
  is_child page_id account_id wiki e =
      is_named page_id e.page.parent_id && may_read wiki e account_id

  abbrev pub list_children : String → String → WikiMethod (Wiki U) (List (WikiPage U))
  list_children page_id account_id = gets (λ (wiki : Wiki U).
      map (λ (e : PageEntry U). e.page)
        (select (is_child page_id account_id wiki) (values wiki.pages)))

  -- `Wiki.children_of`
  unfoldable pub children_of : String → String → WikiMethod (Wiki U) (List (WikiPage U))
  children_of page_id account_id = entry_of page_id account_id >> list_children page_id account_id

  -- `Wiki.store`
  unfoldable pub store : PageEntry U → WikiMethod (Wiki U) (Unit {0})
  store entry =
      modify (λ (wiki : Wiki U). record wiki { pages = insert entry.page.page_id entry wiki.pages })

  -- `Wiki.remove`: `pop(page_id, None)`.
  unfoldable pub remove : String → WikiMethod (Wiki U) (Unit {0})
  remove page_id = modify (λ (wiki : Wiki U). record wiki { pages = erase page_id wiki.pages })

  -- `Wiki.has_space`
  abbrev pub has_space : String → Wiki U → Bool
  has_space space_key wiki = has_key space_key wiki.spaces
