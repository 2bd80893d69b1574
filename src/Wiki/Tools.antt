-- ===== src/Wiki/Tools.antt =====
-- The operations of `InMemoryWikiTools` that write, of
-- agents/wiki/src/ai_agent_lab/wiki/infrastructure/inmemory/wiki_tools.py.
pub mod Update
pub mod Revision
pub mod Creation
pub mod Search
use ai_agents.Prelude.{
  ℕ, ◌+◌, String, false, not, [], ◌∷◌, ◌++◌, Option, none, some, ◌==◌, string_eq, nat_eq,
  if◌then◌else◌, any,
}
use ai_agents.Prelude.Exec.{ok, err, pure, lift, gets, raise_if, and_then, ◌>>=◌, ◌>>◌}
use ai_agents.Text.{concat}
use ai_agents.Runtime.{Untrusted}
use ai_agents.Wiki.Error.{WikiChecked, WikiMethod, not_found, concurrent_edit}
use ai_agents.Wiki.Models.{
  WikiPage, WikiComment, WikiPageVersion, WikiPageHistory, make_page, make_comment, make_version,
  make_history, markdown, current,
}
use ai_agents.Wiki.Store.{Wiki, PageEntry, entry_of, page_of, store, remove, has_space}

module _ {U : Type 0} where
  -- `_require_current_version`
  abbrev pub require_current_version : WikiPage U → Option ℕ → WikiChecked (Unit {0})
  require_current_version p none = ok tt
  require_current_version p (some expected) =
      if expected == p.version then ok tt else err (concurrent_edit p.page_id expected p.version)

  -- `_require_known_comment`
  abbrev pub require_known_comment : PageEntry U → Option String → WikiChecked (Unit {0})
  require_known_comment e none = ok tt
  require_known_comment e (some parent) =
      if any (λ (c : WikiComment U). c.comment_id == parent) e.comments
      then ok tt
      else err (not_found "comment" parent)

  abbrev pub version_at : ℕ → ℕ → WikiPageVersion U
  version_at version modified_at = record {
    version = version;
    modified_at = modified_at;
    modified_by = none;
    message = none;
    is_minor_edit = false;
  }

  -- `_initial_history`
  unfoldable pub initial_history : WikiPage U → ℕ → WikiChecked (WikiPageHistory U)
  unfolding make_history make_version
  initial_history p moment =
      and_then (make_version (version_at 1 moment)) (λ v. make_history p.page_id (v ∷ []))

  abbrev pub seed_of : WikiPage U → WikiPageVersion U
  seed_of p = record {
    version = p.version;
    modified_at = p.last_modified_at;
    modified_by = p.last_modified_by;
    message = none;
    is_minor_edit = false;
  }

  abbrev pub extended_from :
      Option (WikiPageHistory U)
      → WikiPage U
      → WikiPage U
      → WikiPageVersion U
      → WikiChecked (WikiPageHistory U)
  extended_from (some history) previous p entry = make_history p.page_id (entry ∷ history.versions)
  extended_from none previous p entry =
      and_then (make_version (seed_of previous))
        (λ seed. make_history p.page_id (entry ∷ seed ∷ []))

  -- `_extended_history`
  unfoldable pub extended_history :
      Option (WikiPageHistory U) → WikiPage U → WikiPage U → ℕ → WikiChecked (WikiPageHistory U)
  unfolding make_history make_version
  extended_history history previous p moment =
      and_then (make_version (version_at p.version moment)) (extended_from history previous p)

  -- `delete_page`
  unfoldable pub delete_page : String → String → WikiMethod (Wiki U) (Unit {0})
  delete_page page_id user_id = entry_of page_id user_id >> remove page_id

  -- What a new revision of an entry is stored as.
  abbrev pub revised_entry : PageEntry U → WikiPage U → WikiPageHistory U → PageEntry U
  revised_entry e updated history = record {
    page = updated;
    comments = e.comments;
    history = some history;
    restricted_to = e.restricted_to;
  }

  abbrev pub commented_entry : PageEntry U → WikiComment U → PageEntry U
  commented_entry e comment = record {
    page = e.page;
    comments = e.comments ++ comment ∷ [];
    history = e.history;
    restricted_to = e.restricted_to;
  }

  -- The parent is read, where one is given.
  abbrev pub require_parent : Option String → String → WikiMethod (Wiki U) (Unit {0})
  require_parent none user_id = pure tt
  require_parent (some parent) user_id = page_of parent user_id >> pure tt

  abbrev pub fresh_entry : WikiPage U → WikiPageHistory U → PageEntry U
  fresh_entry p history = record {
    page = p;
    comments = [];
    history = some history;
    restricted_to = [];
  }

  -- The end of `create_page`, once the page is checked.
  abbrev pub enter_page : WikiPage U → WikiPageHistory U → WikiMethod (Wiki U) (WikiPage U)
  enter_page p history = store (fresh_entry p history) >> pure p

  abbrev pub write_page : ℕ → WikiPage U → WikiMethod (Wiki U) (WikiPage U)
  write_page now p = lift (initial_history p now) >>= enter_page p

module _ {U : Type 0} ⦃u : Untrusted U⦄ where
  abbrev pub blank_page : String → ℕ → String → String → String → Option String → WikiPage U
  blank_page fresh now space_key title body parent_id = record {
    page_id = concat ("page-" ∷ fresh ∷ []);
    space_key = space_key;
    title = u.untrusted title ("wiki", "page_title");
    body = u.untrusted body ("wiki", "page_body");
    body_format = markdown;
    status = current;
    parent_id = parent_id;
    labels = [];
    created_at = now;
    created_by = none;
    last_modified_at = now;
    last_modified_by = none;
    version = 1;
    url = "";
  }

  -- `create_page`: `fresh` is `uuid4().hex[:8]`, `now` the clock's time.
  unfoldable pub create_page :
      String
      → ℕ
      → String
      → String
      → String
      → Option String
      → String
      → WikiMethod (Wiki U) (WikiPage U)
  create_page fresh now space_key title body parent_id user_id = do
    raise_if (not (← gets (has_space space_key))) (not_found "space" space_key)
    require_parent parent_id user_id
    p ← lift (make_page (blank_page fresh now space_key title body parent_id))
    write_page now p

  abbrev pub retitled : Option String → U → U
  retitled none old = old
  retitled (some title) old = u.untrusted title ("wiki", "page_title")

  abbrev pub revised : ℕ → String → Option String → WikiPage U → WikiPage U
  revised now body title p = record p {
    body = u.untrusted body ("wiki", "page_body");
    title = retitled title p.title;
    last_modified_at = now;
    version = p.version + 1;
  }

  -- The end of `update_page`, once the entry is found.
  abbrev pub update_entry :
      ℕ → String → Option String → Option ℕ → PageEntry U → WikiMethod (Wiki U) (WikiPage U)
  update_entry now body title expected e = do
    lift (require_current_version e.page expected)
    history ← lift (extended_history e.history e.page (revised now body title e.page) now)
    store (revised_entry e (revised now body title e.page) history)
    pure (revised now body title e.page)

  -- `update_page`
  unfoldable pub update_page :
      ℕ → String → String → Option String → Option ℕ → String → WikiMethod (Wiki U) (WikiPage U)
  update_page now page_id body title expected user_id =
      entry_of page_id user_id >>= update_entry now body title expected

  abbrev pub posted : String → ℕ → String → String → Option String → WikiComment U
  posted fresh now page_id body parent = record {
    comment_id = concat ("comment-" ∷ fresh ∷ []);
    page_id = page_id;
    body = u.untrusted body ("wiki", "comment_body");
    body_format = markdown;
    author = none;
    created_at = now;
    parent_comment_id = parent;
    is_resolved = false;
  }

  -- The end of `add_comment`, once the entry is found.
  abbrev pub comment_on :
      String
      → ℕ
      → String
      → String
      → Option String
      → PageEntry U
      → WikiMethod (Wiki U) (WikiComment U)
  comment_on fresh now page_id body parent e = do
    lift (require_known_comment e parent)
    comment ← lift (make_comment (posted fresh now page_id body parent))
    store (commented_entry e comment)
    pure comment

  -- `add_comment`
  unfoldable pub add_comment :
      String → ℕ → String → String → Option String → String → WikiMethod (Wiki U) (WikiComment U)
  add_comment fresh now page_id body parent user_id =
      entry_of page_id user_id >>= comment_on fresh now page_id body parent
