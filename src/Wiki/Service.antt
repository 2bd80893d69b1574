-- ===== src/Wiki/Service.antt =====
-- The calls of `InMemoryWikiTools` by several users, one after the other. An `async` method of this
-- class never awaits, so a call is one step.
pub mod Steps
pub mod Calls
pub mod Confined
use ai_agents.Prelude.{
  ℕ, String, Bool, true, false, List, [], ◌∷◌, Option, none, some, ◌==◌, string_eq, if◌then◌else◌,
}
use ai_agents.Prelude.Exec.{Exec, ok, err, pure, ◌>>=◌}
use ai_agents.Text.{Unicode, concat}
use ai_agents.Runtime.{Untrusted}
use ai_agents.Wiki.Error.{WikiMethod}
use ai_agents.Wiki.Models.{WikiSpace, WikiPage, WikiComment, WikiPageHistory}
use ai_agents.Wiki.Models.Search.{WikiSearchRequest, WikiSearchResult, WikiPageTree}
use ai_agents.Wiki.Store.{Wiki, page_of, history_of}
use ai_agents.Wiki.Tools.{create_page, update_page, delete_page, add_comment}
use ai_agents.Wiki.Reading.{search_wiki, get_children, list_spaces, get_comments}

-- A call, with the choices of the environment: `fresh` names and the time.
pub data WikiCall : Type 0 where
  find : WikiSearchRequest → WikiCall
  read_page read_children read_comments read_history : String → WikiCall
  read_spaces : WikiCall
  create : String → ℕ → String → String → String → Option String → WikiCall
  update : ℕ → String → String → Option String → Option ℕ → WikiCall
  delete : String → WikiCall
  comment : String → ℕ → String → String → Option String → WikiCall

pub data WikiReply (U : Type 0) : Type 0 where
  search_result : WikiSearchResult U → WikiReply U
  one_page : WikiPage U → WikiReply U
  child_pages : WikiPageTree U → WikiReply U
  all_spaces : List (WikiSpace U) → WikiReply U
  all_comments : List (WikiComment U) → WikiReply U
  revisions : WikiPageHistory U → WikiReply U
  posted_comment : WikiComment U → WikiReply U
  done : WikiReply U

abbrev pub answer :
    {U A : Type 0} → (A → WikiReply U) → WikiMethod (Wiki U) A → WikiMethod (Wiki U) (WikiReply U)
answer f m = m >>= λ a. pure (f a)

-- Whether a call would give its new page this identifier.
abbrev pub creates : String → WikiCall → Bool
creates i (create fresh now space_key title body parent_id) = concat ("page-" ∷ fresh ∷ []) == i
creates i _ = false

module _ {U : Type 0} ⦃u : Untrusted U⦄ (un : Unicode) where
  unfoldable pub serve_call : String → WikiCall → WikiMethod (Wiki U) (WikiReply U)
  serve_call user (find r) = answer search_result (search_wiki un r user)
  serve_call user (read_page i) = answer one_page (page_of i user)
  serve_call user (read_children i) = answer child_pages (get_children un i user)
  serve_call user (read_comments i) = answer all_comments (get_comments i user)
  serve_call user (read_history i) = answer revisions (history_of i user)
  serve_call user read_spaces = answer all_spaces (list_spaces user)
  serve_call user (create fresh now space_key title body parent_id) =
      answer one_page (create_page fresh now space_key title body parent_id user)
  serve_call user (update now i body title expected) =
      answer one_page (update_page now i body title expected user)
  serve_call user (delete i) = answer (λ _. done) (delete_page i user)
  serve_call user (comment fresh now i body parent) =
      answer posted_comment (add_comment fresh now i body parent user)

  pub run_calls : List (String × WikiCall) → Wiki U → Wiki U
  run_calls [] wiki = wiki
  run_calls ((user, call) ∷ calls) wiki = run_calls calls (serve_call user call wiki).1
