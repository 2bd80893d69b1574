-- ===== src/Wiki/Operations/Effects.antt =====
-- The catalogue tells the truth about the in-memory wiki.
use ai_agents.Prelude.{◌≡◌, refl, String, false, arith}
use ai_agents.Text.{Unicode}
use ai_agents.Runtime.{Untrusted}
use ai_agents.Operations.{is_write}
use ai_agents.Wiki.Store.{Wiki, page_of, history_of}
use ai_agents.Wiki.Reading.{search_wiki, get_children, list_spaces, get_comments}
use ai_agents.Wiki.Service.{
  WikiCall, find, read_page, read_children, read_comments, read_history, read_spaces, create,
  update, delete, comment, search_result, one_page, child_pages, all_spaces, all_comments,
  revisions, serve_call,
}
use ai_agents.Wiki.Service.Steps.{answer-keeps, page_of-kept}
use ai_agents.Wiki.Service.Calls.{history_of-kept, get_comments-kept, get_children-kept}
use ai_agents.Wiki.Operations.{WikiToolName, wiki_descriptor}
use ai_agents.Wiki.Operations as O

-- The operation that a call is, by the catalogue's names.
unfoldable pub wiki_operation_of : WikiCall → WikiToolName
wiki_operation_of (find r) = O.search_wiki
wiki_operation_of (read_page i) = O.get_page
wiki_operation_of (read_children i) = O.get_page_children
wiki_operation_of (read_comments i) = O.get_comments
wiki_operation_of (read_history i) = O.get_page_history
wiki_operation_of read_spaces = O.list_spaces
wiki_operation_of (create fresh now space_key title body parent_id) = O.create_page
wiki_operation_of (update now i body title expected) = O.update_page
wiki_operation_of (delete i) = O.delete_page
wiki_operation_of (comment fresh now i body parent) = O.add_comment

module _ {U : Type 0} ⦃u : Untrusted U⦄ (un : Unicode) (user : String) where
  -- A call whose operation the catalogue describes as reading leaves the wiki as it was, whatever
  -- its arguments are, whoever makes it and whether it fails or not.
  pub wiki_reads-leave :
      (call : WikiCall) (wiki : Wiki U)
      → is_write (wiki_descriptor (wiki_operation_of call)) ≡ false
      → (serve_call un user call wiki).1 ≡ wiki
  unfolding wiki_descriptor wiki_operation_of serve_call search_wiki list_spaces
  wiki_reads-leave (find r) wiki h =
      answer-keeps (λ w. w ≡ wiki) wiki search_result (search_wiki un r user) refl
  wiki_reads-leave (read_page i) wiki h =
      answer-keeps (λ w. w ≡ wiki) wiki one_page (page_of i user) (page_of-kept i user wiki)
  wiki_reads-leave (read_children i) wiki h =
      answer-keeps (λ w. w ≡ wiki) wiki child_pages (get_children un i user)
        (get_children-kept un user wiki i)
  wiki_reads-leave (read_comments i) wiki h =
      answer-keeps (λ w. w ≡ wiki) wiki all_comments (get_comments i user)
        (get_comments-kept user wiki i)
  wiki_reads-leave (read_history i) wiki h =
      answer-keeps (λ w. w ≡ wiki) wiki revisions (history_of i user) (history_of-kept user wiki i)
  wiki_reads-leave read_spaces wiki h =
      answer-keeps (λ w. w ≡ wiki) wiki all_spaces (list_spaces user) refl
  wiki_reads-leave _ wiki h = absurd (ground arith)
