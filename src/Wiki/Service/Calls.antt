-- ===== src/Wiki/Service/Calls.antt =====
-- Every call of the contract is one of the steps, and the steps keep a wiki well formed.
use ai_agents.Prelude.{
  ℕ, ◌≡◌, refl, sym, subst, String, Bool, false, Option, none, some, List, [], ◌∷◌, string_eq, inl,
  inr, beq_refl,
}
use ai_agents.Prelude.Exec.{pure, >>=-ok, >>=-err}
use ai_agents.Prelude.Sort.{sort_by}
use ai_agents.Text.{Unicode, concat}
use ai_agents.Runtime.{Untrusted}
use ai_agents.Wiki.Models.{WikiPageHistory}
use ai_agents.Wiki.Store.{
  Wiki, PageEntry, entry_of, page_of, comments_of, history_of, children_of, recorded, list_children,
}
use ai_agents.Wiki.Store.Valid.{IsValid, store-IsValid, remove-IsValid}
use ai_agents.Wiki.Store.Access.{entry_of-cases}
use ai_agents.Wiki.Tools.{create_page, update_page, delete_page, add_comment, comment_on}
use ai_agents.Wiki.Reading.{
  search_wiki, get_children, list_spaces, get_comments, comment_key, tree_of,
}
use ai_agents.Wiki.Service.{
  search_result, one_page, child_pages, all_spaces, all_comments, revisions, posted_comment, done,
  find, read_page, read_children, read_comments, read_history, read_spaces, create, update, delete,
  comment, WikiCall, creates, serve_call, run_calls,
}
use ai_agents.Wiki.Service.Steps.{
  IsStep, kept, wrote, added, removed, >>=-keeps, answer-keeps, page_of-kept, create_page-IsStep,
  comment_on-IsStep, delete_page-IsStep, update_page-IsStep,
}

module _ {U : Type 0} (user : String) (wiki : Wiki U) where
  recorded-kept : (i : String) (h : Option (WikiPageHistory U)) → (recorded i h wiki).1 ≡ wiki
  recorded-kept i none = refl
  recorded-kept i (some h) = refl

  pub history_of-kept : (i : String) → (history_of i user wiki).1 ≡ wiki
  unfolding history_of entry_of
  history_of-kept i =
      >>=-keeps (λ w. w ≡ wiki) wiki (entry_of i user) (λ (e : PageEntry U). recorded i e.history)
        refl (λ e h. recorded-kept i e.history)

  pub get_comments-kept : (i : String) → (get_comments i user wiki).1 ≡ wiki
  unfolding get_comments comments_of entry_of
  get_comments-kept i =
      let inner : (comments_of i user wiki).1 ≡ wiki =
        >>=-keeps (λ w. w ≡ wiki) wiki (entry_of i user) (λ (e : PageEntry U). pure e.comments) refl
          (λ a e. refl) in
      >>=-keeps (λ w. w ≡ wiki) wiki (comments_of i user)
        (λ cs. pure (sort_by comment_key false cs)) inner (λ a e. inner)

  children_of-kept : (i : String) → (children_of i user wiki).1 ≡ wiki
  unfolding children_of entry_of
  children_of-kept i =
      >>=-keeps (λ w. w ≡ wiki) wiki (entry_of i user) (λ _. list_children i user) refl
        (λ a e. refl)

module _ {U : Type 0} ⦃u : Untrusted U⦄ (un : Unicode) (user : String) (wiki : Wiki U) where
  pub get_children-kept : (i : String) → (get_children un i user wiki).1 ≡ wiki
  unfolding get_children
  get_children-kept i =
      >>=-keeps (λ w. w ≡ wiki) wiki (children_of i user) (λ pages. pure (tree_of un i pages))
        (children_of-kept user wiki i) (λ a e. children_of-kept user wiki i)

  add_comment-IsStep :
      (made : String → Bool) (fresh : String) (now : ℕ) (i body : String) (parent : Option String)
      → IsValid wiki
      → IsStep user wiki made (add_comment fresh now i body parent user wiki).1
  unfolding add_comment
  add_comment-IsStep made fresh now i body parent v = elim (entry_of-cases i user wiki) [
    | inl (e, found, may, reads) ↦
        subst (λ q. IsStep user wiki made q.1)
          (sym (>>=-ok (entry_of i user) (comment_on fresh now i body parent) wiki e wiki reads))
          (comment_on-IsStep user wiki made fresh now i body parent e v found may)
    | inr (x, refused, fails) ↦
        subst (λ q. IsStep user wiki made q.1)
          (sym (>>=-err (entry_of i user) (comment_on fresh now i body parent) wiki x wiki fails))
          kept
  ]

  pub serve_call-IsStep :
      (call : WikiCall)
      → IsValid wiki
      → IsStep user wiki (λ i. creates i call) (serve_call un user call wiki).1
  unfolding search_wiki list_spaces serve_call
  serve_call-IsStep (find r) v =
      answer-keeps (IsStep user wiki _) wiki search_result (search_wiki un r user) kept
  serve_call-IsStep (read_page i) v =
      answer-keeps (IsStep user wiki _) wiki one_page (page_of i user)
        (subst (IsStep user wiki _) (sym (page_of-kept i user wiki)) kept)
  serve_call-IsStep (read_children i) v =
      answer-keeps (IsStep user wiki _) wiki child_pages (get_children un i user)
        (subst (IsStep user wiki _) (sym (get_children-kept i)) kept)
  serve_call-IsStep (read_comments i) v =
      answer-keeps (IsStep user wiki _) wiki all_comments (get_comments i user)
        (subst (IsStep user wiki _) (sym (get_comments-kept user wiki i)) kept)
  serve_call-IsStep (read_history i) v =
      answer-keeps (IsStep user wiki _) wiki revisions (history_of i user)
        (subst (IsStep user wiki _) (sym (history_of-kept user wiki i)) kept)
  serve_call-IsStep read_spaces v =
      answer-keeps (IsStep user wiki _) wiki all_spaces (list_spaces user) kept
  serve_call-IsStep (create fresh now space_key title body parent) v =
      answer-keeps (IsStep user wiki _) wiki one_page
        (create_page fresh now space_key title body parent user)
        (create_page-IsStep user wiki
          (λ i. creates i (create fresh now space_key title body parent)) fresh now space_key title
          body parent (beq_refl (concat ("page-" ∷ fresh ∷ []))))
  serve_call-IsStep (update now i body title expected) v =
      answer-keeps (IsStep user wiki _) wiki one_page (update_page now i body title expected user)
        (update_page-IsStep user wiki _ now i body title expected v)
  serve_call-IsStep (delete i) v =
      answer-keeps (IsStep user wiki _) wiki (λ _. done) (delete_page i user)
        (delete_page-IsStep user wiki _ i)
  serve_call-IsStep (comment fresh now i body parent) v =
      answer-keeps (IsStep user wiki _) wiki posted_comment
        (add_comment fresh now i body parent user) (add_comment-IsStep _ fresh now i body parent v)

step-IsValid :
    {U : Type 0} (user : String) (wiki w : Wiki U) (made : String → Bool)
    → IsValid wiki
    → IsStep user wiki made w
    → IsValid w
step-IsValid user wiki w made v kept = v
step-IsValid user wiki w made v (wrote e e' found may s a b c) = store-IsValid e' wiki s v
step-IsValid user wiki w made v (added e m s) = store-IsValid e wiki s v
step-IsValid user wiki w made v (removed i e found may) = remove-IsValid i wiki v

module _ {U : Type 0} ⦃u : Untrusted U⦄ (un : Unicode) where
  pub serve_call-IsValid :
      (user : String) (call : WikiCall) (wiki : Wiki U)
      → IsValid wiki
      → IsValid (serve_call un user call wiki).1
  serve_call-IsValid user call wiki v =
      step-IsValid user wiki (serve_call un user call wiki).1 (λ i. creates i call) v
        (serve_call-IsStep un user wiki call v)

  -- After any calls by any users a well-formed wiki is well formed: every page stands under its own
  -- identifier, its version is at least one, and the versions of its history run from newest to
  -- oldest without repetition, the newest being the page's.
  pub run_calls-IsValid :
      (calls : List (String × WikiCall)) (wiki : Wiki U)
      → IsValid wiki
      → IsValid (run_calls un calls wiki)
  unfolding run_calls
  run_calls-IsValid [] wiki v = v
  run_calls-IsValid ((user, call) ∷ calls) wiki v =
      run_calls-IsValid calls (serve_call un user call wiki).1 (serve_call-IsValid user call wiki v)
