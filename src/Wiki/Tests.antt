-- ===== src/Wiki/Tests.antt =====
-- The in-memory wiki on a small wiki: runs, and each theorem at a concrete input.
use ai_agents.Prelude.{
  ℕ, ◌+◌, ◌≡◌, refl, String, false, none, some, List, [], ◌∷◌, map, string_eq, nat_eq, All,
}
use ai_agents.Prelude.Exec.{ok, err}
use ai_agents.Dict.{lookup, insert, erase}
use ai_agents.Text.{map_chars}
use ai_agents.Prelude.{◌-◌, ◌*◌, ◌≤◌, length, arith}
use ai_agents.Text.{join}
use ai_agents.Samples.{plain, tables}
use ai_agents.Wiki.Terms.{
  terms, words_from, collect, is_skipped, str_length, climb, ladder, query_of,
}
use ai_agents.Wiki.Terms.Content.{IsContent, terms-IsContent}
use ai_agents.Wiki.Terms.Ladder.{rungs, ladder_lem}
use ai_agents.Wiki.Freshness.{
  PageFreshnessDetector, ageing, make_detector, freshness_of, days_since, day, IsJudged, judge,
  judge-IsJudged,
}
use ai_agents.Wiki.Tools.Creation.{IsCreation, create_page-IsCreation}
use ai_agents.Wiki.Tools.{create_page}
use ai_agents.Wiki.Error.{concurrent_edit, access_denied}
use ai_agents.Wiki.Models.{WikiPage, markdown, current, relevance}
use ai_agents.Wiki.Models.Search.{WikiSearchRequest, WikiSearchResult}
use ai_agents.Wiki.Store.{
  Wiki, SpaceEntry, PageEntry, make_wiki, may_read, entry_of, store, remove, page_of,
}
use ai_agents.Wiki.Store.Valid.{IsValid}
use ai_agents.Wiki.Tools.{update_page, delete_page, version_at, extended_history, revised}
use ai_agents.Wiki.Reading.{search_wiki, reference}
use ai_agents.Wiki.Tools.Update.{updated_entry}
use ai_agents.Wiki.Tools.Revision.{IsUpdate, update_page-IsUpdate, second_write_refused}
use ai_agents.Wiki.Tools.Search.{IsWikiPage, Opens, search_wiki-IsWikiPage, search_wiki-Opens}
use ai_agents.Wiki.Service.{WikiCall, read_history, update, delete, serve_call, run_calls}
use ai_agents.Wiki.Operations.{wiki_descriptor}
use ai_agents.Wiki.Operations.Effects.{wiki_operation_of, wiki_reads-leave}
use ai_agents.Wiki.Service.Calls.{run_calls-IsValid}
use ai_agents.Wiki.Service.Confined.{WasReadBySame, run_calls-untouched, serve_call-same_readers}

abbrev page : String → String → ℕ → WikiPage String
page i space version = record {
  page_id = i;
  space_key = space;
  title = "Install";
  body = "run it";
  body_format = markdown;
  status = current;
  parent_id = none;
  labels = "guide" ∷ [];
  created_at = 1;
  created_by = none;
  last_modified_at = 5;
  last_modified_by = none;
  version = version;
  url = "";
}

abbrev entry : WikiPage String → List String → PageEntry String
entry p accounts = record {
  page = p;
  comments = [];
  history = some (record { page_id = p.page_id; versions = version_at p.version 5 ∷ [] });
  restricted_to = accounts;
}

abbrev space : String → List String → SpaceEntry String
space k accounts = record {
  space = record { key = k; name = k; is_personal = false; homepage_id = none };
  readable_by = accounts;
}

abbrev open_entry : PageEntry String
open_entry = entry (page "p1" "DOC" 3) []

abbrev closed_entry : PageEntry String
closed_entry = entry (page "p2" "DOC" 1) ("ann" ∷ [])

abbrev site : Wiki String
site = record {
  spaces = ("DOC", space "DOC" []) ∷ ("HR", space "HR" ("ann" ∷ [])) ∷ [];
  pages = ("p1", open_entry) ∷ ("p2", closed_entry) ∷ ("p3", entry (page "p3" "HR" 2) []) ∷ [];
}

made_site :
    make_wiki
      (space "DOC" [] ∷ space "HR" ("ann" ∷ []) ∷ [])
      (open_entry ∷ closed_entry ∷ entry (page "p3" "HR" 2) [] ∷ [])
    ≡ site
unfolding make_wiki
made_site = refl

site-IsValid : IsValid site
site-IsValid = record {
  nodup = (refl, (refl, (refl, tt)));
  keyed = (refl, (refl, (refl, tt)));
  sound = (
    record { identified = refl; numbered = refl; recorded = (refl, refl, refl) },
    (
      record { identified = refl; numbered = refl; recorded = (refl, refl, refl) },
      (record { identified = refl; numbered = refl; recorded = (refl, refl, refl) }, tt),
    ),
  );
}

abbrev request : WikiSearchRequest
request = record {
  text = "install";
  space_keys = [];
  labels = "GUIDE" ∷ [];
  title_contains = " ";
  modified_after = some 5;
  modified_before = none;
  statuses = current ∷ [];
  sort_order = relevance;
  limit = 10;
}

refused_by_space : page_of "p3" "bob" site ≡ (err (access_denied "p3"), site)
unfolding page_of entry_of may_read lookup
refused_by_space = refl

abbrev edited : Wiki String
edited = record site {
  pages =
      ("p1", updated_entry 9 "new" none open_entry)
      ∷ ("p2", closed_entry)
      ∷ ("p3", entry (page "p3" "HR" 2) [])
      ∷ [];
}

first_write :
    update_page 9 "p1" "new" none (some 3) "bob" site
    ≡ (ok (revised 9 "new" none open_entry.page), edited)
unfolding update_page entry_of may_read lookup extended_history store insert
first_write = refl

still_there : lookup "p2" (serve_call tables "bob" (delete "p1") site).1.pages ≡ some closed_entry
unfolding serve_call delete_page entry_of may_read lookup remove erase
still_there = refl

abbrev others : List (String × WikiCall)
others = ("bob", update 9 "p2" "mine" none none) ∷ ("eve", delete "p2") ∷ ("bob", delete "p1") ∷ []

run_calls-untouched_example : lookup "p2" (run_calls tables others site).pages ≡ some closed_entry
unfolding may_read lookup
run_calls-untouched_example =
    run_calls-untouched tables others site "p2" closed_entry site-IsValid refl refl

serve_call-same_readers_example :
    WasReadBySame site (serve_call tables "bob" (delete "p1") site).1 "p2" closed_entry
unfolding lookup
serve_call-same_readers_example =
    serve_call-same_readers tables "bob" (delete "p1") site "p2" closed_entry site-IsValid refl
      still_there

wiki_reads-leave_example : (serve_call tables "bob" (read_history "p1") site).1 ≡ site
unfolding wiki_descriptor wiki_operation_of
wiki_reads-leave_example = wiki_reads-leave tables "bob" (read_history "p1") site refl

run_calls-IsValid_example : IsValid (run_calls tables others site)
run_calls-IsValid_example = run_calls-IsValid tables others site site-IsValid

update_page-IsUpdate_example :
    IsUpdate 9 "p1" "new" none
      (some 3)
      "bob"
      site
      (update_page 9 "p1" "new" none (some 3) "bob" site)
update_page-IsUpdate_example =
    update_page-IsUpdate 9 "p1" "new" none (some 3) "bob" site site-IsValid

second_write_refused_example :
    update_page 10 "p1" "late" none (some 3) "eve" edited
    ≡ (err (concurrent_edit "p1" 3 (3 + 1)), edited)
unfolding may_read lookup
second_write_refused_example =
    second_write_refused 9 3 "p1" "new" none "bob" site edited
      (revised 9 "new" none open_entry.page) site-IsValid first_write
      (updated_entry 9 "new" none open_entry) refl 10 "late" none "eve" refl

search_wiki-IsWikiPage_example :
    (res : WikiSearchResult String) × (search_wiki tables request "bob" site ≡ (ok res, site))
    × IsWikiPage tables request "bob" site res
search_wiki-IsWikiPage_example = search_wiki-IsWikiPage tables request "bob" site

search_wiki-Opens_example :
    (res : WikiSearchResult String) × (search_wiki tables request "bob" site ≡ (ok res, site))
    × (ps : List (WikiPage String)) × (res.references ≡ map (reference tables) ps)
    × All (Opens "bob" site) ps
search_wiki-Opens_example = search_wiki-Opens tables "bob" site request site-IsValid

asked : terms tables 2 "what is the scope of the VAT scope, please?" ≡ "scope" ∷ "VAT" ∷ []
unfolding terms words_from collect is_skipped str_length map_chars
asked = refl

climbed : ladder tables 8 "scope of VAT year" 2 ≡ "scope VAT year" ∷ "scope VAT" ∷ []
unfolding ladder terms words_from collect is_skipped str_length map_chars climb join
climbed = refl

terms-IsContent_example :
    IsContent tables 2 (terms tables 2 "scope of VAT year")
    × (length (terms tables 2 "scope of VAT year") ≤ 2)
terms-IsContent_example = terms-IsContent tables 2 "scope of VAT year" (omega arith)

ladder_lem_example :
    (ladder tables 8 "scope of VAT year" 2
      ≡ query_of tables 8 "scope of VAT year"
        ∷ rungs 1
            (terms tables 8 "scope of VAT year")
            (length (terms tables 8 "scope of VAT year") - 1))
    × (length (ladder tables 8 "scope of VAT year" 2) ≤ 2)
ladder_lem_example = ladder_lem tables 8 "scope of VAT year" 1

abbrev detector : PageFreshnessDetector
detector = record { ageing_after_days = 90; stale_after_days = 180 }

made_detector : make_detector 90 180 ≡ ok detector
unfolding make_detector
made_detector = refl

judged_ageing : freshness_of detector (days_since (7 + 100 * day) 7) ≡ ageing
unfolding freshness_of days_since
judged_ageing = refl

judge-IsJudged_example :
    IsJudged detector
      (7 + 100 * day)
      7
      (judge {U = String} detector (7 + 100 * day) "p1" "Install" 7 3).freshness
judge-IsJudged_example =
    judge-IsJudged 90 180 detector made_detector (7 + 100 * day) "p1" "Install" 7 3

create_page-IsCreation_example :
    IsCreation "ab12" 9 "DOC" "Setup" "do it"
      (some "p1")
      "bob"
      site
      (create_page "ab12" 9 "DOC" "Setup" "do it" (some "p1") "bob" site)
create_page-IsCreation_example =
    create_page-IsCreation "ab12" 9 "DOC" "Setup" "do it" (some "p1") "bob" site refl refl
