-- ===== src/Wiki/Tools/Search.antt =====
-- `search` of the wiki: what is found is what the account may read.
use ai_agents.Prelude.{
  ℕ, zero, suc, ◌≤◌, ◌≡◌, refl, ◌∙◌, ap, subst, ◌↔◌, String, true, some, List, [], ◌∷◌, map, arith,
  string_eq, Bool-cases, inl, inr, ltb, select, take, length, length-map, length-take, All,
}
use ai_agents.Prelude.Naturality.{All-take, All-select_from}
use Prim.Native.Nat.{min}
use mathlib.Core.List.{Perm}
use ai_agents.Prelude.Exec.{ok, err}
use ai_agents.Prelude.Sort.{
  sort_by-perm, sort_with-perm, length-sort_by, length-sort_with, All-sort_by, All-sort_with,
  IsOrdered, sort_by-IsOrdered,
}
use ai_agents.Dict.{Dict, values, lookup}
use ai_agents.Text.{Unicode}
use ai_agents.Runtime.{Untrusted}
use ai_agents.Wiki.Models.{
  WikiPage, WikiPageReference, to_reference, WikiSortOrder, relevance, last_modified, created,
  title,
}
use ai_agents.Wiki.Models.Search.{WikiSearchRequest, WikiSearchResult, make_wiki_result}
use ai_agents.Wiki.Store.{
  Wiki, PageEntry, may_read, readable_pages, page_key, page_of, entry_of, resolve,
}
use ai_agents.Wiki.Store.Valid.{IsValid}
use ai_agents.Dict.Values.{EachEntry, EachEntry-found, IsKeyed}
use ai_agents.Wiki.Error.{WikiChecked}
use ai_agents.Wiki.Matcher.{matches_page, ordered, title_before, modified_key, created_key}
use ai_agents.Wiki.Reading.{search_wiki, found_pages, reference, cut}
use ai_agents.Wiki.Matcher.Criteria.{MeetsPage, matches_page_iff}
use ai_agents.Wiki.Matcher.Titles.{IsByTitle, sort_with-IsByTitle}
use ai_agents.Text.Slice.{keep}

ltb-min : (a b : ℕ) → ltb (min a b) b ≡ ltb a b
ltb-min a b = grind arith

cut_lem : (n : ℕ) (s : String) → cut n s ≡ keep n s
unfolding cut keep
cut_lem zero s = refl
cut_lem (suc n) String.[] = refl
cut_lem (suc n) (String.◌∷◌ c s) = ap (String.◌∷◌ c) (cut_lem n s)

module _ {U : Type 0} ⦃u : Untrusted U⦄ (un : Unicode) where
  ordered-perm : (o : WikiSortOrder) (ps : List (WikiPage U)) → Perm (ordered un o ps) ps
  ordered-perm title ps = sort_with-perm (title_before un) ps
  ordered-perm created ps = sort_by-perm created_key true ps
  ordered-perm last_modified ps = sort_by-perm modified_key true ps
  ordered-perm relevance ps = sort_by-perm modified_key true ps

  length-ordered :
      (o : WikiSortOrder) (ps : List (WikiPage U)) → length (ordered un o ps) ≡ length ps
  length-ordered title ps = length-sort_with (title_before un) ps
  length-ordered created ps = length-sort_by created_key true ps
  length-ordered last_modified ps = length-sort_by modified_key true ps
  length-ordered relevance ps = length-sort_by modified_key true ps

  -- Newest first by the date that the order names, or by title.
  abbrev pub IsRanked : WikiSortOrder → List (WikiPage U) → Type 0
  IsRanked title ps = IsByTitle un ps
  IsRanked created ps = IsOrdered (λ (p : WikiPage U). p.created_at) true ps
  IsRanked last_modified ps = IsOrdered (λ (p : WikiPage U). p.last_modified_at) true ps
  IsRanked relevance ps = IsOrdered (λ (p : WikiPage U). p.last_modified_at) true ps

  ordered-IsRanked : (o : WikiSortOrder) (ps : List (WikiPage U)) → IsRanked o (ordered un o ps)
  ordered-IsRanked title ps = sort_with-IsByTitle un ps
  ordered-IsRanked created ps = sort_by-IsOrdered created_key true ps
  ordered-IsRanked last_modified ps = sort_by-IsOrdered modified_key true ps
  ordered-IsRanked relevance ps = sort_by-IsOrdered modified_key true ps

  -- The pages that the account may read and that the search accepts.
  abbrev pub visible : WikiSearchRequest → String → Wiki U → List (WikiPage U)
  visible r user wiki =
      select (λ p. matches_page un p r)
        (map (λ (e : PageEntry U). e.page) (select (λ e. may_read wiki e user) (values wiki.pages)))

  -- What a search shows of a page, with the first 200 characters of its text, fenced.
  abbrev pub excerpted : WikiPage U → WikiPageReference U
  excerpted p = record {
    page_id = p.page_id;
    space_key = p.space_key;
    title = p.title;
    excerpt = some (u.untrusted (keep 200 (u.expose p.body)) ("wiki", "page_excerpt"));
    status = p.status;
    last_modified_at = p.last_modified_at;
    version = p.version;
    url = p.url;
  }

  reference_lem : (p : WikiPage U) → reference un p ≡ excerpted p
  unfolding reference to_reference
  reference_lem p = rw (cut_lem 200 (u.expose p.body)) refl

  references_lem : (ps : List (WikiPage U)) → map (reference un) ps ≡ map excerpted ps
  references_lem [] = refl
  references_lem (p ∷ ps) = rw (reference_lem p, references_lem ps) refl

  visible_lem :
      (r : WikiSearchRequest) (user : String) (wiki : Wiki U)
      → select (λ p. matches_page un p r) (readable_pages user wiki) ≡ visible r user wiki
  unfolding readable_pages
  visible_lem r user wiki = refl

  pub record IsWikiPage (r : WikiSearchRequest) (user : String) (wiki : Wiki U)
      (res : WikiSearchResult U) : Type 0 where
    pub ranked :
        (ps : List (WikiPage U)) × Perm ps (visible r user wiki)
        × IsRanked r.sort_order ps
        × (res.references ≡ map excerpted (take r.limit ps))
    pub criteria : (p : WikiPage U) → (matches_page un p r ≡ true) ↔ MeetsPage un p r
    pub total : res.total_count ≡ length (visible r user wiki)
    pub truncated : res.truncated ≡ ltb r.limit (length (visible r user wiki))

  abbrev shown : WikiSearchRequest → String → Wiki U → WikiSearchResult U
  shown r user wiki = record {
    references = map (reference un) (take r.limit (found_pages un r user wiki));
    total_count = length (found_pages un r user wiki);
    truncated =
        ltb (length (take r.limit (found_pages un r user wiki)))
          (length (found_pages un r user wiki));
  }

  module _ (r : WikiSearchRequest) (user : String) (wiki : Wiki U) where
    length-found_pages : length (found_pages un r user wiki) ≡ length (visible r user wiki)
    length-found_pages = length-ordered r.sort_order _ ∙ ap length (visible_lem r user wiki)

    length-selected :
        length (take r.limit (found_pages un r user wiki))
        ≡ min r.limit (length (found_pages un r user wiki))
    length-selected = length-take r.limit (found_pages un r user wiki)

    search_wiki_ok : search_wiki un r user wiki ≡ (ok (shown r user wiki), wiki)
    unfolding search_wiki make_wiki_result
    search_wiki_ok = ap (λ x. (x, wiki)) (ground (arith, shown_count))
      where
        shown_count :
            length (map (reference un) (take r.limit (found_pages un r user wiki)))
            ≤ length (found_pages un r user wiki)
        shown_count = omega (
          arith,
          length-map (take r.limit (found_pages un r user wiki)) (reference un),
          length-selected,
        )

  -- Every search of the wiki succeeds and changes nothing. It refers to the first `limit` of the
  -- pages that the account may read and that meet its criteria, newest first by the date that it asks
  -- for, or by case-folded title, with the first 200 characters of each text as a fenced excerpt; it
  -- counts all of them, and is marked truncated exactly if there are more than `limit`.
  pub search_wiki-IsWikiPage :
      (r : WikiSearchRequest) (user : String) (wiki : Wiki U)
      → (res : WikiSearchResult U) × (search_wiki un r user wiki ≡ (ok res, wiki))
        × IsWikiPage r user wiki res
  search_wiki-IsWikiPage r user wiki = (
    shown r user wiki,
    search_wiki_ok r user wiki,
    record {
      ranked = (
        found_pages un r user wiki,
        subst (Perm (found_pages un r user wiki)) (visible_lem r user wiki)
            (ordered-perm r.sort_order _),
        ordered-IsRanked r.sort_order _,
        references_lem (take r.limit (found_pages un r user wiki)),
      );
      criteria = λ p. matches_page_iff un p r;
      total = length-found_pages r user wiki;
      truncated =
          ap (λ n. ltb n (length (found_pages un r user wiki))) (length-selected r user wiki)
          ∙ ltb-min r.limit (length (found_pages un r user wiki))
          ∙ ap (ltb r.limit) (length-found_pages r user wiki);
    },
  )

module _ {U : Type 0} (user : String) (wiki : Wiki U) where
  -- The page is opened by its identifier.
  abbrev pub Opens : WikiPage U → Type 0
  Opens p = page_of p.page_id user wiki ≡ (ok p, wiki)

  entry-Opens :
      (i : String) (e : PageEntry U)
      → lookup i wiki.pages ≡ some e
      → e.page.page_id ≡ i
      → may_read wiki e user ≡ true
      → Opens e.page
  unfolding page_of entry_of
  entry-Opens i e found named may =
      ap
        (λ (o : WikiChecked (PageEntry U)). elim o [
          | ok x ↦ (ok x.page, wiki)
          | err x ↦ (err x, wiki)
        ])
        reads
    where
      reads : resolve e.page.page_id user wiki (lookup e.page.page_id wiki.pages) ≡ ok e
      reads =
          ap (resolve e.page.page_id user wiki) (ap (λ k. lookup k wiki.pages) named ∙ found)
          ∙ rw may refl

  readable-open :
      (d : Dict String (PageEntry U))
      → EachEntry (λ i e. lookup i wiki.pages ≡ some e) d
      → IsKeyed page_key d
      → All Opens
          (map (λ (e : PageEntry U). e.page) (select (λ e. may_read wiki e user) (values d)))
  readable-open [] h k = tt
  readable-open ((i, e) ∷ d) h k = elim (Bool-cases (may_read wiki e user)) [
    | inl may ↦ rw may (entry-Opens i e h.0 k.0 may, readable-open d h.1 k.1)
    | inr closed ↦ rw closed (readable-open d h.1 k.1)
  ]

module _ {U : Type 0} ⦃u : Untrusted U⦄ (un : Unicode) (user : String) (wiki : Wiki U) where
  All-ordered :
      (P : WikiPage U → Type 0) (o : WikiSortOrder) (ps : List (WikiPage U))
      → All P ps
      → All P (ordered un o ps)
  All-ordered P title ps h = All-sort_with (title_before un) P ps h
  All-ordered P created ps h = All-sort_by created_key P true ps h
  All-ordered P last_modified ps h = All-sort_by modified_key P true ps h
  All-ordered P relevance ps h = All-sort_by modified_key P true ps h

  -- In a well-formed wiki everything that a search shows to an account can be opened by it: its
  -- references are those of pages that `get_page` answers to the same account.
  pub search_wiki-Opens :
      (r : WikiSearchRequest)
      → IsValid wiki
      → (res : WikiSearchResult U) × (search_wiki un r user wiki ≡ (ok res, wiki))
        × (ps : List (WikiPage U)) × (res.references ≡ map (reference un) ps)
        × All (Opens user wiki) ps
  unfolding readable_pages
  search_wiki-Opens r v = (
    shown un r user wiki,
    search_wiki_ok un r user wiki,
    take r.limit (found_pages un r user wiki),
    refl,
    All-take _ r.limit (found_pages un r user wiki) (
        All-ordered _ r.sort_order _ (
          All-select_from _ (λ p. matches_page un p r) (readable_pages user wiki)
            (readable-open user wiki wiki.pages (EachEntry-found wiki.pages v.nodup) v.keyed))),
  )
