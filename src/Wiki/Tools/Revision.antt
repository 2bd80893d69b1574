-- ===== src/Wiki/Tools/Revision.antt =====
-- What `update_page` promises, and that a write based on an old revision is refused.
use ai_agents.Prelude.{
  ℕ, ◌+◌, ◌≡◌, refl, sym, ◌∙◌, ap, subst, String, Bool, true, false, Option, none, some, List, [],
  ◌∷◌, arith, ◌==◌, nat_eq, string_eq, ◌⊎◌, Bool-cases, inl, inr, nat_beq_iff,
}
use ai_agents.Prelude.Exec.{Result, ok, err, >>=-ok, >>=-err}
use ai_agents.Dict.{lookup, insert, lookup-insert_same}
use ai_agents.Runtime.{Untrusted}
use ai_agents.Wiki.Error.{WikiError, concurrent_edit}
use ai_agents.Wiki.Models.{WikiPage, WikiPageVersion, WikiPageHistory}
use ai_agents.Wiki.Store.{Wiki, PageEntry, may_read, entry_of}
use ai_agents.Wiki.Store.Valid.{IsValid, found-named, found-IsSound}
use ai_agents.Wiki.Store.Access.{IsRefused, entry_of-cases}
use ai_agents.Wiki.Tools.{require_current_version, update_entry, update_page}
use ai_agents.Wiki.Tools.Update.{updated_entry, update_entry_ok, update_entry_err}

-- Whether a write names the version that the page is at, or none.
abbrev pub is_current : {U : Type 0} → WikiPage U → Option ℕ → Bool
is_current p none = true
is_current p (some expected) = expected == p.version

require_current :
    {U : Type 0} (p : WikiPage U) (o : Option ℕ)
    → ((is_current p o ≡ true) × (require_current_version p o ≡ ok tt))
      ⊎ ((v : ℕ) × (o ≡ some v)
          × ((v == p.version) ≡ false)
          × (require_current_version p o ≡ err (concurrent_edit p.page_id v p.version)))
require_current p none = inl (refl, refl)
require_current p (some v) = elim (Bool-cases (v == p.version)) [
  | inl same ↦ inl (same, rw same refl)
  | inr other ↦ inr (v, refl, other, rw other refl)
]

module _ {U : Type 0} where
  -- The versions before a write: those recorded, or the page's own where none were.
  abbrev pub earlier : WikiPage U → Option (WikiPageHistory U) → List (WikiPageVersion U)
  earlier p none =
      record {
        version = p.version;
        modified_at = p.last_modified_at;
        modified_by = p.last_modified_by;
        message = none;
        is_minor_edit = false;
      }
      ∷ []
  earlier p (some h) = h.versions

-- The new title, or the old one where none is given.
abbrev pub given_title : {U : Type 0} ⦃u : Untrusted U⦄ → Option String → U → U
given_title ⦃u⦄ none old = old
given_title ⦃u⦄ (some t) old = u.untrusted t ("wiki", "page_title")

module _ {U : Type 0} ⦃u : Untrusted U⦄ (now : ℕ) (body : String) (title : Option String) where
  -- The page with the new text: body, title, moment and version are new, all else stays.
  abbrev pub next_page : WikiPage U → WikiPage U
  next_page p = record {
    page_id = p.page_id;
    space_key = p.space_key;
    title = given_title title p.title;
    body = u.untrusted body ("wiki", "page_body");
    body_format = p.body_format;
    status = p.status;
    parent_id = p.parent_id;
    labels = p.labels;
    created_at = p.created_at;
    created_by = p.created_by;
    last_modified_at = now;
    last_modified_by = p.last_modified_by;
    version = p.version + 1;
    url = p.url;
  }

  abbrev pub next_entry : PageEntry U → PageEntry U
  next_entry e = record {
    page = next_page e.page;
    comments = e.comments;
    history = some (record {
      page_id = e.page.page_id;
      versions =
          record {
            version = e.page.version + 1;
            modified_at = now;
            modified_by = none;
            message = none;
            is_minor_edit = false;
          }
          ∷ earlier e.page e.history;
    });
    restricted_to = e.restricted_to;
  }

module _ {U : Type 0} ⦃u : Untrusted U⦄ (now : ℕ) (i body : String) (title : Option String)
    (expected : Option ℕ) (user : String) where
  -- The page is there, its reader writes, and no other revision came between.
  pub record IsRevision (wiki : Wiki U) (p : WikiPage U) (wiki' : Wiki U) : Type 0 where
    pub before :
        (e : PageEntry U) × (lookup i wiki.pages ≡ some e)
        × (may_read wiki e user ≡ true)
        × (is_current e.page expected ≡ true)
        × (p ≡ next_page now body title e.page)
        × (wiki' ≡ record wiki { pages = insert i (next_entry now body title e) wiki.pages })

  -- Why a write is refused.
  pub data IsStale (wiki : Wiki U) : WikiError → Type 0 where
    unreadable : (x : WikiError) → IsRefused i user wiki x → IsStale wiki x
    moved_on :
        (e : PageEntry U) (v : ℕ)
        → lookup i wiki.pages ≡ some e
        → may_read wiki e user ≡ true
        → expected ≡ some v
        → (v == e.page.version) ≡ false
        → IsStale wiki (concurrent_edit i v e.page.version)

  abbrev pub IsUpdate : Wiki U → Result WikiError (WikiPage U) × Wiki U → Type 0
  IsUpdate wiki (ok p, wiki') = IsRevision wiki p wiki'
  IsUpdate wiki (err x, wiki') = (wiki' ≡ wiki) × IsStale wiki x

  update_entry-IsUpdate :
      (wiki : Wiki U) (e : PageEntry U)
      → IsValid wiki
      → lookup i wiki.pages ≡ some e
      → may_read wiki e user ≡ true
      → IsUpdate wiki (update_entry now body title expected e wiki)
  update_entry-IsUpdate wiki e v found may = elim (require_current e.page expected) [
    | inl (current, fits) ↦
        rw (update_entry_ok now body title expected e wiki (found-IsSound i e wiki v found) fits)
          (record {
            before = (
              e,
              found,
              may,
              current,
              refl,
              ap (λ k. record wiki { pages = insert k (updated_entry now body title e) wiki.pages })
                  (found-named i e wiki v found),
            );
          })
    | inr (n, given, other, stale) ↦
        rw
          (update_entry_err now body title expected e wiki
            (concurrent_edit e.page.page_id n e.page.version) stale)
          (
            refl,
            subst (λ k. IsStale wiki (concurrent_edit k n e.page.version))
                (sym (found-named i e wiki v found)) (moved_on e n found may given other),
          )
  ]

  -- In a well-formed wiki a write succeeds exactly if the page is there, the user may read it, and
  -- the expected version, if one is given, is the page's. Then the page has the new body, the new
  -- title if one is given, and the next version, which comes first in its history; its comments, its
  -- restrictions and all else stay. Otherwise nothing changes and the error says why.
  pub update_page-IsUpdate :
      (wiki : Wiki U)
      → IsValid wiki
      → IsUpdate wiki (update_page now i body title expected user wiki)
  unfolding update_page
  update_page-IsUpdate wiki v = elim (entry_of-cases i user wiki) [
    | inl (e, found, may, reads) ↦
        rw (>>=-ok (entry_of i user) (update_entry now body title expected) wiki e wiki reads)
          (update_entry-IsUpdate wiki e v found may)
    | inr (x, refused, fails) ↦
        rw (>>=-err (entry_of i user) (update_entry now body title expected) wiki x wiki fails)
          (refl, unreadable x refused)
  ]

module _ {U : Type 0} ⦃u : Untrusted U⦄ where
  stale_entry :
      (now n : ℕ) (i body : String) (title : Option String) (user : String) (e : PageEntry U)
      (wiki : Wiki U)
      → lookup i wiki.pages ≡ some e
      → may_read wiki e user ≡ true
      → e.page.page_id ≡ i
      → e.page.version ≡ n + 1
      → update_page now i body title (some n) user wiki ≡ (err (concurrent_edit i n (n + 1)), wiki)
  unfolding update_page
  stale_entry now n i body title user e wiki found may named next =
      elim (entry_of-cases i user wiki) [
        | inl (e', found', may', reads) ↦
            let same : e' ≡ e = some-inj (sym found' ∙ found) in
            >>=-ok (entry_of i user) (update_entry now body title (some n)) wiki e' wiki reads
            ∙ ap (λ x. update_entry now body title (some n) x wiki) same
            ∙ update_entry_err now body title (some n) e wiki
                (concurrent_edit e.page.page_id n e.page.version) (refuses e next)
            ∙ ap (λ k. (err (concurrent_edit k n e.page.version), wiki)) named
            ∙ ap (λ k. (err (concurrent_edit i n k), wiki)) next
        | inr (x, refused, fails) ↦ absurd (contradicts x refused)
      ]
    where
      some-inj : {A : Type 0} {a b : A} → some a ≡ some b → a ≡ b
      some-inj h = ground (arith, h)

      refuses :
          (x : PageEntry U)
          → x.page.version ≡ n + 1
          → require_current_version x.page (some n)
            ≡ err (concurrent_edit x.page.page_id n x.page.version)
      refuses x h = ground (arith, h, nat_beq_iff n x.page.version)

      contradicts : (x : WikiError) → IsRefused i user wiki x → ⊥
      contradicts x (IsRefused.missing gone) = ground (arith, gone, found)
      contradicts x (IsRefused.denied y at refused) = ground (arith, at, found, refused, may)

  revised_after :
      (now n : ℕ) (i body : String) (title : Option String) (user : String) (wiki wiki' : Wiki U)
      (p : WikiPage U)
      → IsValid wiki
      → IsRevision now i body title (some n) user wiki p wiki'
      → (e : PageEntry U) → lookup i wiki'.pages ≡ some e
      → (e.page.page_id ≡ i) × (e.page.version ≡ n + 1)
  revised_after now n i body title user wiki wiki' p v r e found =
      go r.before.0 r.before.1 r.before.3 r.before.5
    where
      go :
          (old : PageEntry U)
          → lookup i wiki.pages ≡ some old
          → (n == old.page.version) ≡ true
          → wiki' ≡ record wiki { pages = insert i (updated_entry now body title old) wiki.pages }
          → (e.page.page_id ≡ i) × (e.page.version ≡ n + 1)
      go old at fits written =
          let there : lookup i wiki'.pages ≡ some (updated_entry now body title old) =
            ap (λ (w : Wiki U). lookup i w.pages) written
            ∙ lookup-insert_same i (updated_entry now body title old) wiki.pages in
          let is_new : some e ≡ some (updated_entry now body title old) = sym found ∙ there in
          let named : old.page.page_id ≡ i = found-named i old wiki v at in
          (
            ap (λ (o : Option (PageEntry U)). elim o [ none ↦ i | some x ↦ x.page.page_id ]) is_new
                ∙ named,
            ap (λ (o : Option (PageEntry U)). elim o [ none ↦ n | some x ↦ x.page.version ]) is_new
                ∙ ap (λ k. k + 1) (sym ((nat_beq_iff n old.page.version).0 fits)),
          )

  -- In a well-formed wiki, once a write based on version `n` of a page has succeeded, a further
  -- write based on `n` is refused as a concurrent edit and changes nothing, whoever may read the
  -- page and makes it: no write is lost.
  pub second_write_refused :
      (now n : ℕ) (i body : String) (title : Option String) (user : String) (wiki wiki' : Wiki U)
      (p : WikiPage U)
      → IsValid wiki
      → update_page now i body title (some n) user wiki ≡ (ok p, wiki')
      → (e : PageEntry U) → lookup i wiki'.pages ≡ some e
      → (now' : ℕ) (body' : String) (title' : Option String) (user' : String)
      → may_read wiki' e user' ≡ true
      → update_page now' i body' title' (some n) user' wiki'
        ≡ (err (concurrent_edit i n (n + 1)), wiki')
  second_write_refused now n i body title user wiki wiki' p v done e found now' body' title' user'
        may =
      let after =
        (revised_after now n i body title user wiki wiki' p v
          (subst (IsUpdate now i body title (some n) user wiki) done
            (update_page-IsUpdate now i body title (some n) user wiki v))
          e found) in
      stale_entry now' n i body' title' user' e wiki' found may after.0 after.1
