-- ===== src/Wiki/Tools/Update.antt =====
-- `update_page`: a new revision, or a refusal that changes nothing.
use ai_agents.Prelude.{
  ℕ, ◌+◌, ◌≡◌, refl, ◌∙◌, ap, String, true, false, List, [], ◌∷◌, Option, none, some, arith, ◌==◌,
  nat_eq, string_eq, leb,
}
use ai_agents.Prelude.Exec.{ok, err, and_then}
use ai_agents.Dict.{insert}
use ai_agents.Runtime.{Untrusted}
use ai_agents.Wiki.Error.{WikiError}
use ai_agents.Wiki.Models.{WikiPage, WikiPageVersion, WikiPageHistory, make_history, make_version}
use ai_agents.Wiki.Store.{Wiki, PageEntry, store}
use ai_agents.Wiki.Store.Valid.{IsHistory, IsRecorded, IsSound, newer-IsHistory}
use ai_agents.Wiki.Tools.{
  require_current_version, version_at, seed_of, extended_history, extended_from, revised,
  revised_entry, update_entry,
}

module _ {U : Type 0} where
  -- The versions that an entry had, whether they were recorded or not.
  abbrev pub versions_of : WikiPage U → Option (WikiPageHistory U) → List (WikiPageVersion U)
  versions_of p none = seed_of p ∷ []
  versions_of p (some h) = h.versions

  versions_of-IsHistory :
      (p : WikiPage U) (h : Option (WikiPageHistory U))
      → IsRecorded p.version h
      → IsHistory p.version (versions_of p h)
  versions_of-IsHistory p none r = (refl, refl, refl)
  versions_of-IsHistory p (some h) r = r

  make_history_ok :
      (i : String) (n : ℕ) (v : WikiPageVersion U) (vs : List (WikiPageVersion U))
      → (i == "") ≡ false
      → IsHistory n (v ∷ vs)
      → make_history i (v ∷ vs) ≡ ok (record { page_id = i; versions = v ∷ vs })
  unfolding make_history
  make_history_ok i n v vs named h = rw (named, h.1, h.2) refl

  make_version_ok : (v : WikiPageVersion U) → leb 1 v.version ≡ true → make_version v ≡ ok v
  unfolding make_version
  make_version_ok v h = rw h refl

  -- The history of the next revision.
  abbrev pub next_history : WikiPage U → Option (WikiPageHistory U) → ℕ → WikiPageHistory U
  next_history p h now = record {
    page_id = p.page_id;
    versions = version_at (p.version + 1) now ∷ versions_of p h;
  }

  abbrev next_entry_versions :
      WikiPage U → Option (WikiPageHistory U) → ℕ → List (WikiPageVersion U)
  next_entry_versions p h now = version_at (p.version + 1) now ∷ versions_of p h

  next-IsHistory :
      (p : WikiPage U) (h : Option (WikiPageHistory U)) (now : ℕ)
      → IsRecorded p.version h
      → IsHistory (p.version + 1) (next_entry_versions p h now)
  next-IsHistory p h now r =
      newer-IsHistory p.version (version_at (p.version + 1) now) (versions_of p h)
        (versions_of-IsHistory p h r) refl

  extended_from_ok :
      (p q : WikiPage U) (h : Option (WikiPageHistory U)) (now : ℕ)
      → (q.page_id == "") ≡ false
      → leb 1 p.version ≡ true
      → IsRecorded p.version h
      → extended_from h p q (version_at (p.version + 1) now)
        ≡ ok (record { page_id = q.page_id; versions = next_entry_versions p h now })
  extended_from_ok p q (some h) now named positive r =
      make_history_ok q.page_id (p.version + 1) (version_at (p.version + 1) now) h.versions named
        (next-IsHistory p (some h) now r)
  extended_from_ok p q none now named positive r =
      ap
        (λ x.
          and_then x (λ seed. make_history q.page_id (version_at (p.version + 1) now ∷ seed ∷ [])))
        (make_version_ok (seed_of p) positive)
      ∙ make_history_ok q.page_id (p.version + 1) (version_at (p.version + 1) now) (seed_of p ∷ [])
          named (next-IsHistory p none now r)

  -- In a sound entry the history of the next revision passes the checks of its model.
  pub extended_history_ok :
      (e : PageEntry U) (q : WikiPage U) (now : ℕ)
      → IsSound e
      → q.page_id ≡ e.page.page_id
      → q.version ≡ e.page.version + 1
      → extended_history e.history e.page q now ≡ ok (next_history e.page e.history now)
  unfolding extended_history
  extended_history_ok e q now s same next =
      ap (λ n. and_then (make_version (version_at n now)) (extended_from e.history e.page q)) next
      ∙ ap (λ x. and_then x (extended_from e.history e.page q))
          (make_version_ok (version_at (e.page.version + 1) now) (ground arith))
      ∙ extended_from_ok e.page q e.history now (ap (λ i. i == "") same ∙ s.identified) s.numbered
          s.recorded
      ∙ ap (λ i. ok (record { page_id = i; versions = next_entry_versions e.page e.history now }))
          same

module _ {U : Type 0} ⦃u : Untrusted U⦄ (now : ℕ) (body : String) (title : Option String) where
  -- The entry with its next revision.
  abbrev pub updated_entry : PageEntry U → PageEntry U
  updated_entry e =
      revised_entry e (revised now body title e.page) (next_history e.page e.history now)

  pub updated-IsSound : (e : PageEntry U) → IsSound e → IsSound (updated_entry e)
  updated-IsSound e s = record {
    identified = s.identified;
    numbered = ground arith;
    recorded = next-IsHistory e.page e.history now s.recorded;
  }

  pub update_entry_ok :
      (expected : Option ℕ) (e : PageEntry U) (wiki : Wiki U)
      → IsSound e
      → require_current_version e.page expected ≡ ok tt
      → update_entry now body title expected e wiki ≡ (
        ok (revised now body title e.page),
        record wiki { pages = insert e.page.page_id (updated_entry e) wiki.pages },
      )
  unfolding store
  update_entry_ok expected e wiki s fits =
      rw (fits, extended_history_ok e (revised now body title e.page) now s refl refl) refl

  pub update_entry_err :
      (expected : Option ℕ) (e : PageEntry U) (wiki : Wiki U) (x : WikiError)
      → require_current_version e.page expected ≡ err x
      → update_entry now body title expected e wiki ≡ (err x, wiki)
  update_entry_err expected e wiki x stale = rw (stale) refl
