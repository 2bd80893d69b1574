-- ===== src/Wiki/Tools/Creation.antt =====
-- `create_page`: a new page at its first version, or a refusal that changes nothing.
use ai_agents.Prelude.{
  ℕ, ◌≡◌, refl, sym, ◌∙◌, ap, subst, String, Bool, true, false, not, Option, none, some, [], ◌∷◌,
  ◌++◌, arith, ◌==◌, string_eq, ◌⊎◌, Bool-cases, inl, inr, contains, eq_iff,
}
use Prim.Native.String.{len}
use text.Mathlib.TextPositions.{len-append}
use ai_agents.Prelude.Exec.{Result, ok, err, pure, lift, raise_if, ◌>>=◌, ◌>>◌, >>=-ok, >>=-err}
use ai_agents.Dict.{keys, lookup, insert-eq-append, has_key-eq-contains}
use ai_agents.Text.{concat}
use ai_agents.Runtime.{Untrusted}
use ai_agents.Wiki.Error.{WikiError, WikiMethod, not_found}
use ai_agents.Wiki.Models.{
  is_named, markdown, current, WikiPage, WikiPageHistory, make_page, make_version, make_history,
}
use ai_agents.Wiki.Store.{Wiki, PageEntry, entry_of, page_of, store, has_space, may_read}
use ai_agents.Wiki.Store.Access.{IsRefused, entry_of-cases}
use ai_agents.Wiki.Tools.{
  create_page, require_parent, write_page, enter_page, fresh_entry, initial_history,
}

-- The identifier of a new page is not empty.
not_blank : (fresh : String) → (concat ("page-" ∷ fresh ∷ []) == "") ≡ false
not_blank fresh = elim (Bool-cases (concat ("page-" ∷ fresh ∷ []) == "")) [
  | inl blank ↦ absurd (
      omega (
        arith,
        ap len ((eq_iff (concat ("page-" ∷ fresh ∷ [])) "").0 blank),
        len-append "page-" (concat (fresh ∷ [])),
        prefix,
        nothing,
      ))
  | inr given ↦ given
]
  where
    prefix : len "page-" ≡ 5
    prefix = refl

    nothing : len "" ≡ 0
    nothing = refl

module _ {U : Type 0} (user : String) (wiki : Wiki U) where
  -- A parent is given that the user may not read, or that is not there.
  abbrev pub IsParentRefused : Option String → WikiError → Type 0
  IsParentRefused none x = ⊥
  IsParentRefused (some i) x = IsRefused i user wiki x

  abbrev pub IsParentFound : Option String → Type 0
  IsParentFound none = Unit
  IsParentFound (some i) =
      (e : PageEntry U) × (lookup i wiki.pages ≡ some e) × (may_read wiki e user ≡ true)

  require_parent-cases :
      (parent : Option String)
      → (IsParentFound parent × (require_parent parent user wiki ≡ (ok tt, wiki)))
        ⊎ ((x : WikiError) × IsParentRefused parent x
            × (require_parent parent user wiki ≡ (err x, wiki)))
  unfolding page_of
  require_parent-cases none = inl (tt, refl)
  require_parent-cases (some i) = elim (entry_of-cases i user wiki) [
    | inl (e, found, may, reads) ↦ inl (
      (e, found, may),
      >>=-ok (page_of i user) (λ _. pure tt) wiki e.page wiki
          (>>=-ok (entry_of i user) (λ (y : PageEntry U). pure y.page) wiki e wiki reads),
    )
    | inr (x, refused, fails) ↦ inr (
      x,
      refused,
      >>=-err (page_of i user) (λ _. pure tt) wiki x wiki
          (>>=-err (entry_of i user) (λ (y : PageEntry U). pure y.page) wiki x wiki fails),
    )
  ]

module _ {U : Type 0} ⦃u : Untrusted U⦄ (fresh : String) (now : ℕ) (space_key title body : String)
    (parent : Option String) (user : String) where
  abbrev pub new_page : WikiPage U
  new_page = record {
    page_id = concat ("page-" ∷ fresh ∷ []);
    space_key = space_key;
    title = u.untrusted title ("wiki", "page_title");
    body = u.untrusted body ("wiki", "page_body");
    body_format = markdown;
    status = current;
    parent_id = parent;
    labels = [];
    created_at = now;
    created_by = none;
    last_modified_at = now;
    last_modified_by = none;
    version = 1;
    url = "";
  }

  abbrev pub first_history : WikiPageHistory U
  first_history = record {
    page_id = concat ("page-" ∷ fresh ∷ []);
    versions =
        record {
          version = 1;
          modified_at = now;
          modified_by = none;
          message = none;
          is_minor_edit = false;
        }
        ∷ [];
  }

  -- The entry of a new page: no comments, no restrictions, its first version in its history.
  abbrev pub new_entry : PageEntry U
  new_entry = record {
    page = new_page;
    comments = [];
    history = some first_history;
    restricted_to = [];
  }

  abbrev pub IsCreation : Wiki U → Result WikiError (WikiPage U) × Wiki U → Type 0
  IsCreation wiki (ok p, w) =
      (has_space space_key wiki ≡ true)
      × IsParentFound user wiki parent
      × (p ≡ new_page)
      × (w ≡ record wiki { pages = wiki.pages ++ (concat ("page-" ∷ fresh ∷ []), new_entry) ∷ [] })
  IsCreation wiki (err x, w) =
      (w ≡ wiki)
      × (((has_space space_key wiki ≡ false) × (x ≡ not_found "space" space_key))
          ⊎ IsParentRefused user wiki parent x)

  abbrev checked : WikiMethod (Wiki U) (WikiPage U)
  checked = lift (make_page new_page) >>= write_page now

  abbrev parented : WikiMethod (Wiki U) (WikiPage U)
  parented = require_parent parent user >> checked

  -- A page that is there is not the new one.
  apart :
      (wiki : Wiki U) (i : String) (e : PageEntry U)
      → contains (concat ("page-" ∷ fresh ∷ [])) (keys wiki.pages) ≡ false
      → lookup i wiki.pages ≡ some e
      → (i == concat ("page-" ∷ fresh ∷ [])) ≡ false
  apart wiki i e free found = elim (Bool-cases (i == concat ("page-" ∷ fresh ∷ []))) [
    | inl same ↦
        let at : lookup (concat ("page-" ∷ fresh ∷ [])) wiki.pages ≡ some e =
          ap (λ k. lookup k wiki.pages) (sym ((eq_iff i (concat ("page-" ∷ fresh ∷ []))).0 same))
          ∙ found in
        absurd
          (ground (arith, has_key-eq-contains (concat ("page-" ∷ fresh ∷ [])) wiki.pages, free, at))
    | inr other ↦ other
  ]

  not_own_parent :
      (wiki : Wiki U) (o : Option String)
      → contains (concat ("page-" ∷ fresh ∷ [])) (keys wiki.pages) ≡ false
      → IsParentFound user wiki o
      → is_named (concat ("page-" ∷ fresh ∷ [])) o ≡ false
  not_own_parent wiki none free h = refl
  not_own_parent wiki (some i) free h = apart wiki i h.0 free h.1

  new_page_ok :
      (wiki : Wiki U)
      → (space_key == "") ≡ false
      → contains (concat ("page-" ∷ fresh ∷ [])) (keys wiki.pages) ≡ false
      → IsParentFound user wiki parent
      → make_page new_page ≡ ok new_page
  unfolding make_page
  new_page_ok wiki keyed free h =
      rw (not_blank fresh, keyed, not_own_parent wiki parent free h) (ground arith)

  first_history_ok : initial_history new_page now ≡ ok first_history
  unfolding initial_history make_version make_history
  first_history_ok = rw (not_blank fresh) refl

  checked_ok :
      (wiki : Wiki U)
      → (space_key == "") ≡ false
      → contains (concat ("page-" ∷ fresh ∷ [])) (keys wiki.pages) ≡ false
      → IsParentFound user wiki parent
      → checked wiki ≡ (
        ok new_page,
        record wiki {
          pages =
              wiki.pages
              ++ (concat ("page-" ∷ fresh ∷ []), fresh_entry new_page first_history) ∷ [];
        },
      )
  unfolding store
  checked_ok wiki keyed free h =
      >>=-ok (lift (make_page new_page)) (write_page now) wiki new_page wiki
        (ap (λ r. (r, wiki)) (new_page_ok wiki keyed free h))
      ∙ >>=-ok (lift (initial_history new_page now)) (enter_page new_page) wiki first_history wiki
          (ap (λ r. (r, wiki)) first_history_ok)
      ∙ ap (λ d. (ok new_page, record wiki { pages = d }))
          (insert-eq-append (concat ("page-" ∷ fresh ∷ [])) (fresh_entry new_page first_history)
            wiki.pages free)

  parented-IsCreation :
      (wiki : Wiki U)
      → (space_key == "") ≡ false
      → contains (concat ("page-" ∷ fresh ∷ [])) (keys wiki.pages) ≡ false
      → has_space space_key wiki ≡ true
      → IsCreation wiki (parented wiki)
  parented-IsCreation wiki keyed free there = elim (require_parent-cases user wiki parent) [
    | inl (h, reads) ↦
        subst (IsCreation wiki)
          (sym (
            >>=-ok (require_parent parent user) (λ _. checked) wiki tt wiki reads
            ∙ checked_ok wiki keyed free h))
          (there, h, refl, refl)
    | inr (x, refused, fails) ↦
        subst (IsCreation wiki)
          (sym (>>=-err (require_parent parent user) (λ _. checked) wiki x wiki fails))
          (refl, inr refused)
  ]

  -- With an identifier that no page has, and a space key that is not empty, creating a page succeeds
  -- exactly if the space exists and the parent, if one is given, is there and readable; whether the
  -- space itself may be read is not asked. The page then stands last, with the given title, body,
  -- space and parent, at version one, with a history of that version, without comments and
  -- restrictions, and nothing else changes. Otherwise nothing changes and the error says what is missing or denied.
  pub create_page-IsCreation :
      (wiki : Wiki U)
      → (space_key == "") ≡ false
      → contains (concat ("page-" ∷ fresh ∷ [])) (keys wiki.pages) ≡ false
      → IsCreation wiki (create_page fresh now space_key title body parent user wiki)
  unfolding create_page
  create_page-IsCreation wiki keyed free = elim (Bool-cases (has_space space_key wiki)) [
    | inl there ↦
        subst (IsCreation wiki)
          (sym (>>=-ok (gate true) (λ _. parented) wiki tt wiki refl)
            ∙ ap (λ b. (gate b >> parented) wiki) (sym there))
          (parented-IsCreation wiki keyed free there)
    | inr missing ↦
        subst (IsCreation wiki) (ap (λ b. (gate b >> parented) wiki) (sym missing))
          (refl, inl (missing, refl))
  ]
    where
      gate : Bool → WikiMethod (Wiki U) (Unit {0})
      gate b = raise_if (not b) (not_found "space" space_key)
