-- ===== src/Wiki/Service/Steps.antt =====
-- What one call may do to the wiki: nothing, a write of one entry, or a removal.
use ai_agents.Prelude.{
  ℕ, ◌≡◌, refl, sym, ◌∙◌, ap, subst, String, Bool, true, false, not, Option, none, some, [], ◌∷◌,
  arith, ◌==◌, nat_eq, string_eq, inl, inr, leb,
}
use ai_agents.Prelude.Exec.{
  Result, ok, err, pure, lift, gets, raise_if, ◌>>=◌, ◌>>◌, >>=-ok, >>=-err,
}
use ai_agents.Dict.{lookup, insert}
use ai_agents.Text.{concat}
use ai_agents.Runtime.{Untrusted}
use ai_agents.Wiki.Error.{WikiError, WikiMethod, not_found}
use ai_agents.Wiki.Models.{WikiPage, WikiComment, WikiPageHistory, make_page, make_comment}
use ai_agents.Wiki.Store.{Wiki, PageEntry, may_read, entry_of, page_of, has_space, store, remove}
use ai_agents.Wiki.Store.Valid.{IsSound, IsValid, IsRecorded, found-named, found-IsSound}
use ai_agents.Wiki.Store.Access.{entry_of-cases}
use ai_agents.Wiki.Tools.{
  create_page, update_page, delete_page, comment_on, require_known_comment, posted, commented_entry,
  blank_page, require_parent, fresh_entry, enter_page, write_page, initial_history, version_at,
}
use ai_agents.Wiki.Tools.Update.{updated_entry, updated-IsSound}
use ai_agents.Wiki.Tools.Revision.{IsUpdate, update_page-IsUpdate}
use ai_agents.Wiki.Service.{WikiReply, answer}

module _ {U : Type 0} (user : String) (wiki : Wiki U) where
  -- How a call by the user may leave the wiki. `made` says which identifiers it may give a new page.
  pub data IsStep (made : String → Bool) : Wiki U → Type 0 where
    kept : IsStep made wiki
    wrote :
        (e e' : PageEntry U)
        → lookup e.page.page_id wiki.pages ≡ some e
        → may_read wiki e user ≡ true
        → IsSound e'
        → e'.page.page_id ≡ e.page.page_id
        → e'.page.space_key ≡ e.page.space_key
        → e'.restricted_to ≡ e.restricted_to
        → IsStep made (store e' wiki).1
    added :
        (e : PageEntry U) → made e.page.page_id ≡ true → IsSound e → IsStep made (store e wiki).1
    removed :
        (i : String) (e : PageEntry U)
        → lookup i wiki.pages ≡ some e
        → may_read wiki e user ≡ true
        → IsStep made (remove i wiki).1

module _ {U A : Type 0} (P : Wiki U → Type 0) (wiki : Wiki U) where
  -- A block on whose first action's outcome the rest depends keeps what each part keeps.
  pub >>=-keeps :
      {B : Type 0} (m : WikiMethod (Wiki U) A) (f : A → WikiMethod (Wiki U) B)
      → P (m wiki).1
      → ((a : A) → m wiki ≡ (ok a, (m wiki).1) → P (f a (m wiki).1).1)
      → P ((m >>= f) wiki).1
  >>=-keeps {B} m f h k = go (m wiki) refl
    where
      go : (r : Result WikiError A × Wiki U) → m wiki ≡ r → P ((m >>= f) wiki).1
      go (ok a, w) e =
          let same : w ≡ (m wiki).1 = sym (ap (λ q. q.1) e) in
          subst (λ q. P q.1) (sym (>>=-ok m f wiki a (m wiki).1 (e ∙ ap (λ v. (ok a, v)) same)))
            (k a (e ∙ ap (λ v. (ok a, v)) same))
      go (err x, w) e =
          subst (λ q. P q.1) (sym (>>=-err m f wiki x w e)) (subst P (ap (λ q. q.1) e) h)

  pub answer-keeps :
      (f : A → WikiReply U) (m : WikiMethod (Wiki U) A) → P (m wiki).1 → P (answer f m wiki).1
  answer-keeps f m h = >>=-keeps m (λ a. pure (f a)) h (λ a e. h)

module _ {U : Type 0} where
  make_page-checked :
      (q p : WikiPage U)
      → make_page q ≡ ok p
      → (p ≡ q) × ((q.page_id == "") ≡ false) × (leb 1 q.version ≡ true)
  unfolding make_page
  make_page-checked q p h = ground (arith, h)

  fresh-IsSound :
      (p : WikiPage U) (now : ℕ) (history : WikiPageHistory U)
      → (p.page_id == "") ≡ false
      → p.version ≡ 1
      → initial_history p now ≡ ok history
      → IsSound (fresh_entry p history)
  unfolding initial_history
  fresh-IsSound p now history named first h = record {
    identified = named;
    numbered = ap (leb 1) first;
    recorded =
        subst (λ (x : WikiPageHistory U). IsRecorded p.version (some x)) made
          (sym first, refl, refl);
  }
    where
      made : record { page_id = p.page_id; versions = version_at 1 now ∷ [] } ≡ history
      made = ground (arith, h, named)

  pub page_of-kept : (i user : String) (wiki : Wiki U) → (page_of i user wiki).1 ≡ wiki
  unfolding page_of entry_of
  page_of-kept i user wiki =
      >>=-keeps (λ w. w ≡ wiki) wiki (entry_of i user) (λ (e : PageEntry U). pure e.page) refl
        (λ a e. refl)

  -- Reading the parent of a new page changes nothing.
  require_parent-kept :
      (parent : Option String) (user : String) (wiki : Wiki U)
      → (require_parent parent user wiki).1 ≡ wiki
  require_parent-kept none user wiki = refl
  require_parent-kept (some i) user wiki =
      >>=-keeps (λ w. w ≡ wiki) wiki (page_of i user) (λ _. pure tt) (page_of-kept i user wiki)
        (λ a e. page_of-kept i user wiki)

module _ {U : Type 0} ⦃u : Untrusted U⦄ (user : String) (wiki : Wiki U) (made : String → Bool) where
  abbrev Steps : Wiki U → Type 0
  Steps w = IsStep user wiki made w

  write_page-IsStep :
      (now : ℕ) (q p : WikiPage U)
      → make_page q ≡ ok p
      → made q.page_id ≡ true
      → q.version ≡ 1
      → Steps (write_page now p wiki).1
  unfolding store
  write_page-IsStep now q p checked is_made first =
      let c = (make_page-checked q p checked) in
      >>=-keeps Steps wiki (lift (initial_history p now)) (enter_page p) kept (λ history e.
        added (fresh_entry p history) (rw c.0 is_made)
          (fresh-IsSound p now history (rw c.0 c.1) (rw c.0 first) (ap (λ r. r.0) e)))

  pub create_page-IsStep :
      (fresh : String) (now : ℕ) (space_key title body : String) (parent : Option String)
      → made (concat ("page-" ∷ fresh ∷ [])) ≡ true
      → Steps (create_page fresh now space_key title body parent user wiki).1
  unfolding create_page
  create_page-IsStep fresh now space_key title body parent is_made =
      >>=-keeps Steps wiki (gets (has_space space_key))
        (λ b. raise_if (not b) (not_found "space" space_key) >> parented) kept
        (λ b h.
          >>=-keeps Steps wiki (raise_if (not b) (not_found "space" space_key)) (λ _. parented) kept
            (λ a k.
              >>=-keeps Steps wiki (require_parent parent user) (λ _. checked) at_parent
                (λ c l. after_parent)))
    where
      blank : WikiPage U
      blank = blank_page fresh now space_key title body parent

      checked : WikiMethod (Wiki U) (WikiPage U)
      checked = lift (make_page blank) >>= write_page now

      parented : WikiMethod (Wiki U) (WikiPage U)
      parented = require_parent parent user >> checked

      at_parent : Steps (require_parent parent user wiki).1
      at_parent = subst Steps (sym (require_parent-kept parent user wiki)) kept

      from_here : Steps (checked wiki).1
      from_here =
          >>=-keeps Steps wiki (lift (make_page blank)) (write_page now) kept
            (λ p h. write_page-IsStep now blank p (ap (λ r. r.0) h) is_made refl)

      after_parent : Steps (checked (require_parent parent user wiki).1).1
      after_parent =
          subst (λ w. Steps (checked w).1) (sym (require_parent-kept parent user wiki)) from_here

  pub comment_on-IsStep :
      (fresh : String) (now : ℕ) (i body : String) (parent : Option String) (e : PageEntry U)
      → IsValid wiki
      → lookup i wiki.pages ≡ some e
      → may_read wiki e user ≡ true
      → Steps (comment_on fresh now i body parent e wiki).1
  unfolding store
  comment_on-IsStep fresh now i body parent e v found may =
      >>=-keeps Steps wiki (lift (require_known_comment e parent)) (λ _. rest) kept
        (λ a h.
          >>=-keeps Steps wiki (lift (make_comment (posted fresh now i body parent))) enter kept
            (λ c made_it.
              wrote e (commented_entry e c) (ap (λ k. lookup k wiki.pages) named ∙ found) may
                (still_sound c) refl refl refl))
    where
      named : e.page.page_id ≡ i
      named = found-named i e wiki v found

      s : IsSound e
      s = found-IsSound i e wiki v found

      still_sound : (c : WikiComment U) → IsSound (commented_entry e c)
      still_sound c = record {
        identified = s.identified;
        numbered = s.numbered;
        recorded = s.recorded;
      }

      enter : WikiComment U → WikiMethod (Wiki U) (WikiComment U)
      enter c = store (commented_entry e c) >> pure c

      rest : WikiMethod (Wiki U) (WikiComment U)
      rest = lift (make_comment (posted fresh now i body parent)) >>= enter

  pub delete_page-IsStep : (i : String) → Steps (delete_page i user wiki).1
  unfolding delete_page
  delete_page-IsStep i = elim (entry_of-cases i user wiki) [
    | inl (e, found, may, reads) ↦
        subst (λ q. Steps q.1) (sym (>>=-ok (entry_of i user) (λ _. remove i) wiki e wiki reads))
          (removed i e found may)
    | inr (x, refused, fails) ↦
        subst (λ q. Steps q.1) (sym (>>=-err (entry_of i user) (λ _. remove i) wiki x wiki fails))
          kept
  ]

  pub update_page-IsStep :
      (now : ℕ) (i body : String) (title : Option String) (expected : Option ℕ)
      → IsValid wiki
      → Steps (update_page now i body title expected user wiki).1
  unfolding store
  update_page-IsStep now i body title expected v =
      go (update_page now i body title expected user wiki)
        (update_page-IsUpdate now i body title expected user wiki v)
    where
      go :
          (r : Result WikiError (WikiPage U) × Wiki U)
          → IsUpdate now i body title expected user wiki r
          → Steps r.1
      go (ok p, w) h =
          let (e, found, may, fits, same, written) = h.before in
          let named : e.page.page_id ≡ i = found-named i e wiki v found in
          subst Steps
            (sym (
              written
              ∙ ap
                  (λ k. record wiki {
                    pages = insert k (updated_entry now body title e) wiki.pages;
                  })
                  (sym named)))
            (wrote e (updated_entry now body title e) (ap (λ k. lookup k wiki.pages) named ∙ found)
              may (updated-IsSound now body title e (found-IsSound i e wiki v found)) refl refl
              refl)
      go (err x, w) h = subst Steps (sym h.0) kept
