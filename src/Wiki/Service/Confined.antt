-- ===== src/Wiki/Service/Confined.antt =====
-- A page that a user may not read: no call of the user changes it, and no call changes who may read it.
use ai_agents.Prelude.{
  ◌≡◌, refl, sym, ◌∙◌, ap, String, Bool, true, false, Option, none, some, List, [], ◌∷◌, arith,
  ◌==◌, string_eq, if◌then◌else◌, not, Bool-cases, inl, inr, eq_iff, all, ◌&&◌,
}
use ai_agents.Dict.{lookup, lookup-insert, lookup-erase}
use ai_agents.Text.{Unicode}
use ai_agents.Runtime.{Untrusted}
use ai_agents.Wiki.Store.{
  Wiki, SpaceEntry, PageEntry, may_read, in_readable_space, admits, store, remove,
}
use ai_agents.Wiki.Store.Valid.{IsValid}
use ai_agents.Wiki.Service.{WikiCall, creates, serve_call, run_calls}
use ai_agents.Wiki.Service.Steps.{IsStep, kept, wrote, added, removed}
use ai_agents.Wiki.Service.Calls.{serve_call-IsStep, serve_call-IsValid}

module _ {U : Type 0} where
  abbrev readable_in : Option (SpaceEntry U) → List String → String → Bool
  readable_in space accounts a =
      if not (in_readable_space space a) then false else admits accounts a

  -- Who may read an entry rests on its space, its restrictions and the spaces of the wiki.
  may_read-same :
      (wiki w : Wiki U) (e e' : PageEntry U) (a : String)
      → w.spaces ≡ wiki.spaces
      → e'.page.space_key ≡ e.page.space_key
      → e'.restricted_to ≡ e.restricted_to
      → may_read w e' a ≡ may_read wiki e a
  unfolding may_read
  may_read-same wiki w e e' a spaces key accounts =
      ap (λ d. readable_in (lookup e'.page.space_key d) e'.restricted_to a) spaces
      ∙ ap (λ k. readable_in (lookup k wiki.spaces) e'.restricted_to a) key
      ∙ ap (λ l. readable_in (lookup e.page.space_key wiki.spaces) l a) accounts

  -- The entry was there before, with the same readers.
  abbrev pub WasReadBySame : Wiki U → Wiki U → String → PageEntry U → Type 0
  WasReadBySame wiki w i e' =
      (e : PageEntry U) × (lookup i wiki.pages ≡ some e)
      × ((a : String) → may_read w e' a ≡ may_read wiki e a)

  module _ (user : String) (wiki : Wiki U) (made : String → Bool) where
    step-spaces : (w : Wiki U) → IsStep user wiki made w → w.spaces ≡ wiki.spaces
    unfolding store remove
    step-spaces w kept = refl
    step-spaces w (wrote e e' found may s a b c) = refl
    step-spaces w (added e m s) = refl
    step-spaces w (removed i e found may) = refl

    step-untouched :
        (i : String) (e : PageEntry U) (w : Wiki U)
        → IsValid wiki
        → lookup i wiki.pages ≡ some e
        → may_read wiki e user ≡ false
        → made i ≡ false
        → IsStep user wiki made w
        → lookup i w.pages ≡ some e
    unfolding store remove
    step-untouched i e w v here closed unmade kept = here
    step-untouched i e w v here closed unmade (wrote o e' found may s same b c) =
        elim (Bool-cases (i == e'.page.page_id)) [
          | inl hit ↦
              let at : lookup i wiki.pages ≡ some o =
                ap (λ k. lookup k wiki.pages) ((eq_iff i e'.page.page_id).0 hit ∙ same) ∙ found in
              absurd (conflict o (sym here ∙ at) may)
          | inr miss ↦ lookup-insert e'.page.page_id i e' wiki.pages ∙ rw miss here
        ]
      where
        conflict : (o : PageEntry U) → some e ≡ some o → may_read wiki o user ≡ true → ⊥
        conflict o h may = ground (arith, h, may, closed)
    step-untouched i e w v here closed unmade (added o m s) =
        elim (Bool-cases (i == o.page.page_id)) [
          | inl hit ↦ absurd (ground (arith, ap made ((eq_iff i o.page.page_id).0 hit), m, unmade))
          | inr miss ↦ lookup-insert o.page.page_id i o wiki.pages ∙ rw miss here
        ]
    step-untouched i e w v here closed unmade (removed j o found may) = elim (Bool-cases (i == j)) [
      | inl hit ↦
          absurd
            (conflict o (sym here ∙ ap (λ k. lookup k wiki.pages) ((eq_iff i j).0 hit) ∙ found) may)
      | inr miss ↦ lookup-erase j i wiki.pages v.nodup ∙ rw miss here
    ]
      where
        conflict : (o : PageEntry U) → some e ≡ some o → may_read wiki o user ≡ true → ⊥
        conflict o h may = ground (arith, h, may, closed)

    unchanged :
        (w : Wiki U) (i : String) (e' : PageEntry U)
        → w.spaces ≡ wiki.spaces
        → lookup i wiki.pages ≡ some e'
        → WasReadBySame wiki w i e'
    unchanged w i e' spaces here = (e', here, λ a. may_read-same wiki w e' e' a spaces refl refl)

    step-read_by_same :
        (w : Wiki U) (i : String) (e' : PageEntry U)
        → IsValid wiki
        → made i ≡ false
        → lookup i w.pages ≡ some e'
        → IsStep user wiki made w
        → WasReadBySame wiki w i e'
    unfolding store remove
    step-read_by_same w i e' v unmade there kept = unchanged wiki i e' refl there
    step-read_by_same w i e' v unmade there (wrote o o' found may s same key accounts) =
        elim (Bool-cases (i == o'.page.page_id)) [
          | inl hit ↦
              let at : lookup i wiki.pages ≡ some o =
                ap (λ k. lookup k wiki.pages) ((eq_iff i o'.page.page_id).0 hit ∙ same) ∙ found in
              let is_new : some o' ≡ some e' =
                sym (lookup-insert o'.page.page_id i o' wiki.pages ∙ rw hit refl) ∙ there in
              let same_as : e' ≡ o' = some-inj o' e' is_new in
              (
                o,
                at,
                λ a.
                    ap (λ x. may_read (store o' wiki).1 x a) same_as
                    ∙ may_read-same wiki (store o' wiki).1 o o' a refl key accounts,
              )
          | inr miss ↦
              unchanged (store o' wiki).1 i e' refl
                (sym (lookup-insert o'.page.page_id i o' wiki.pages ∙ rw miss refl) ∙ there)
        ]
      where
        some-inj : (x y : PageEntry U) → some x ≡ some y → y ≡ x
        some-inj x y h = ground (arith, h)
    step-read_by_same w i e' v unmade there (added o m s) =
        elim (Bool-cases (i == o.page.page_id)) [
          | inl hit ↦ absurd (ground (arith, ap made ((eq_iff i o.page.page_id).0 hit), m, unmade))
          | inr miss ↦
              unchanged (store o wiki).1 i e' refl
                (sym (lookup-insert o.page.page_id i o wiki.pages ∙ rw miss refl) ∙ there)
        ]
    step-read_by_same w i e' v unmade there (removed j o found may) = elim (Bool-cases (i == j)) [
      | inl hit ↦
          let gone : none ≡ some e' =
            sym (lookup-erase j i wiki.pages v.nodup ∙ rw hit refl) ∙ there in
          absurd (ground (arith, gone))
      | inr miss ↦
          unchanged (remove j wiki).1 i e' refl
            (sym (lookup-erase j i wiki.pages v.nodup ∙ rw miss refl) ∙ there)
    ]

module _ {U : Type 0} ⦃u : Untrusted U⦄ (un : Unicode) where
  -- In a well-formed wiki no call changes who may read a page. What stands under an identifier
  -- after the call, unless the call created it, stood there before, and the same accounts may
  -- read it.
  pub serve_call-same_readers :
      (user : String) (call : WikiCall) (wiki : Wiki U) (i : String) (e' : PageEntry U)
      → IsValid wiki
      → creates i call ≡ false
      → lookup i (serve_call un user call wiki).1.pages ≡ some e'
      → WasReadBySame wiki (serve_call un user call wiki).1 i e'
  serve_call-same_readers user call wiki i e' v unmade there =
      step-read_by_same user wiki (λ j. creates j call) (serve_call un user call wiki).1 i e' v
        unmade there (serve_call-IsStep un user wiki call v)

  -- A call by an account that may not read the page, and that does not create a page of its
  -- identifier.
  abbrev pub is_closed_to : Wiki U → PageEntry U → String → String × WikiCall → Bool
  is_closed_to wiki e i (user, call) = not (may_read wiki e user) && not (creates i call)

  closed-same :
      (wiki w : Wiki U) (e : PageEntry U) (i : String) (calls : List (String × WikiCall))
      → w.spaces ≡ wiki.spaces
      → all (is_closed_to wiki e i) calls ≡ true
      → all (is_closed_to w e i) calls ≡ true
  closed-same wiki w e i [] spaces h = refl
  closed-same wiki w e i ((user, call) ∷ calls) spaces h = ground (
    arith,
    h,
    may_read-same wiki w e e user spaces refl refl,
    closed-same wiki w e i calls spaces,
  )

  -- In a well-formed wiki, whatever is called, in whatever order, by users who may not read a
  -- page, the page stays as it is, with its comments, its history and its restrictions, as long
  -- as no new page is given its identifier.
  pub run_calls-untouched :
      (calls : List (String × WikiCall)) (wiki : Wiki U) (i : String) (e : PageEntry U)
      → IsValid wiki
      → lookup i wiki.pages ≡ some e
      → all (is_closed_to wiki e i) calls ≡ true
      → lookup i (run_calls un calls wiki).pages ≡ some e
  unfolding run_calls
  run_calls-untouched [] wiki i e v here h = here
  run_calls-untouched ((user, call) ∷ calls) wiki i e v here h =
      let w : Wiki U = (serve_call un user call wiki).1 in
      let step = (serve_call-IsStep un user wiki call v) in
      run_calls-untouched calls w i e (serve_call-IsValid un user call wiki v)
        (step-untouched user wiki (λ j. creates j call) i e w v here (ground (arith, h))
          (ground (arith, h)) step)
        (closed-same wiki w e i calls (step-spaces user wiki (λ j. creates j call) w step)
          (ground (arith, h)))
