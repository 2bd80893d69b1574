-- ===== src/Wiki/Matcher/Criteria.antt =====
-- What a page meets when a search of the wiki accepts it.
use ai_agents.Prelude.{
  ℕ, ◌≤◌, ◌≡◌, ◌↔◌, refl, String, Bool, true, false, not, ◌&&◌, ◌||◌, Option, none, some, List, [],
  ◌∷◌, map, arith, ◌==◌, ◌⊎◌, string_eq, if◌then◌else◌, contains, is_nonempty, Bool-cases, inl, inr,
  All, all, eq_iff,
}
use ai_agents.Text.{Unicode, concat, is_infix, split, strip_by, is_space}
use ai_agents.Runtime.{Untrusted}
use ai_agents.Wiki.Models.{WikiPage, WikiPageStatus, current, draft, archived, has_status}
use ai_agents.Wiki.Models.Search.{WikiSearchRequest}
use ai_agents.Wiki.Matcher.{
  matches_page, matches_status, matches_space, matches_window, matches_text, matches_title,
  matches_labels, too_old, too_new,
}

-- A criterion that is left out holds.
abbrev pub Asked : {A : Type 0} → (A → Type 0) → Option A → Type 0
Asked P none = Unit
Asked P (some a) = P a

-- A list of alternatives: one of them holds, unless none is named.
abbrev pub OneOf : {A : Type 0} → (A → Type 0) → List A → Type 0
OneOf P [] = ⊥
OneOf P (x ∷ xs) = P x ⊎ OneOf P xs

abbrev pub AnyOf : {A : Type 0} → (A → Type 0) → List A → Type 0
AnyOf P [] = Unit
AnyOf P (x ∷ xs) = OneOf P (x ∷ xs)

all_iff : {A : Type 0} (p : A → Bool) (xs : List A) → (all p xs ≡ true) ↔ All (λ x. p x ≡ true) xs
all_iff p [] = (λ h. tt, λ h. refl)
all_iff p (x ∷ xs) = (
  λ h. (ground (arith, h), (all_iff p xs).0 (ground (arith, h))),
  λ h. ground (arith, h.0, (all_iff p xs).1 h.1),
)

unless_empty :
    {A : Type 0} (p : A → Bool) (xs : List A)
    → ((if not (is_nonempty xs) then true else all p xs) ≡ true) ↔ All (λ x. p x ≡ true) xs
unless_empty p [] = (λ h. tt, λ h. refl)
unless_empty p (x ∷ xs) = all_iff p (x ∷ xs)

contains_iff : (s : String) (ts : List String) → (contains s ts ≡ true) ↔ OneOf (λ t. s ≡ t) ts
contains_iff s [] = (λ h. ground (arith, h), λ h. absurd h)
contains_iff s (t ∷ ts) = elim (Bool-cases (s == t)) [
  | inl same ↦ (λ h. inl ((eq_iff s t).0 same), λ h. ground (arith, same))
  | inr other ↦ (
    λ h. inr ((contains_iff s ts).0 (ground (arith, h, other))),
    λ h. elim h [
      | inl e ↦ ground (arith, (eq_iff s t).1 e)
      | inr k ↦ ground (arith, (contains_iff s ts).1 k)
    ],
  )
]

is_status_iff : (s t : WikiPageStatus) → (has_status s (t ∷ []) ≡ true) ↔ (s ≡ t)
is_status_iff current current = (λ h. refl, λ h. refl)
is_status_iff draft draft = (λ h. refl, λ h. refl)
is_status_iff archived archived = (λ h. refl, λ h. refl)
is_status_iff current draft = ground arith
is_status_iff current archived = ground arith
is_status_iff draft current = ground arith
is_status_iff draft archived = ground arith
is_status_iff archived current = ground arith
is_status_iff archived draft = ground arith

has_status_iff :
    (s : WikiPageStatus) (ts : List WikiPageStatus)
    → (has_status s ts ≡ true) ↔ OneOf (λ t. s ≡ t) ts
has_status_iff s [] = (λ h. ground (arith, h), λ h. absurd h)
has_status_iff s (t ∷ ts) = elim (Bool-cases (has_status s (t ∷ []))) [
  | inl same ↦ (λ h. inl ((is_status_iff s t).0 same), λ h. ground (arith, same))
  | inr other ↦ (
    λ h. inr ((has_status_iff s ts).0 (ground (arith, h, other))),
    λ h. elim h [
      | inl e ↦ ground (arith, (is_status_iff s t).1 e)
      | inr k ↦ ground (arith, (has_status_iff s ts).1 k)
    ],
  )
]

six :
    (a b c d e f : Bool)
    → ((a && (b && (c && (d && (e && f))))) ≡ true)
      ↔ ((a ≡ true) × (b ≡ true) × (c ≡ true) × (d ≡ true) × (e ≡ true) × (f ≡ true))
six a b c d e f = ground arith

blank_or : (s : String) (b : Bool) → ((s == "" || b) ≡ true) ↔ ((s ≡ "") ⊎ (b ≡ true))
blank_or s b = elim (Bool-cases (s == "")) [
  | inl blank ↦ (λ h. inl ((eq_iff s "").0 blank), λ h. ground (arith, blank))
  | inr given ↦ (
    λ h. inr (ground (arith, h, given)),
    λ h. elim h [ inl e ↦ ground (arith, (eq_iff s "").1 e) | inr k ↦ ground (arith, k) ],
  )
]

module _ {U : Type 0} ⦃u : Untrusted U⦄ (un : Unicode) where
  -- The criteria of a search, one by one; texts are compared case folded, and both bounds belong to
  -- the window.
  pub record MeetsPage (p : WikiPage U) (r : WikiSearchRequest) : Type 0 where
    pub status : AnyOf (λ (s : WikiPageStatus). p.status ≡ s) r.statuses
    pub space : AnyOf (λ (k : String). p.space_key ≡ k) r.space_keys
    pub after : Asked (λ (b : ℕ). b ≤ p.last_modified_at) r.modified_after
    pub before : Asked (λ (b : ℕ). p.last_modified_at ≤ b) r.modified_before
    pub text :
        All
          (λ w.
            is_infix w (un.casefold (concat (u.expose p.title ∷ "\n" ∷ u.expose p.body ∷ [])))
            ≡ true)
          (split (un.casefold r.text))
    pub in_title :
        (strip_by is_space (un.casefold r.title_contains) ≡ "")
        ⊎ (is_infix
              (strip_by is_space (un.casefold r.title_contains))
              (un.casefold (u.expose p.title))
            ≡ true)
    pub labels :
        All
          (λ l. contains (un.casefold l) (map (λ x. un.casefold (u.expose x)) p.labels) ≡ true)
          r.labels

  module _ (p : WikiPage U) where
    status_iff :
        (ss : List WikiPageStatus)
        → ((not (is_nonempty ss) || has_status p.status ss) ≡ true)
          ↔ AnyOf (λ (s : WikiPageStatus). p.status ≡ s) ss
    status_iff [] = (λ h. tt, λ h. refl)
    status_iff (s ∷ ss) = has_status_iff p.status (s ∷ ss)

    space_iff :
        (ks : List String)
        → ((not (is_nonempty ks) || contains p.space_key ks) ≡ true)
          ↔ AnyOf (λ (k : String). p.space_key ≡ k) ks
    space_iff [] = (λ h. tt, λ h. refl)
    space_iff (k ∷ ks) = contains_iff p.space_key (k ∷ ks)

    after_iff : (o : Option ℕ) → (too_old p o ≡ false) ↔ Asked (λ (b : ℕ). b ≤ p.last_modified_at) o
    after_iff none = (λ h. tt, λ h. refl)
    after_iff (some b) = ground arith

    before_iff :
        (o : Option ℕ) → (too_new p o ≡ false) ↔ Asked (λ (b : ℕ). p.last_modified_at ≤ b) o
    before_iff none = (λ h. tt, λ h. refl)
    before_iff (some b) = ground arith

    window_split :
        (a b : Bool) → ((if a then false else not b) ≡ true) ↔ ((a ≡ false) × (b ≡ false))
    window_split a b = ground arith

  -- A search accepts a page exactly if the page meets all its criteria.
  pub matches_page_iff :
      (p : WikiPage U) (r : WikiSearchRequest) → (matches_page un p r ≡ true) ↔ MeetsPage p r
  unfolding matches_page matches_text matches_title matches_labels
  matches_page_iff p r = (
    λ h.
        let e = tests.0 h in
        let w = (window_split p (too_old p r.modified_after) (too_new p r.modified_before)).0 e.2 in
        record {
          status = (status_iff p r.statuses).0 e.0;
          space = (space_iff p r.space_keys).0 e.1;
          after = (after_iff p r.modified_after).0 w.0;
          before = (before_iff p r.modified_before).0 w.1;
          text = (unless_empty _ (split (un.casefold r.text))).0 e.3;
          in_title = (blank_or _ _).0 e.4;
          labels = (unless_empty _ r.labels).0 e.5;
        },
    λ c. tests.1 (
      (status_iff p r.statuses).1 c.status,
      (space_iff p r.space_keys).1 c.space,
      (window_split p (too_old p r.modified_after) (too_new p r.modified_before)).1
          ((after_iff p r.modified_after).1 c.after, (before_iff p r.modified_before).1 c.before),
      (unless_empty _ (split (un.casefold r.text))).1 c.text,
      (blank_or _ _).1 c.in_title,
      (unless_empty _ r.labels).1 c.labels,
    ),
  )
    where
      tests : (matches_page un p r ≡ true) ↔ (
          (matches_status p r ≡ true)
          × (matches_space p r ≡ true)
          × (matches_window p r ≡ true)
          × (matches_text un p r ≡ true)
          × (matches_title un p r ≡ true)
          × (matches_labels un p r ≡ true))
      tests =
          six (matches_status p r) (matches_space p r) (matches_window p r) (matches_text un p r)
            (matches_title un p r) (matches_labels un p r)
