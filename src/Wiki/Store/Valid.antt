-- ===== src/Wiki/Store/Valid.antt =====
-- Well-formed wikis: what the constructors check, and what the dicts keep.
use ai_agents.Prelude.{
  ℕ, ◌+◌, ◌<◌, ◌≡◌, String, true, false, List, [], ◌∷◌, Option, none, some, arith, ◌==◌, nat_eq,
  string_eq, leb, contains, IsNodup, nat_beq_iff,
}
use ai_agents.Dict.{keys, lookup, IsNodup-insert, IsNodup-erase}
use ai_agents.Dict.Values.{
  EachEntry, EachEntry-insert, EachEntry-erase, EachEntry-lookup, IsKeyed, IsKeyed-insert,
  IsKeyed-erase, IsKeyed-lookup,
}
use ai_agents.Wiki.Models.{WikiPageVersion, WikiPageHistory, descends, repeats, numbers}
use ai_agents.Wiki.Store.{Wiki, PageEntry, page_key, store, remove}

module _ {U : Type 0} where
  -- Version numbers from newest to oldest without repetition, the newest being `n`.
  abbrev pub IsHistory : ℕ → List (WikiPageVersion U) → Type 0
  IsHistory n [] = ⊥
  IsHistory n (v ∷ vs) =
      (v.version ≡ n) × (descends (numbers (v ∷ vs)) ≡ true) × (repeats (numbers (v ∷ vs)) ≡ false)

  abbrev pub IsRecorded : ℕ → Option (WikiPageHistory U) → Type 0
  IsRecorded n none = Unit
  IsRecorded n (some h) = IsHistory n h.versions

  pub record IsSound (e : PageEntry U) : Type 0 where
    pub identified : (e.page.page_id == "") ≡ false
    pub numbered : leb 1 e.page.version ≡ true
    pub recorded : IsRecorded e.page.version e.history

  pub record IsValid (wiki : Wiki U) : Type 0 where
    pub nodup : IsNodup (keys wiki.pages)
    pub keyed : IsKeyed page_key wiki.pages
    pub sound : EachEntry (λ i e. IsSound e) wiki.pages

  pub store-IsValid :
      (e : PageEntry U) (wiki : Wiki U) → IsSound e → IsValid wiki → IsValid (store e wiki).1
  unfolding store
  store-IsValid e wiki s v = record {
    nodup = IsNodup-insert e.page.page_id e wiki.pages v.nodup;
    keyed = IsKeyed-insert page_key e wiki.pages v.keyed;
    sound = EachEntry-insert (λ i x. IsSound x) e.page.page_id e wiki.pages s v.sound;
  }

  pub remove-IsValid : (i : String) (wiki : Wiki U) → IsValid wiki → IsValid (remove i wiki).1
  unfolding remove
  remove-IsValid i wiki v = record {
    nodup = IsNodup-erase i wiki.pages v.nodup;
    keyed = IsKeyed-erase page_key i wiki.pages v.keyed;
    sound = EachEntry-erase (λ j x. IsSound x) i wiki.pages v.sound;
  }

  pub found-named :
      (i : String) (e : PageEntry U) (wiki : Wiki U)
      → IsValid wiki
      → lookup i wiki.pages ≡ some e
      → e.page.page_id ≡ i
  found-named i e wiki v found = IsKeyed-lookup page_key i e wiki.pages v.keyed found

  pub found-IsSound :
      (i : String) (e : PageEntry U) (wiki : Wiki U)
      → IsValid wiki
      → lookup i wiki.pages ≡ some e
      → IsSound e
  found-IsSound i e wiki v found = EachEntry-lookup (λ j x. IsSound x) i e wiki.pages v.sound found

-- A number above the first of a descending list is not in it.
above-absent :
    (n m : ℕ) (ns : List ℕ) → m < n → descends (m ∷ ns) ≡ true → contains n (m ∷ ns) ≡ false
above-absent n m [] h d = ground (arith, nat_beq_iff n m)
above-absent n m (k ∷ ns) h d =
    ground (arith, nat_beq_iff n m, above-absent n k ns (ground arith) (ground arith))

-- A newer version goes before a history.
pub newer-IsHistory :
    {U : Type 0} (n : ℕ) (v : WikiPageVersion U) (vs : List (WikiPageVersion U))
    → IsHistory n vs
    → v.version ≡ n + 1
    → IsHistory (n + 1) (v ∷ vs)
newer-IsHistory n v [] h e = absurd h
newer-IsHistory n v (w ∷ vs) h e = (
  e,
  ground (arith, h.0, h.1),
  ground
      (arith, h.1, h.2, above-absent v.version w.version (numbers vs) (omega (arith, h.0, e)) h.1),
)
