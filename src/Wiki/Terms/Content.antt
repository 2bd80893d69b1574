-- ===== src/Wiki/Terms/Content.antt =====
-- The words that a question is reduced to.
use ai_agents.Prelude.{
  ℕ, ◌+◌, ◌≤◌, ◌<◌, ◌≡◌, refl, ◌∙◌, String, Char, Bool, true, false, not, ◌&&◌, ◌||◌, ltb, List, [],
  ◌∷◌, ◌++◌, arith, ◌==◌, nat_eq, string_eq, if◌then◌else◌, contains, contains-append, IsNodup,
  length, length-append, Bool-cases, inl, inr, All, eq_iff, nat_beq_iff,
}
use ai_agents.Text.{Unicode}
use Prim.Native.String.{◌++◌ as str_append}
use text.Mathlib.TextLemmas.{nil-append, cons-append}
use ai_agents.Wiki.StopWords.{stop_words}
use ai_agents.Wiki.Terms.{str_length, is_skipped, collect, terms, words_from}

IsNodup-snoc :
    (w : String) (ws : List String) → IsNodup ws → contains w ws ≡ false → IsNodup (ws ++ w ∷ [])
IsNodup-snoc w [] h fresh = (refl, tt)
IsNodup-snoc w (x ∷ ws) h fresh = (
  contains-append x ws (w ∷ []) ∙ ground (arith, h.0, fresh, eq_iff w x, eq_iff x w),
  IsNodup-snoc w ws h.1 (ground (arith, fresh)),
)

All-snoc :
    (P : String → Type 0) (w : String) (ws : List String) → All P ws → P w → All P (ws ++ w ∷ [])
All-snoc P w [] h p = (p, tt)
All-snoc P w (x ∷ ws) h p = (h.0, All-snoc P w ws h.1 p)

not_skipped : (n : ℕ) (b : Bool) → (ltb n 2 || b) ≡ false → (2 ≤ n) × (b ≡ false)
not_skipped n b h = ground arith

module _ (un : Unicode) (max_terms : ℕ) where
  -- Letters only: no digit, no underscore, nothing that separates words.
  abbrev pub OnlyLetters : String → Type 0
  OnlyLetters String.[] = Unit
  OnlyLetters (String.◌∷◌ c s) = (un.is_alnum c ≡ true) × (un.is_decimal c ≡ false) × OnlyLetters s

  -- A word of letters, case folded, of two characters or more, that is no function word.
  pub record IsTerm (w : String) : Type 0 where
    pub long : 2 ≤ str_length w
    pub meaningful : contains w stop_words ≡ false
    pub folded : (v : String) × (w ≡ un.casefold v) × OnlyLetters v

  -- Terms without repetition.
  pub record IsContent (ws : List String) : Type 0 where
    pub nodup : IsNodup ws
    pub kept : All IsTerm ws

  OnlyLetters-snoc :
      (v : String) (c : Char)
      → OnlyLetters v
      → un.is_alnum c ≡ true
      → un.is_decimal c ≡ false
      → OnlyLetters (str_append v (String.◌∷◌ c String.[]))
  OnlyLetters-snoc String.[] c h a d = rw nil-append (a, d, tt)
  OnlyLetters-snoc (String.◌∷◌ x v) c h a d =
      rw cons-append (h.0, h.1, OnlyLetters-snoc v c h.2 a d)

  flushed :
      (v : String) (ws : List String)
      → OnlyLetters v
      → All OnlyLetters ws
      → All OnlyLetters (if v == "" then ws else v ∷ ws)
  flushed v ws h k = elim (Bool-cases (v == "")) [
    | inl blank ↦ rw blank k
    | inr given ↦ rw given (h, k)
  ]

  words_from-OnlyLetters : (v s : String) → OnlyLetters v → All OnlyLetters (words_from un v s)
  unfolding words_from
  words_from-OnlyLetters v String.[] h = flushed v [] h tt
  words_from-OnlyLetters v (String.◌∷◌ c s) h =
      elim (Bool-cases (un.is_alnum c && not (un.is_decimal c))) [
        | inl letter ↦ rw letter (
            words_from-OnlyLetters (str_append v (String.◌∷◌ c String.[])) s
              (OnlyLetters-snoc v c h (ground arith) (ground arith)))
        | inr other ↦ rw other (flushed v (words_from un "" s) h (words_from-OnlyLetters "" s tt))
      ]

  kept-IsTerm :
      (v : String) → OnlyLetters v → is_skipped un (un.casefold v) ≡ false → IsTerm (un.casefold v)
  unfolding is_skipped
  kept-IsTerm v h keep = record {
    long = (not_skipped (str_length (un.casefold v)) (contains (un.casefold v) stop_words) keep).0;
    meaningful =
        (not_skipped (str_length (un.casefold v)) (contains (un.casefold v) stop_words) keep).1;
    folded = (v, refl, h);
  }

  abbrev noted : String → List String → List String
  noted word found = if contains word found then found else found ++ word ∷ []

  noted-IsContent :
      (word : String) (found : List String)
      → IsContent found
      → IsTerm word
      → IsContent (noted word found)
  noted-IsContent word found c keep = elim (Bool-cases (contains word found)) [
    | inl seen ↦ rw seen c
    | inr new ↦ rw new (record {
      nodup = IsNodup-snoc word found c.nodup new;
      kept = All-snoc _ word found c.kept keep;
    })
  ]

  length-noted :
      (word : String) (found : List String) → length (noted word found) ≤ length found + 1
  length-noted word found = ground (arith, length-append found (word ∷ []))

  collect-IsContent :
      (ws found : List String)
      → IsContent found
      → length found < max_terms
      → All OnlyLetters ws
      → IsContent (collect un max_terms ws found)
        × (length (collect un max_terms ws found) ≤ max_terms)
  unfolding collect
  collect-IsContent [] found c short letters = (c, omega (arith, short))
  collect-IsContent (w ∷ ws) found c short letters =
      elim (Bool-cases (is_skipped un (un.casefold w))) [
        | inl skipped ↦ rw skipped (collect-IsContent ws found c short letters.1)
        | inr keep ↦ elim (Bool-cases (length (noted (un.casefold w) found) == max_terms)) [
          | inl full ↦
              rw (keep, full)
                (
                  noted-IsContent (un.casefold w) found c (kept-IsTerm w letters.0 keep),
                  omega (arith, length-noted (un.casefold w) found, short),
                )
          | inr room ↦
              rw (keep, room)
                (collect-IsContent ws (noted (un.casefold w) found)
                  (noted-IsContent (un.casefold w) found c (kept-IsTerm w letters.0 keep))
                  (ground (
                    arith,
                    room,
                    length-noted (un.casefold w) found,
                    short,
                    nat_beq_iff (length (noted (un.casefold w) found)) max_terms,
                  ))
                  letters.1)
        ]
      ]

  -- A question is reduced to at most `max_terms` words, if that is at least one; no word occurs
  -- twice, and each has two characters or more, is no function word, and is a case-folded run of
  -- letters.
  pub terms-IsContent :
      (question : String)
      → 1 ≤ max_terms
      → IsContent (terms un max_terms question) × (length (terms un max_terms question) ≤ max_terms)
  unfolding terms
  terms-IsContent question h =
      collect-IsContent (words_from un "" question) [] (record { nodup = tt; kept = tt })
        (omega (arith, h)) (words_from-OnlyLetters "" question tt)
