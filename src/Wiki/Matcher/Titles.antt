-- ===== src/Wiki/Matcher/Titles.antt =====
-- The order of titles in a search of the wiki.
use ai_agents.Prelude.{
  ◌≡◌, refl, String, code, true, false, List, [], ◌∷◌, arith, nat_eq, nat_beq_iff, All,
}
use ai_agents.Prelude.Sort.{IsSortedWith, sort_with, sort_with-IsSortedWith}
use ai_agents.Text.{Unicode}
use ai_agents.Text.Find.{is_below}
use ai_agents.Runtime.{Untrusted}
use ai_agents.Wiki.Models.{WikiPage}
use ai_agents.Wiki.Matcher.{str_leb, title_before}

str_leb_total : (s t : String) → str_leb s t ≡ false → str_leb t s ≡ true
unfolding str_leb
str_leb_total String.[] t h = absurd (ground (arith, h))
str_leb_total (String.◌∷◌ c s) String.[] h = refl
str_leb_total (String.◌∷◌ c s) (String.◌∷◌ d t) h =
    ground
      (arith, h, str_leb_total s t, nat_beq_iff (code c) (code d), nat_beq_iff (code d) (code c))

str_leb_trans : (s t r : String) → str_leb s t ≡ true → str_leb t r ≡ true → str_leb s r ≡ true
unfolding str_leb
str_leb_trans String.[] t r h k = refl
str_leb_trans (String.◌∷◌ c s) String.[] r h k = absurd (ground (arith, h))
str_leb_trans (String.◌∷◌ c s) (String.◌∷◌ d t) String.[] h k = absurd (ground (arith, k))
str_leb_trans (String.◌∷◌ c s) (String.◌∷◌ d t) (String.◌∷◌ e r) h k = ground (
  arith,
  h,
  k,
  str_leb_trans s t r,
  nat_beq_iff (code c) (code d),
  nat_beq_iff (code d) (code e),
  nat_beq_iff (code c) (code e),
)

-- `s <= t` is that `t < s` does not hold.
str_leb-below : (s t : String) → str_leb s t ≡ true → is_below t s ≡ false
unfolding str_leb is_below
str_leb-below String.[] t h = refl
str_leb-below (String.◌∷◌ c s) String.[] h = absurd (ground (arith, h))
str_leb-below (String.◌∷◌ c s) (String.◌∷◌ d t) h =
    ground
      (arith, h, str_leb-below s t, nat_beq_iff (code c) (code d), nat_beq_iff (code d) (code c))

module _ {U : Type 0} ⦃u : Untrusted U⦄ (un : Unicode) where
  -- No page stands before one whose title, case folded, is the smaller by code points.
  abbrev pub IsByTitle : List (WikiPage U) → Type 0
  IsByTitle [] = Unit
  IsByTitle (p ∷ ps) =
      All
        (λ (q : WikiPage U).
          is_below (un.casefold (u.expose q.title)) (un.casefold (u.expose p.title)) ≡ false)
        ps
      × IsByTitle ps

  all_below :
      (p : WikiPage U) (ps : List (WikiPage U))
      → All (λ q. title_before un p q ≡ true) ps
      → All
          (λ (q : WikiPage U).
            is_below (un.casefold (u.expose q.title)) (un.casefold (u.expose p.title)) ≡ false)
          ps
  all_below p [] h = tt
  all_below p (q ∷ ps) h = (str_leb-below _ _ h.0, all_below p ps h.1)

  by_title : (ps : List (WikiPage U)) → IsSortedWith (title_before un) ps → IsByTitle ps
  by_title [] h = tt
  by_title (p ∷ ps) h = (all_below p ps h.0, by_title ps h.1)

  pub sort_with-IsByTitle : (ps : List (WikiPage U)) → IsByTitle (sort_with (title_before un) ps)
  sort_with-IsByTitle ps = by_title (sort_with (title_before un) ps) (
      sort_with-IsSortedWith (title_before un) (λ p q. str_leb_total _ _)
        (λ p q r. str_leb_trans _ _ _) ps)
