-- ===== src/Wiki/Terms.antt =====
-- `QuestionTerms` of agents/wiki/src/ai_agent_lab/wiki/application/skills/question_terms.py.
pub mod Content
pub mod Ladder
use ai_agents.Prelude.{
  ℕ, zero, suc, ◌+◌, ◌≤◌, ◌<◌, ◌≡◌, refl, sym, ◌∙◌, ap, subst, String, Char, code, Bool, true,
  false, not, ◌&&◌, ◌||◌, List, [], ◌∷◌, ◌++◌, map, arith, ◌==◌, nat_eq, string_eq, ltb, leb,
  if◌then◌else◌, contains, IsNodup, length, take, is_nonempty, Bool-cases, inl, inr, All, eq_iff,
}
use Prim.Native.String.{◌++◌ as str_append}
use ai_agents.Text.{Unicode, join, is_space, strip_by}
use ai_agents.Wiki.StopWords.{stop_words}

-- `len(s)`
unfoldable pub str_length : String → ℕ
str_length String.[] = 0
str_length (String.◌∷◌ c s) = suc (str_length s)

abbrev flush_word : String → List String → List String
flush_word word rest = if word == "" then rest else word ∷ rest

-- The loop of `ladder`, with `n` lengths left: `queries` is what it has collected.
unfoldable pub climb : ℕ → List String → ℕ → List String → List String
unfolding join
climb attempts ts zero queries = queries
climb attempts ts (suc n) queries =
    let more = queries ++ join " " (take (suc n) ts) ∷ [] in
    let rest = climb attempts ts n more in if length more == attempts then more else rest

module _ (un : Unicode) where
  -- A character of `[^\W\d_]`.
  abbrev is_letter : Char → Bool
  is_letter c = un.is_alnum c && not (un.is_decimal c)

  -- `_WORD.finditer`: the runs of letters. `word` is the run that is being read.
  unfoldable pub words_from : String → String → List String
  words_from word String.[] = flush_word word []
  words_from word (String.◌∷◌ c s) =
      let rest =
        words_from (if is_letter c then str_append word (String.◌∷◌ c String.[]) else "") s in
      if is_letter c then rest else flush_word word rest

  -- `len(word) < MIN_TERM_LENGTH or word in _STOP_WORDS`
  unfoldable pub is_skipped : String → Bool
  unfolding str_length
  is_skipped word = ltb (str_length word) 2 || contains word stop_words

  -- The loop of `_terms`: `found` holds the keys of the dict.
  unfoldable pub collect : ℕ → List String → List String → List String
  unfolding is_skipped
  collect max_terms [] found = found
  collect max_terms (w ∷ ws) found =
      let word = un.casefold w in
      let more = (if contains word found then found else found ++ word ∷ []) in
      let skip = collect max_terms ws found in
      let go_on = collect max_terms ws more in
      if is_skipped word then skip else if length more == max_terms then more else go_on

  -- `_terms`
  unfoldable pub terms : ℕ → String → List String
  unfolding words_from collect
  terms max_terms question = collect max_terms (words_from "" question) []

  -- `of`
  unfoldable pub query_of : ℕ → String → String
  unfolding terms join strip_by is_space
  query_of max_terms question =
      let ts = terms max_terms question in
      if is_nonempty ts then join " " ts else strip_by is_space question

  -- `ladder`
  unfoldable pub ladder : ℕ → String → ℕ → List String
  unfolding terms climb strip_by is_space
  ladder max_terms question attempts =
      let ts = terms max_terms question in
      if not (is_nonempty ts)
      then strip_by is_space question ∷ []
      else climb attempts ts (length ts) []
