-- ===== src/Text.antt =====
-- Python's `str`: the native `String`, walked character by character. What rests on the Unicode
-- tables (case folding, case mapping, the letters and digits, what is printable) is an interface.
pub mod Decimal
pub mod Find
pub mod Slice
pub mod Occurrence
use ai_agents.Prelude.{
  ℕ, Char, code, String, Bool, true, false, not, Option, none, some, ◌&&◌, ◌||◌, List, [], ◌∷◌, leb,
  ◌==◌, nat_eq, string_eq, if◌then◌else◌,
}
use Prim.Native.String.{◌++◌ as str_append}

-- The parts of `str` that read the Unicode tables.
pub record Unicode : Type 0 where
  pub casefold : String → String
  pub lower : String → String
  pub upper : String → String
  pub is_alnum : Char → Bool
  pub is_decimal : Char → Bool
  -- `repr`, which escapes what the tables call unprintable
  pub repr : String → String

-- `str.isspace` on one character, which is also what `\s` matches and what `strip` and `split` use.
unfoldable pub is_space : Char → Bool
is_space ch =
    let c = code ch in
    (leb 9 c && leb c 13)
    || (leb 28 c && leb c 32)
    || c == 133
    || c == 160
    || c == 5760
    || (leb 8192 c && leb c 8202)
    || c == 8232
    || c == 8233
    || c == 8239
    || c == 8287
    || c == 12288

-- `bool(x)` of an optional text.
abbrev pub is_truthy : Option String → Bool
is_truthy none = false
is_truthy (some s) = not (s == "")

-- The pieces of an f-string, and `"".join`.
abbrev pub concat : List String → String
concat [] = ""
concat (s ∷ ss) = str_append s (concat ss)

-- `sep.join(parts)`
unfoldable pub join : String → List String → String
join sep [] = ""
join sep (s ∷ []) = s
join sep (s ∷ t ∷ ss) = str_append s (str_append sep (join sep (t ∷ ss)))

-- `s.lstrip`, `s.rstrip` and `s.strip` of the characters that satisfy `p`.
unfoldable pub strip_left : (Char → Bool) → String → String
strip_left p String.[] = String.[]
strip_left p (String.◌∷◌ c s) = if p c then strip_left p s else String.◌∷◌ c s

unfoldable pub strip_right : (Char → Bool) → String → String
strip_right p String.[] = String.[]
strip_right p (String.◌∷◌ c s) =
    let rest = strip_right p s in if rest == "" && p c then String.[] else String.◌∷◌ c rest

unfoldable pub strip_by : (Char → Bool) → String → String
unfolding strip_left strip_right
strip_by p s = strip_right p (strip_left p s)

-- `p in s`, for a text `p`.
unfoldable pub is_prefix : String → String → Bool
is_prefix String.[] s = true
is_prefix (String.◌∷◌ c p) String.[] = false
is_prefix (String.◌∷◌ c p) (String.◌∷◌ d s) = code c == code d && is_prefix p s

unfoldable pub is_infix : String → String → Bool
unfolding is_prefix
is_infix p String.[] = is_prefix p String.[]
is_infix p (String.◌∷◌ d s) = is_prefix p (String.◌∷◌ d s) || is_infix p s

abbrev flush : String → List String → List String
flush word rest = if word == "" then rest else word ∷ rest

-- `s.split()`: the runs of characters that are no space. `word` is the run that is being read.
unfoldable pub split_from : String → String → List String
unfolding is_space
split_from word String.[] = flush word []
split_from word (String.◌∷◌ c s) =
    let rest = split_from (if is_space c then "" else str_append word (String.◌∷◌ c String.[])) s in
    if is_space c then flush word rest else rest

unfoldable pub split : String → List String
unfolding split_from
split s = split_from "" s

-- `"".join(f(c) for c in s)`
unfoldable pub map_chars : (Char → Char) → String → String
map_chars f String.[] = String.[]
map_chars f (String.◌∷◌ c s) = String.◌∷◌ (f c) (map_chars f s)
