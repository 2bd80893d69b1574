-- ===== src/Protocol.antt =====
-- mcp-servers/protocol/src/mail_mcp/protocol/errors.py and
-- mcp-servers/wiki-protocol/src/wiki_mcp/protocol/errors.py: how a server reports a failure as text and
-- how a caller reads it. Both files have the same functions over their own codes, so the functions
-- are stated here for any enumeration of codes.
pub mod Earliest
pub mod Decoding
pub mod MailCodes
pub mod MailFailures
pub mod WikiCodes
pub mod WikiFailures
pub mod Tests
use ai_agents.Prelude.{
  ℕ, ◌+◌, ◌≡◌, String, Bool, true, not, ◌&&◌, ◌||◌, Option, none, some, List, [], ◌∷◌, ◌==◌, Eq,
  nat_eq, string_eq, ltb, if◌then◌else◌, contains, any,
}
use ai_agents.Text.{is_prefix, is_space, strip_by}
use ai_agents.Text.Find.{find, drop, size, is_below}
use Prim.Native.String.{◌++◌ as str_append}

-- `SEPARATOR`
abbrev pub separator : String
separator = ": "

-- A `StrEnum` of codes: its members as declared, their values, and the one for unknown text. No code
-- with its separator starts another one.
pub record Codes (C : Type 0) : Type 0 where
  pub members : List C
  pub value : C → String
  pub protocol : C
  pub same : Eq C
  pub listed : (c : C) → contains ⦃e = same⦄ c members ≡ true
  pub apart :
      (c d : C)
      → is_prefix (str_append (value c) separator) (str_append (value d) separator) ≡ true
      → c ≡ d

-- `s.strip()`, and `s or other`.
abbrev pub strip : String → String
strip s = strip_by is_space s

abbrev pub or_else : String → String → String
or_else s other = if s == "" then other else s

module _ {C : Type 0} ⦃k : Codes C⦄ where
  -- `f"{code.value}{SEPARATOR}"`
  abbrev pub marker : C → String
  marker c = str_append (k.value c) separator

  unfoldable pub encode : C → String → String
  encode c detail = str_append (k.value c) (str_append separator detail)

  abbrev pub with_position : C → Option ℕ → List (ℕ × C) → List (ℕ × C)
  with_position c none rest = rest
  with_position c (some i) rest = (i, c) ∷ rest

  -- The comprehension of `_first_code`.
  unfoldable pub positions : String → List C → List (ℕ × C)
  unfolding find
  positions reported [] = []
  positions reported (c ∷ cs) = with_position c (find (marker c) reported) (positions reported cs)

  -- `(i, c) < (j, d)`: a member of a `StrEnum` compares as its text.
  abbrev pub precedes : ℕ × C → ℕ × C → Bool
  precedes (i, c) (j, d) = ltb i j || i == j && is_below (k.value c) (k.value d)

  -- `min(positions)`
  abbrev pub least_from : ℕ × C → List (ℕ × C) → ℕ × C
  least_from best [] = best
  least_from best (x ∷ xs) = least_from (if precedes x best then x else best) xs

  abbrev pub least : List (ℕ × C) → Option (ℕ × C)
  least [] = none
  least (x ∷ xs) = some (least_from x xs)

  unfoldable pub first_code : String → Option (ℕ × C)
  unfolding positions is_below
  first_code reported = least (positions reported k.members)

  abbrev pub detail_from : String → Option (ℕ × C) → C × String
  detail_from reported none = (k.protocol, reported)
  detail_from reported (some (index, code)) =
      let after = drop (index + size (k.value code) + size separator) reported in
      (code, or_else (strip after) reported)

  unfoldable pub decode : String → C × String
  unfolding first_code drop size
  decode reported = detail_from reported (first_code reported)
