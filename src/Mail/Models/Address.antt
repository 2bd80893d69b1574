-- ===== src/Mail/Models/Address.antt =====
-- `EmailAddress` of domain/models.py: normalisation, the pattern of a valid address, its domain.
use ai_agents.Prelude.{
  code, String, Bool, true, false, not, ◌&&◌, ◌||◌, Option, none, some, ◌==◌, nat_eq, string_eq,
  if◌then◌else◌,
}
use ai_agents.Prelude.Exec.{ok, err}
use ai_agents.Text.{Unicode, is_space, strip_by}
use ai_agents.Mail.Error.{Checked, invalid, bad_address}
use ai_agents.Mail.Models.{EmailAddress}

-- `[^@\s.]+(\.[^@\s.]+)+$`, at the rest of the text. `seen` is whether the label that is read has
-- a character, `dotted` whether a dot was read. `$` also stands before a last line feed.
unfoldable pub matches_domain : Bool → Bool → String → Bool
matches_domain seen dotted String.[] = seen && dotted
matches_domain seen dotted (String.◌∷◌ c s) =
    let dot = code c == b'.' in
    let rest = matches_domain (not dot) (dotted || dot) s in
    if code c == 10 && s == ""
    then seen && dotted
    else (if dot then seen else not (code c == b'@') && not (is_space c)) && rest

-- `^[^@\s]+@`, and the rest. `seen` is whether the local part has a character.
unfoldable pub matches_address : Bool → String → Bool
unfolding matches_domain
matches_address seen String.[] = false
matches_address seen (String.◌∷◌ c s) =
    let rest = matches_address true s in
    if code c == b'@' then seen && matches_domain false false s else not (is_space c) && rest

-- `_validate`
unfoldable pub make_address : Unicode → String → Checked EmailAddress
unfolding matches_address strip_by is_space
make_address un value =
    let normalised = un.lower (strip_by is_space value) in
    if matches_address false normalised
    then ok (record { value = normalised })
    else err (invalid (bad_address value))

-- `s.split("@", 1)[1]`; `none` is the `IndexError` of a text with no `@`.
unfoldable pub after_at : String → Option String
after_at String.[] = none
after_at (String.◌∷◌ c s) = if code c == b'@' then some s else after_at s

unfoldable pub domain : EmailAddress → Option String
unfolding after_at
domain a = after_at a.value
