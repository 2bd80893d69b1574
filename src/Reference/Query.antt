-- ===== src/Reference/Query.antt =====
-- `_Query` of mcp-servers/reference/src/mail_mcp/reference/mailbox.py, and the arguments of a search.
use ai_agents.Prelude.{
  ℕ, String, Bool, true, false, not, ◌&&◌, List, [], ◌∷◌, ◌++◌, Option, none, some, ◌==◌, string_eq,
  if◌then◌else◌, ltb, contains, any, all, is_nonempty,
}
use ai_agents.Text.{Unicode, concat, is_infix, split}
use ai_agents.Wire.{Participant, Message, SortOrder}

pub record Query : Type 0 where
  pub keywords : Option String
  pub sender : Option String
  pub recipient : Option String
  pub subject_contains : Option String
  pub label_ids : List String
  pub date_from : Option ℕ
  pub date_to : Option ℕ
  pub unread_only : Bool
  pub has_attachments : Option Bool

-- The arguments of `search`. A caller sends a limit from 1 to 100.
pub record Search : Type 0 where
  pub query : Query
  pub limit : ℕ
  pub sort_order : SortOrder

-- `is not`, on two truth values.
abbrev is_not : Bool → Bool → Bool
is_not true b = not b
is_not false b = b

-- `_contains_keywords`
unfoldable pub contains_keywords : Unicode → Message → String → Bool
unfolding is_infix split
contains_keywords un m keywords =
    let haystack = un.casefold (concat (m.subject ∷ " " ∷ m.body ∷ [])) in
    all (λ keyword. is_infix keyword haystack) (split (un.casefold keywords))

-- The conditions under which `_matches_envelope` and `_matches_metadata` return.
abbrev pub other_sender : Option String → Message → Bool
other_sender none m = false
other_sender (some a) m = not (m.sender.address == a)

abbrev pub no_recipient : Option String → Message → Bool
no_recipient none m = false
no_recipient (some a) m = not (any (λ (p : Participant). p.address == a) (m.to ++ m.cc))

abbrev pub other_subject : Unicode → Option String → Message → Bool
other_subject un none m = false
other_subject un (some s) m =
    not (s == "") && not (is_infix (un.casefold s) (un.casefold m.subject))

abbrev pub lacks_keywords : Unicode → Option String → Message → Bool
lacks_keywords un none m = false
lacks_keywords un (some s) m = not (s == "") && not (contains_keywords un m s)

abbrev pub too_early : Message → Option ℕ → Bool
too_early m none = false
too_early m (some bound) = ltb m.sent_at bound

abbrev pub too_late : Message → Option ℕ → Bool
too_late m none = false
too_late m (some bound) = ltb bound m.sent_at

abbrev pub other_attachments : Message → Option Bool → Bool
other_attachments m none = false
other_attachments m (some wanted) = is_not (is_nonempty m.attachments) wanted

unfoldable pub matches_envelope : Unicode → Query → Message → Bool
unfolding contains_keywords
matches_envelope un q m =
    if other_sender q.sender m
    then false
    else if no_recipient q.recipient m
    then false
    else if other_subject un q.subject_contains m
    then false
    else not (lacks_keywords un q.keywords m)

unfoldable pub matches_metadata : Query → Message → Bool
matches_metadata q m =
    if q.unread_only && m.is_read
    then false
    else if not (all (λ i. contains i m.label_ids) q.label_ids)
    then false
    else if too_early m q.date_from
    then false
    else if too_late m q.date_to
    then false
    else not (other_attachments m q.has_attachments)

-- `_Query.matches`
unfoldable pub satisfies : Unicode → Query → Message → Bool
unfolding matches_envelope matches_metadata
satisfies un q m = matches_envelope un q m && matches_metadata q m
