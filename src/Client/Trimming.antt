-- ===== src/Client/Trimming.antt =====
-- Taking the white space off a report leaves a report.
use ai_agents.Prelude.{
  ◌≡◌, refl, ap, ◌∙◌, String, Bool, true, false, not, ◌&&◌, ◌||◌, arith, ◌==◌, string_eq,
}
use ai_agents.Text.{is_prefix, is_space, strip_left, strip_right, strip_by}
use ai_agents.Text.Find.{is_prefix-comparable}
use ai_agents.Text.Occurrence.{is_silent, append-nonempty_right, cons-nonempty}
use ai_agents.Protocol.{encode, strip, separator}
use ai_agents.Protocol.MailCodes.{
  MailErrorCode, not_found, access_denied, unavailable, protocol, mail_codes, mail_code_value,
}
use Prim.Native.String.{◌++◌ as str_append}
use text.Mathlib.TextLemmas.{nil-append, cons-append}

-- `t` cannot start in `p`, whatever follows `p`.
abbrev pub cannot_start : String → String → Bool
cannot_start t String.[] = true
cannot_start t (String.◌∷◌ c p) =
    not (is_prefix t (String.◌∷◌ c p) || is_prefix (String.◌∷◌ c p) t) && cannot_start t p

pub silent_anywhere : (t p r : String) → cannot_start t p ≡ true → is_silent t p r ≡ true
silent_anywhere t String.[] r h = refl
silent_anywhere t (String.◌∷◌ c p) r h =
    ground (arith, is_prefix-comparable t (String.◌∷◌ c p) r, silent_anywhere t p r)

-- The text is empty, or does not start with white space.
abbrev pub starts_bare : String → Bool
starts_bare String.[] = true
starts_bare (String.◌∷◌ c s) = not (is_space c)

-- The text is not all white space.
abbrev pub is_telling : String → Bool
is_telling s = not (strip_right is_space s == "")

pub strip_right-append :
    (x y : String)
    → is_telling y ≡ true
    → strip_right is_space (str_append x y) ≡ str_append x (strip_right is_space y)
unfolding strip_right
strip_right-append String.[] y h = rw (nil-append y, nil-append (strip_right is_space y)) refl
strip_right-append (String.◌∷◌ c x) y h =
    let rest : (strip_right is_space (str_append x y) == "") ≡ false =
      rw (strip_right-append x y h)
        (append-nonempty_right x (strip_right is_space y) (ground arith)) in
    rw (cons-append c x y, cons-append c x (strip_right is_space y), rest)
      (ap (String.◌∷◌ c) (strip_right-append x y h))

pub telling-append : (x y : String) → is_telling y ≡ true → is_telling (str_append x y) ≡ true
telling-append x y h =
    rw (strip_right-append x y h)
      (ap not (append-nonempty_right x (strip_right is_space y) (ground arith)))

-- A text that starts with no white space keeps its start.
bare-append :
    (x y : String)
    → (x == "") ≡ false
    → starts_bare x ≡ true
    → strip_left is_space (str_append x y) ≡ str_append x y
unfolding strip_left
bare-append String.[] y n h = absurd (ground arith)
bare-append (String.◌∷◌ c x) y n h =
    let solid : is_space c ≡ false = ground arith in rw (cons-append c x y, solid) refl

strip_left-encode :
    (c : MailErrorCode) (detail : String) → strip_left is_space (encode c detail) ≡ encode c detail
unfolding encode mail_code_value is_space
strip_left-encode not_found detail = bare-append "mail_not_found" _ refl refl
strip_left-encode access_denied detail = bare-append "mail_access_denied" _ refl refl
strip_left-encode unavailable detail = bare-append "mail_unavailable" _ refl refl
strip_left-encode protocol detail = bare-append "mail_protocol" _ refl refl

strip_left-report :
    (context : String) (c : MailErrorCode) (detail : String)
    → starts_bare context ≡ true
    → strip_left is_space (str_append context (encode c detail))
      ≡ str_append context (encode c detail)
strip_left-report String.[] c detail h = rw nil-append (strip_left-encode c detail)
strip_left-report (String.◌∷◌ ch context) c detail h =
    bare-append (String.◌∷◌ ch context) (encode c detail) (cons-nonempty ch context) h

telling-encode :
    (c : MailErrorCode) (detail : String)
    → is_telling detail ≡ true
    → is_telling (encode c detail) ≡ true
unfolding encode
telling-encode c detail h =
    telling-append (mail_code_value c) (str_append separator detail)
      (telling-append separator detail h)

strip_right-encode :
    (c : MailErrorCode) (detail : String)
    → is_telling detail ≡ true
    → strip_right is_space (encode c detail) ≡ encode c (strip_right is_space detail)
unfolding encode
strip_right-encode c detail h =
    strip_right-append (mail_code_value c) (str_append separator detail)
      (telling-append separator detail h)
    ∙ ap (str_append (mail_code_value c)) (strip_right-append separator detail h)

-- The white space around a report with a text is that before the context and that behind the text.
pub strip-report :
    (context : String) (c : MailErrorCode) (detail : String)
    → starts_bare context ≡ true
    → is_telling detail ≡ true
    → strip (str_append context (encode c detail))
      ≡ str_append context (encode c (strip_right is_space detail))
unfolding strip_by
strip-report context c detail bare telling =
    ap (strip_right is_space) (strip_left-report context c detail bare)
    ∙ strip_right-append context (encode c detail) (telling-encode c detail telling)
    ∙ ap (str_append context) (strip_right-encode c detail telling)
