-- ===== src/Samples.antt =====
-- Instances of the interfaces for the tests.
use ai_agents.Prelude.{◌≡◌, refl, String, code, false, not, [], ◌∷◌, ◌==◌, nat_eq, if◌then◌else◌}
use ai_agents.Text.{Unicode, map_chars, concat}
use ai_agents.Runtime.{Untrusted}

-- Untrusted text that is just its text.
pub expose-plain : (s : String) (o : String × String) → ◌≡◌ {A = String} s s
expose-plain s o = refl

instance abbrev pub plain : Untrusted String
plain = record { expose = λ s. s; untrusted = λ s o. s; expose-untrusted = expose-plain }

-- Tables in which `I` and `i` are the only letters with case.
abbrev pub tables : Unicode
tables = record {
  casefold = map_chars (λ c. if code c == b'I' then "i" else c);
  lower = map_chars (λ c. if code c == b'I' then "i" else c);
  upper = map_chars (λ c. if code c == b'i' then "I" else c);
  is_alnum = λ c. not (code c == b' ');
  is_decimal = λ c. false;
  repr = λ s. concat ("'" ∷ s ∷ "'" ∷ []);
}
