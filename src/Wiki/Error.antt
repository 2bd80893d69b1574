-- ===== src/Wiki/Error.antt =====
-- agents/wiki/src/ai_agent_lab/wiki/domain/tool_errors.py: the errors that the in-memory wiki raises,
-- and the reasons for which a model refuses its fields.
use ai_agents.Prelude.{ℕ, String}
use ai_agents.Prelude.Exec.{Result, Exec}

-- `ValueError`, as pydantic reports it.
pub data WikiInvalid : Type 0 where
  empty_identifier bad_version before_creation own_parent replies_to_itself : WikiInvalid
  no_versions not_newest_first repeated_version : WikiInvalid
  limit_range reversed_window small_total : WikiInvalid

pub data WikiError : Type 0 where
  not_found : String → String → WikiError
  access_denied : String → WikiError
  concurrent_edit : String → ℕ → ℕ → WikiError
  invalid : WikiInvalid → WikiError

abbrev pub WikiChecked : Type 0 → Type 0
WikiChecked A = Result WikiError A

abbrev pub WikiMethod : Type 0 → Type 0 → Type 0
WikiMethod S A = Exec WikiError S A
