-- ===== src/Runtime.antt =====
-- What the program uses of its framework, the package `ygo74.agent_runtime`, whose code is not in
-- the repository: interfaces, with the behaviour that is relied on as their laws.
use ai_agents.Prelude.{◌≡◌, String}

-- `UntrustedText` with `expose`, and the function `untrusted`. An origin is the pair of its domain
-- and its kind.
pub record Untrusted (U : Type 0) : Type 0 where
  pub expose : U → String
  pub untrusted : String → String × String → U
  pub expose-untrusted : (s : String) (o : String × String) → expose (untrusted s o) ≡ s
