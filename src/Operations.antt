-- ===== src/Operations.antt =====
-- The metadata of an operation, which the catalogues of both agents declare in their
-- application/operations.py (agents/mail/src/ai_agent_lab/mail and agents/wiki/src/ai_agent_lab/wiki),
-- and how a deployment overrides it: the mail agent's infrastructure/configuration/operations.py and the
-- wiki agent's application/operations.py. The kinds of operation and the levels of risk are the members
-- of the framework's enumerations that the catalogues name.
use ai_agents.Prelude.{String, Bool, true, false, Option, none, some, string_eq}
use ai_agents.Dict.{Dict, lookup}

pub data OperationType : Type 0 where
  read write : OperationType

pub data RiskLevel : Type 0 where
  low medium high : RiskLevel

-- `ToolOperationDescriptor`, with the arguments that the catalogues give it; `P` is the type of the
-- agent's permissions.
pub record Descriptor (P : Type 0) : Type 0 where
  pub tool_name : String
  pub operation_type : OperationType
  pub risk_level : RiskLevel
  pub required_permission : P
  pub confirmation_required_by_default : Bool

module _ {P : Type 0} where
  -- `_read`, for the agent's permission to read
  unfoldable pub read_descriptor : String → P → Descriptor P
  read_descriptor name reading = record {
    tool_name = name;
    operation_type = read;
    risk_level = low;
    required_permission = reading;
    confirmation_required_by_default = false;
  }

  -- `_write`
  unfoldable pub write_descriptor : String → RiskLevel → P → Bool → Descriptor P
  write_descriptor name risk_level permission confirmation_required = record {
    tool_name = name;
    operation_type = write;
    risk_level = risk_level;
    required_permission = permission;
    confirmation_required_by_default = confirmation_required;
  }

  -- `descriptor.is_write`
  abbrev pub is_write : Descriptor P → Bool
  is_write d = elim d.operation_type [ read ↦ false | write ↦ true ]

  abbrev pub or_default : Descriptor P → Option (Descriptor P) → Descriptor P
  or_default default none = default
  or_default default (some d) = d

  -- `DeliveredMailOperations.descriptor` and `DeliveredWikiOperations.descriptor`: what the manifest
  -- declares under the tool's name, or the coded default.
  unfoldable pub delivered : Dict String (Descriptor P) → String → Descriptor P → Descriptor P
  unfolding lookup
  delivered declared name default = or_default default (lookup name declared)
