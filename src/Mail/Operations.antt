-- ===== src/Mail/Operations.antt =====
-- The catalogue of operations: agents/mail/src/ai_agent_lab/mail/application/operations.py,
-- domain/operation_names.py and domain/permissions.py.
pub mod Effects
use ai_agents.Prelude.{
  ℕ, String, Bool, true, false, Option, none, some, List, [], ◌∷◌, ◌==◌, string_eq, if◌then◌else◌,
  select,
}
use ai_agents.Operations.{
  Descriptor, low, medium, high, is_write, read_descriptor, write_descriptor,
}

pub data MailToolName : Type 0 where
  search_mail get_mail get_thread list_labels create_draft send_mail : MailToolName
  mark_read archive_mail apply_label remove_label create_label delete_label : MailToolName

unfoldable pub tool_value : MailToolName → String
tool_value search_mail = "search_mail"
tool_value get_mail = "get_mail"
tool_value get_thread = "get_thread"
tool_value list_labels = "list_labels"
tool_value create_draft = "create_draft"
tool_value send_mail = "send_mail"
tool_value mark_read = "mark_read"
tool_value archive_mail = "archive_mail"
tool_value apply_label = "apply_label"
tool_value remove_label = "remove_label"
tool_value create_label = "create_label"
tool_value delete_label = "delete_label"

-- The members, as declared.
abbrev pub tool_names : List MailToolName
tool_names =
    search_mail ∷ get_mail ∷ get_thread ∷ list_labels ∷ create_draft ∷ send_mail ∷ mark_read
    ∷ archive_mail ∷ apply_label ∷ remove_label ∷ create_label ∷ delete_label ∷ []

abbrev pub first_valued : String → List MailToolName → Option MailToolName
first_valued name [] = none
first_valued name (t ∷ ts) = if tool_value t == name then some t else first_valued name ts

-- `MailToolName(name)`, and `none` for its `ValueError`.
unfoldable pub tool_named : String → Option MailToolName
unfolding tool_value
tool_named name = first_valued name tool_names

-- `MailPermission`
pub data MailPermission : Type 0 where
  reading drafting sending managing : MailPermission

-- `_DESCRIPTORS`
unfoldable pub descriptor : MailToolName → Descriptor MailPermission
unfolding read_descriptor write_descriptor tool_value
descriptor search_mail = read_descriptor (tool_value search_mail) reading
descriptor get_mail = read_descriptor (tool_value get_mail) reading
descriptor get_thread = read_descriptor (tool_value get_thread) reading
descriptor list_labels = read_descriptor (tool_value list_labels) reading
descriptor create_draft = write_descriptor (tool_value create_draft) low drafting false
descriptor send_mail = write_descriptor (tool_value send_mail) high sending true
descriptor mark_read = write_descriptor (tool_value mark_read) low managing true
descriptor archive_mail = write_descriptor (tool_value archive_mail) medium managing true
descriptor apply_label = write_descriptor (tool_value apply_label) medium managing true
descriptor remove_label = write_descriptor (tool_value remove_label) medium managing true
descriptor create_label = write_descriptor (tool_value create_label) low managing false
descriptor delete_label = write_descriptor (tool_value delete_label) high managing true

-- `MailToolCatalog.write_tools`
unfoldable pub write_tools : List MailToolName
unfolding descriptor
write_tools = select (λ t. is_write (descriptor t)) tool_names
