-- ===== src/Wiki/Operations.antt =====
-- The catalogue of operations: agents/wiki/src/ai_agent_lab/wiki/application/operations.py,
-- domain/operation_names.py and domain/permissions.py.
pub mod Effects
use ai_agents.Prelude.{String, Bool, true, false, List, [], ◌∷◌, select}
use ai_agents.Operations.{
  Descriptor, low, medium, high, is_write, read_descriptor, write_descriptor,
}

pub data WikiToolName : Type 0 where
  search_wiki get_page get_page_children list_spaces get_comments get_page_history : WikiToolName
  create_page update_page add_comment delete_page : WikiToolName

unfoldable pub wiki_tool_value : WikiToolName → String
wiki_tool_value search_wiki = "search_wiki"
wiki_tool_value get_page = "get_page"
wiki_tool_value get_page_children = "get_page_children"
wiki_tool_value list_spaces = "list_spaces"
wiki_tool_value get_comments = "get_comments"
wiki_tool_value get_page_history = "get_page_history"
wiki_tool_value create_page = "create_page"
wiki_tool_value update_page = "update_page"
wiki_tool_value add_comment = "add_comment"
wiki_tool_value delete_page = "delete_page"

-- The members, as declared.
abbrev pub wiki_tool_names : List WikiToolName
wiki_tool_names =
    search_wiki ∷ get_page ∷ get_page_children ∷ list_spaces ∷ get_comments ∷ get_page_history
    ∷ create_page ∷ update_page ∷ add_comment ∷ delete_page ∷ []

-- `WikiPermission`
pub data WikiPermission : Type 0 where
  reading authoring commenting managing : WikiPermission

-- `_DESCRIPTORS`
unfoldable pub wiki_descriptor : WikiToolName → Descriptor WikiPermission
unfolding read_descriptor write_descriptor wiki_tool_value
wiki_descriptor create_page = write_descriptor (wiki_tool_value create_page) medium authoring true
wiki_descriptor update_page = write_descriptor (wiki_tool_value update_page) high authoring true
wiki_descriptor add_comment = write_descriptor (wiki_tool_value add_comment) low commenting false
wiki_descriptor delete_page = write_descriptor (wiki_tool_value delete_page) high managing true
wiki_descriptor name = read_descriptor (wiki_tool_value name) reading

-- `WikiToolCatalog.write_tools`
unfoldable pub wiki_write_tools : List WikiToolName
unfolding wiki_descriptor
wiki_write_tools = select (λ t. is_write (wiki_descriptor t)) wiki_tool_names
