-- ===== src/Session/Mcp/Discovery.antt =====
-- `discoverMCPTools` of internal/session/mcp.go. What the device answers to each request is an argument.
use xiaozhi_esp32_golang_ser.Prelude.{
  ℕ, zero, suc, Bool, Option, none, some, List, [], ◌∷◌, ◌++◌, map, if◌then◌else◌,
}
use xiaozhi_esp32_golang_ser.Session.Message.{Text}
use xiaozhi_esp32_golang_ser.Ai.Clients.Request.{Tool}

-- `MCPTool`, with the JSON of its schema.
pub record McpTool : Type 0 where
  pub name : Text
  pub description : Text
  pub input_schema : Text

pub record ToolsListResult : Type 0 where
  pub tools : List McpTool
  pub next_cursor : Text

abbrev pub default_mcp_max_list_pages : ℕ
default_mcp_max_list_pages = 10

-- The loop over the pages. `answer` is what the device gives for a page from a cursor, `none` where the
-- request failed or its result is no such object.
unfoldable pub list_pages : (ℕ → Text → Option ToolsListResult) → ℕ → ℕ → Text → List McpTool
list_pages answer zero page cursor = []
list_pages answer (suc pages) page cursor = elim (answer page cursor) [
  | none ↦ []
  | some r ↦ elim r.next_cursor [
    | [] ↦ r.tools
    | c ∷ cs ↦ r.tools ++ list_pages answer pages (suc page) (c ∷ cs)
  ]
]

unfoldable pub to_tool : McpTool → Tool
to_tool t = record { name = t.name; description = t.description; parameters = t.input_schema }

-- The tools of the session afterwards, `before` being those it had.
unfoldable pub discover_mcp_tools :
    Bool → (ℕ → Text → Option ToolsListResult) → List Tool → List Tool
discover_mcp_tools initialized answer before =
    if initialized then map to_tool (list_pages answer default_mcp_max_list_pages 0 []) else before
