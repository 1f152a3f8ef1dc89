-- ===== src/Session/Mcp/Tests.antt =====
-- Two requests to the device whose answers cross, and a discovery that ends at an empty cursor.
use xiaozhi_esp32_golang_ser.Prelude.{ℕ, ◌≡◌, refl, true, Option, none, some, List, [], ◌∷◌}
use xiaozhi_esp32_golang_ser.Prelude.Int.{pos}
use xiaozhi_esp32_golang_ser.Session.Message.{Text}
use xiaozhi_esp32_golang_ser.Session.Mcp.Requests.{
  Response, no_requests, begin_request, receives, Event, begins, incoming, ends, step, run,
}
use xiaozhi_esp32_golang_ser.Session.Mcp.Discovery.{
  McpTool, ToolsListResult, list_pages, to_tool, discover_mcp_tools,
}
use xiaozhi_esp32_golang_ser.Session.Mcp.Matching.{goes_on, IsMatched, run-begin_request-IsMatched}

abbrev first : Response
first = record { id = pos 1; result = 7 ∷ []; error = none }

abbrev second : Response
second = record { id = pos 2; result = 8 ∷ []; error = none }

abbrev late : Response
late = record { id = pos 2; result = 9 ∷ []; error = none }

abbrev crossing : List Event
crossing =
    incoming (some second) ∷ incoming (some first) ∷ ends receives 1 ∷ incoming (some late) ∷ []

run-begin_request-IsMatched_example : IsMatched (run no_requests (begins ∷ [])) crossing
unfolding goes_on run step begin_request no_requests
run-begin_request-IsMatched_example = run-begin_request-IsMatched (begins ∷ []) crossing refl

abbrev lamp : McpTool
lamp = record { name = 3 ∷ []; description = []; input_schema = 4 ∷ [] }

abbrev pages : ℕ → Text → Option ToolsListResult
pages page [] = some (record { tools = lamp ∷ []; next_cursor = 5 ∷ [] })
pages page (c ∷ cs) = some (record { tools = lamp ∷ lamp ∷ []; next_cursor = [] })

discovers_two_pages :
    discover_mcp_tools true pages [] ≡ to_tool lamp ∷ to_tool lamp ∷ to_tool lamp ∷ []
unfolding discover_mcp_tools list_pages
discovers_two_pages = refl
