-- ===== src/Session/Mcp.antt =====
-- The calls of the device's tools, from internal/session/mcp.go. What the device answers is an argument.
pub mod Requests
pub mod Discovery
pub mod Matching
pub mod Tests
use xiaozhi_esp32_golang_ser.Prelude.{
  Bool, true, false, ◌||◌, Option, none, some, List, [], ◌∷◌, ◌++◌, if◌then◌else◌,
}
use xiaozhi_esp32_golang_ser.Session.Message.{Text}
use xiaozhi_esp32_golang_ser.Session.Message.Parse.{text_eq, codes}

-- The result of tools/call: no such object, in its own text, or its content's texts with the error flag.
pub data CallResult : Type 0 where
  other_result : Text → CallResult
  content : Bool → List Text → CallResult

-- With the names of the tools that the device has reported.
unfoldable pub is_mcp_tool_allowed : Text → List Text → Bool
is_mcp_tool_allowed name [] = false
is_mcp_tool_allowed name (tool ∷ tools) = text_eq tool name || is_mcp_tool_allowed name tools

more_lines : List Text → Text
more_lines [] = []
more_lines (text ∷ texts) = 0x0a ∷ text ++ more_lines texts

lines : List Text → Text
unfolding more_lines
lines [] = []
lines (text ∷ texts) = text ++ more_lines texts

or_success : Text → Text
or_success [] = codes "success"
or_success (c ∷ text) = c ∷ text

result_text : CallResult → Option Text
unfolding lines or_success
result_text (other_result text) = some text
result_text (content true texts) = none
result_text (content false texts) = some (or_success (lines texts))

-- `callMCPTool`; the answer is that of `sendMCPRequest`. An error's text is left out.
pub call_mcp_tool : List Text → Text → Option CallResult → Option Text
unfolding result_text
call_mcp_tool tools name answer =
    if is_mcp_tool_allowed name tools
    then elim answer [ none ↦ none | some result ↦ result_text result ]
    else none
