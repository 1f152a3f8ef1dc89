-- ===== src/Ai/Clients/Request.antt =====
-- `CreateStream` of internal/ai/bailian/llm.go up to the request: the messages and tools in the types of the
-- OpenAI client. The stream that the client opens is a parameter of the stream's model.
use mathlib.Core.Option.{some-injective}
use xiaozhi_esp32_golang_ser.Prelude.{
  ◌≡◌, refl, subst, ◌≢◌, Option, none, some, List, [], ◌∷◌, map, All,
}
use xiaozhi_esp32_golang_ser.Session.Message.{Text}
use xiaozhi_esp32_golang_ser.Session.Orchestration.{ToolCall}

-- A role is a string; any that is not one of the four is taken for the user.
pub data MessageRole : Type 0 where
  system user assistant tool : MessageRole
  unknown_role : Text → MessageRole

pub record Message : Type 0 where
  pub role : MessageRole
  pub content : Text
  pub tool_calls : List ToolCall
  pub tool_call_id : Text

-- A tool with the JSON of its parameters.
pub record Tool : Type 0 where
  pub name : Text
  pub description : Text
  pub parameters : Text

-- `ChatCompletionMessageParamUnion`, by the constructors used.
pub data Param : Type 0 where
  system_message user_message assistant_message : Text → Param
  assistant_calls : Option Text → List ToolCall → Param
  tool_message : Text → Text → Param

pub record ToolParam : Type 0 where
  pub name : Text
  pub description : Option Text
  pub parameters : Text

pub record Params : Type 0 where
  pub model : Text
  pub messages : List Param
  pub tools : List ToolParam

-- A text that is left out where it is empty.
unfoldable pub optional : Text → Option Text
optional [] = none
optional (c ∷ cs) = some (c ∷ cs)

unfoldable pub assistant_param : Text → List ToolCall → Param
unfolding optional
assistant_param content [] = assistant_message content
assistant_param content (call ∷ calls) = assistant_calls (optional content) (call ∷ calls)

unfoldable pub message_param : Message → Param
unfolding assistant_param
message_param m = elim m.role [
  | system ↦ system_message m.content
  | user ↦ user_message m.content
  | assistant ↦ assistant_param m.content m.tool_calls
  | tool ↦ tool_message m.content m.tool_call_id
  | unknown_role r ↦ user_message m.content
]

unfoldable pub tool_param : Tool → ToolParam
unfolding optional
tool_param t = record {
  name = t.name;
  description = optional t.description;
  parameters = t.parameters;
}

-- No messages are an error.
unfoldable pub request_params : Text → List Message → List Tool → Option Params
unfolding message_param tool_param
request_params model [] tools = none
request_params model (m ∷ messages) tools = some (record {
  model = model;
  messages = map message_param (m ∷ messages);
  tools = map tool_param tools;
})

-- What a service reads out of the parameters.
unfoldable pub text_or_empty : Option Text → Text
text_or_empty none = []
text_or_empty (some t) = t

unfoldable pub param_message : Param → Message
unfolding text_or_empty
param_message (system_message c) = record {
  role = system;
  content = c;
  tool_calls = [];
  tool_call_id = [];
}
param_message (user_message c) = record {
  role = user;
  content = c;
  tool_calls = [];
  tool_call_id = [];
}
param_message (assistant_message c) = record {
  role = assistant;
  content = c;
  tool_calls = [];
  tool_call_id = [];
}
param_message (assistant_calls c calls) = record {
  role = assistant;
  content = text_or_empty c;
  tool_calls = calls;
  tool_call_id = [];
}
param_message (tool_message c id) = record {
  role = tool;
  content = c;
  tool_calls = [];
  tool_call_id = id;
}

-- A message of a role, with what that role has.
pub data IsWellFormed : Message → Type 0 where
  of_system :
      (c : Text)
      → IsWellFormed (record { role = system; content = c; tool_calls = []; tool_call_id = [] })
  of_user :
      (c : Text)
      → IsWellFormed (record { role = user; content = c; tool_calls = []; tool_call_id = [] })
  of_assistant :
      (c : Text) (calls : List ToolCall)
      → IsWellFormed
          (record { role = assistant; content = c; tool_calls = calls; tool_call_id = [] })
  of_tool :
      (c id : Text)
      → IsWellFormed (record { role = tool; content = c; tool_calls = []; tool_call_id = id })

text_or_empty-optional : (t : Text) → text_or_empty (optional t) ≡ t
unfolding text_or_empty optional
text_or_empty-optional [] = refl
text_or_empty-optional (c ∷ cs) = refl

param_message-message_param : (m : Message) → IsWellFormed m → param_message (message_param m) ≡ m
unfolding param_message message_param assistant_param
param_message-message_param _ (of_system c) = refl
param_message-message_param _ (of_user c) = refl
param_message-message_param _ (of_assistant c []) = refl
param_message-message_param _ (of_assistant c (call ∷ calls)) = rw (text_or_empty-optional c)
param_message-message_param _ (of_tool c id) = refl

all_read_back :
    (ms : List Message) → All IsWellFormed ms → map param_message (map message_param ms) ≡ ms
all_read_back [] h = refl
all_read_back (m ∷ ms) h = rw (param_message-message_param m h.0, all_read_back ms h.1)

unfoldable pub param_tool : ToolParam → Tool
unfolding text_or_empty
param_tool t = record {
  name = t.name;
  description = text_or_empty t.description;
  parameters = t.parameters;
}

tools_read_back : (ts : List Tool) → map param_tool (map tool_param ts) ≡ ts
unfolding param_tool tool_param
tools_read_back [] = refl
tools_read_back (t ∷ ts) = rw (text_or_empty-optional t.description, tools_read_back ts)

-- A conversation has a request exactly if it has a message, and from the request of well-formed messages the
-- model, the messages and the tools are read back as they were, in order.
pub record IsReadBack (model : Text) (ms : List Message) (tools : List Tool) : Type 0 where
  pub empty_refused : ms ≡ [] → request_params model ms tools ≡ none
  pub made : ms ≢ [] → (p : Params) × (request_params model ms tools ≡ some p)
  pub reads_back :
      (p : Params)
      → request_params model ms tools ≡ some p
      → (p.model ≡ model) × ((map param_message p.messages ≡ ms) × (map param_tool p.tools ≡ tools))

-- For well-formed messages, the request is made exactly if there is one at least, and the service reads the
-- model, the messages and the tools out of it as they were, in order.
pub request_params-IsReadBack :
    (model : Text) (ms : List Message) (tools : List Tool)
    → All IsWellFormed ms
    → IsReadBack model ms tools
unfolding request_params
request_params-IsReadBack model [] tools h = record {
  empty_refused = λ e. refl;
  made = λ n. absurd (n refl);
  reads_back = λ p e. absurd cc;
}
request_params-IsReadBack model (m ∷ ms) tools h = record {
  empty_refused = λ e. absurd cc;
  made = λ n. (_, refl);
  reads_back = λ p e.
      subst
        (λ q.
          (q.model ≡ model)
          × ((map param_message q.messages ≡ m ∷ ms) × (map param_tool q.tools ≡ tools)))
        (some-injective _ _ e) (refl, (all_read_back (m ∷ ms) h, tools_read_back tools));
}
