-- ===== src/Ai/LlmStream.antt =====
-- `bailianLLMStream` of internal/ai/bailian/llm.go, from its chunks on: `Recv`, `ToolCalls` and `Close`.
-- The event stream that gives the chunks is its input, with the error at its end. An index of a tool call,
-- an int64, is not negative. The timer's stopping is left out, but for the flag that keeps it quiet.
pub mod Grouping
pub mod Laws
mod Tests
use xiaozhi_esp32_golang_ser.Prelude.{
  ℕ, Bool, true, false, ◌||◌, not, Option, none, some, List, [], ◌∷◌, ◌++◌, ◌==◌, if◌then◌else◌,
}
use xiaozhi_esp32_golang_ser.Session.Message.{Text}
use xiaozhi_esp32_golang_ser.Session.Orchestration.{ToolCall}

-- A piece of a tool call; an empty text says nothing.
pub record Fragment : Type 0 where
  pub index : ℕ
  pub id : Text
  pub name : Text
  pub arguments : Text

-- A chunk has no choice, or the delta of the first.
pub data Chunk : Type 0 where
  no_choice : Chunk
  delta : List Fragment → Text → Chunk

pub data LlmError : Type 0 where
  first_token_timeout overall_timeout parent_canceled read_failed : LlmError

-- How the stream ends, and what is true of the timers and contexts then.
pub record StreamEnd : Type 0 where
  pub has_error : Bool
  pub first_token_timed_out : Bool
  pub overall_deadline : Bool
  pub parent_done : Bool

pub data Recv : Type 0 where
  text : Text → Recv
  eof : Recv
  error : LlmError → Recv

-- The map from an index to its call, and the indices in the order of their coming.
pub record Calls : Type 0 where
  pub by_index : List (ℕ × ToolCall)
  pub indices : List ℕ

pub record LlmStream : Type 0 where
  pub chunks : List Chunk
  pub ending : StreamEnd
  pub calls : Calls
  pub first_token_received : Bool
  pub closed : Bool

abbrev pub empty_call : ToolCall
empty_call = record { id = []; name = []; arguments = [] }

unfoldable pub lookup : ℕ → List (ℕ × ToolCall) → Option ToolCall
lookup i [] = none
lookup i ((j, call) ∷ table) = if j == i then some call else lookup i table

unfoldable pub replace : ℕ → ToolCall → List (ℕ × ToolCall) → List (ℕ × ToolCall)
replace i call [] = []
replace i call ((j, old) ∷ table) =
    if j == i then (j, call) ∷ table else (j, old) ∷ replace i call table

unfoldable pub or_old : Text → Text → Text
or_old [] old = old
or_old (c ∷ id) old = c ∷ id

unfoldable pub merge : Fragment → ToolCall → ToolCall
unfolding or_old
merge f call = record {
  id = or_old f.id call.id;
  name = call.name ++ f.name;
  arguments = call.arguments ++ f.arguments;
}

unfoldable pub add_fragment : Fragment → Calls → Calls
unfolding merge lookup replace
add_fragment f c = elim (lookup f.index c.by_index) [
  | some call ↦ record c { by_index = replace f.index (merge f call) c.by_index }
  | none ↦ record {
    by_index = (f.index, merge f empty_call) ∷ c.by_index;
    indices = c.indices ++ f.index ∷ [];
  }
]

unfoldable pub add_fragments : List Fragment → Calls → Calls
unfolding add_fragment
add_fragments [] c = c
add_fragments (f ∷ fs) c = add_fragments fs (add_fragment f c)

unfoldable pub end_of : StreamEnd → Recv
end_of e =
    if not e.has_error
    then eof
    else if e.first_token_timed_out
    then error first_token_timeout
    else if e.overall_deadline
    then error overall_timeout
    else if e.parent_done
    then error parent_canceled
    else error read_failed

abbrev pub is_some : List Fragment → Bool
is_some [] = false
is_some (f ∷ fs) = true

-- The loop over the chunks, up to the next text.
unfoldable pub recv_from : List Chunk → LlmStream → LlmStream × Recv
unfolding add_fragments end_of
recv_from [] s = (record s { chunks = [] }, end_of s.ending)
recv_from (no_choice ∷ rest) s = recv_from rest s
recv_from (delta fragments [] ∷ rest) s = recv_from rest (record s {
  calls = add_fragments fragments s.calls;
  first_token_received = s.first_token_received || is_some fragments;
})
recv_from (delta fragments (c ∷ content) ∷ rest) s = (
  record s { chunks = rest; calls = add_fragments fragments s.calls; first_token_received = true },
  text (c ∷ content),
)

unfoldable pub recv : LlmStream → LlmStream × Recv
unfolding recv_from
recv s = if s.closed then (s, eof) else recv_from s.chunks s

unfoldable pub calls_at : List ℕ → List (ℕ × ToolCall) → List ToolCall
calls_at [] table = []
calls_at (i ∷ is) table = elim (lookup i table) [
  | some call ↦ call ∷ calls_at is table
  | none ↦ calls_at is table
]

unfoldable pub tool_calls : LlmStream → List ToolCall
unfolding calls_at
tool_calls s = calls_at s.calls.indices s.calls.by_index

unfoldable pub close : LlmStream → LlmStream
close s = record s { closed = true }

unfoldable pub new_llm_stream : List Chunk → StreamEnd → LlmStream
new_llm_stream chunks ending = record {
  chunks = chunks;
  ending = ending;
  calls = record { by_index = []; indices = [] };
  first_token_received = false;
  closed = false;
}
