-- ===== src/Session/Core.antt =====
-- The state of one WebSocket session, the events of its supervisor loop and what its handlers do outside
-- it: internal/session/state.go and session.go. Pointers to a client, a stream or a goroutine that only
-- matter by being there are Booleans or handles (numbers). The log is left out.
pub mod Effects
pub mod Close
pub mod Turns
pub mod Handlers
pub mod Machine
pub mod Background
pub mod Closing
pub mod Memory
pub mod Runs
mod Tests
use xiaozhi_esp32_golang_ser.Prelude.{
  ℕ, zero, suc, ◌+◌, ◌%◌, ◌^◌, Bool, true, false, Option, none, some, List, [], ◌∷◌, ◌++◌,
}
use xiaozhi_esp32_golang_ser.Audio.AsrQueue.{AsrAudioQueue}
use xiaozhi_esp32_golang_ser.Audio.Decoder.{Decoder}
use xiaozhi_esp32_golang_ser.Session.Writer.{Writer, WriteError}
use xiaozhi_esp32_golang_ser.Session.Message.{Text, ListenMode, ClientMessage, ServerMessage}
use xiaozhi_esp32_golang_ser.Session.Message.Hello.{ClientHelloMessage, HelloError}
use xiaozhi_esp32_golang_ser.Session.History.{ChatMessage}

pub data State : Type 0 where
  connected ready listening processing speaking closed : State

-- `uint64` arithmetic wraps.
abbrev pub u64 : ℕ → ℕ
u64 n = n % 2 ^ 64

-- The texts that a timeout may carry: the three that `handleTimeoutEvent` compares with, or any other.
pub data TimeoutReason : Type 0 where
  hello_handshake max_listening asr_recognition : TimeoutReason
  other_timeout : Text → TimeoutReason

pub data CloseCode : Type 0 where
  normal_closure unsupported_data policy_violation internal_error : CloseCode
  other_code : ℕ → CloseCode

-- The reason that goes into the close frame.
pub data CloseReason : Type 0 where
  duplicate_hello first_not_text invalid_hello_json internal_server_error : CloseReason
  hello_write_failed binary_before_hello invalid_packet_size no_decoder decode_error : CloseReason
  asr_queue_unavailable default_error session_finished session_closed : CloseReason
  invalid_hello : HelloError → CloseReason
  stop_write_failed : WriteError → CloseReason
  timed_out : TimeoutReason → CloseReason
  given : Text → CloseReason

-- An event posted to the supervisor. `client_hello` holds the raw text, or `none` for a binary message.
-- An error holds its text.
pub data Event : Type 0 where
  client_hello : Option Text → Event
  client_text : Option ClientMessage → Event
  client_audio : List ℕ → Event
  asr_final : ℕ → Text → Event
  tts_started : ℕ → Event
  turn_finished : ℕ → Text → Text → Event
  aborts : Text → Event
  timeout : ℕ → TimeoutReason → Event
  error : ℕ → Option Text → Bool → Option CloseCode → Event
  close_request : Option CloseCode → Text → Event

-- A message on the wire: a text, or an Opus packet.
pub data Frame : Type 0 where
  text_frame : ServerMessage → Frame
  binary_frame : List ℕ → Frame

-- Goroutines that a handler starts, with the turn's context and generation.
pub data Task : Type 0 where
  discover_mcp_tools : Task
  read_asr_result_auto read_asr_result_manual : ℕ → ℕ → Task
  orchestrate : Option ℕ → ℕ → Text → Task

pub data Effect : Type 0 where
  cancels_turn closes_asr_stream finishes_asr_stream closes_tts_stream stops_pacer : ℕ → Effect
  spawns : Task → Effect
  posts : Event → Effect
  closes_conn : CloseCode → CloseReason → Effect
  answers_mcp : ℕ → Text → Effect

-- The settings that the handlers read; one that is not positive is 0, and replaced by its default.
pub record Config : Type 0 where
  pub max_history_turns : ℕ
  pub max_opus_packet_bytes : ℕ
  pub asr_pcm_queue_capacity : ℕ

-- `turn_ctx` is the number of the current turn's context, `turn_cancel` that of the context that the
-- session can still cancel. A timer holds the generation that it will report. `asr_stream`, `tts_stream`
-- and `pacer` are handles. `close_once` says that the `Once` of `closeWithReason` has fired. `effects`
-- lists what the handlers have done outside the state, in order. libopus keeps no state here.
pub record Session : Type 0 where
  pub config : Config
  pub has_asr_client : Bool
  pub has_conn : Bool
  pub decoder : Option (Decoder (Unit {0}))
  pub writer : Option (Writer Frame)
  pub ctx_done : Bool
  pub close_once : Bool
  pub state : State
  pub mode : ListenMode
  pub generation : ℕ
  pub session_id : Text
  pub manual_stop_received : Bool
  pub history : List ChatMessage
  pub turn_ctx : Option ℕ
  pub turn_cancel : Option ℕ
  pub hello_timer : Option ℕ
  pub listening_timer : Option ℕ
  pub asr_result_timer : Option ℕ
  pub asr_stream : Option ℕ
  pub asr_queue : Option AsrAudioQueue
  pub tts_stream : Option ℕ
  pub pacer : Option ℕ
  pub pending_mcp : List ℕ
  pub effects : List Effect

-- What the outside answers during one event: the decoded hello, the random session id, the ASR client's
-- stream or its error, libopus's samples, how many messages the connection takes while it closes, and
-- the id of a decoded MCP answer, 0 if it has none.
pub record World : Type 0 where
  pub unmarshal_hello : Text → Option ClientHelloMessage
  pub new_session_id : Option Text
  pub asr_created : Option ℕ
  pub asr_error : Text
  pub opus_samples : Option (List ℕ)
  pub flushed : ℕ
  pub unmarshal_mcp : Text → Option ℕ
