-- ===== src/Session/Core/Background.antt =====
-- What other goroutines do to a session between two events: the orchestration installs the turn's TTS
-- stream and pacer (internal/session/orchestration.go), the pacer moves the session to speaking
-- (session.go), a request waits for its MCP answer, and the worker of the ASR queue, the write loop and the
-- timers run. Each takes the session's mutex or its channel once, so each is one step. `Close` is called
-- by the registry; it takes the mutex several times, and so does a handler: here one runs after the other,
-- though in the program a `Close` may also cut into a handler.
use xiaozhi_esp32_golang_ser.Prelude.{ℕ, Bool, true, Option, none, some, List, [], ◌∷◌, ◌==◌}
use xiaozhi_esp32_golang_ser.Audio.AsrQueue.{AsrAudioQueue, StreamResult, worker_step}
use xiaozhi_esp32_golang_ser.Session.Writer.{Writer, WriteError, write_step}
use xiaozhi_esp32_golang_ser.Session.Core.{
  State, processing, speaking, Session, World, Event, Frame, normal_closure, session_closed,
}
use xiaozhi_esp32_golang_ser.Session.Core.Close.{close_with_reason}
use xiaozhi_esp32_golang_ser.Session.Core.Machine.{handle_event}

speaking_if : Bool → State → State
speaking_if true processing = speaking
speaking_if _ st = st

unfoldable pub transition_to_speaking : ℕ → Session → Session
unfolding speaking_if
transition_to_speaking gen s = record s { state = speaking_if (s.generation == gen) s.state }

unfoldable pub install_tts_stream : ℕ → Session → Session
install_tts_stream stream s = record s { tts_stream = some stream }

unfoldable pub install_pacer : ℕ → Session → Session
install_pacer pacer s = record s { pacer = some pacer }

worked : Bool → StreamResult → Option AsrAudioQueue → Option AsrAudioQueue
worked sees_cancel result none = none
worked sees_cancel result (some q) = some (worker_step q sees_cancel result)

wrote : Bool → Option WriteError → Option (Writer Frame) → Option (Writer Frame)
wrote sees_cancel result none = none
wrote sees_cancel result (some w) = some (write_step w sees_cancel result)

-- `Close` of session.go, which the registry calls from other goroutines, as one step.
unfoldable pub close : World → Session → Session
close w s = close_with_reason w normal_closure session_closed s

-- One step of a run: an event handled, or a step of another goroutine.
pub data Action : Type 0 where
  handles : World → Event → Action
  speaks installs_tts installs_pacer awaits_mcp : ℕ → Action
  works : Bool → StreamResult → Action
  writes : Bool → Option WriteError → Action
  closes : World → Action

unfoldable pub act : Action → Session → Session
unfolding worked wrote
act (handles w ev) s = handle_event w ev s
act (speaks gen) s = transition_to_speaking gen s
act (installs_tts stream) s = install_tts_stream stream s
act (installs_pacer pacer) s = install_pacer pacer s
act (awaits_mcp id) s = record s { pending_mcp = id ∷ s.pending_mcp }
act (works sees_cancel result) s = record s { asr_queue = worked sees_cancel result s.asr_queue }
act (closes w) s = close w s
act (writes sees_cancel result) s = record s { writer = wrote sees_cancel result s.writer }

unfoldable pub run : Session → List Action → Session
run s [] = s
run s (a ∷ rest) = run (act a s) rest
