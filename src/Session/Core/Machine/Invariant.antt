-- ===== src/Session/Core/Machine/Invariant.antt =====
-- What holds of a session between two events.
use xiaozhi_esp32_golang_ser.Prelude.{
  ℕ, ◌^◌, ◌<◌, ◌≡◌, ◌≢◌, Bool, true, false, Option, none, some, List, [], arith,
}
use xiaozhi_esp32_golang_ser.Session.Message
use xiaozhi_esp32_golang_ser.Session.Message.{Text, ClientMessage, MessageKind}
use xiaozhi_esp32_golang_ser.Session.Core.{
  State, connected, listening, processing, speaking, closed, Session, World, CloseCode, Event,
  TimeoutReason, client_hello, client_text, client_audio, asr_final, tts_started, turn_finished,
  aborts, timeout, error, close_request,
}
use xiaozhi_esp32_golang_ser.Session.Core.Close.{close_with_reason}
use xiaozhi_esp32_golang_ser.Session.Core.Turns.{
  handle_asr_final, handle_tts_started, handle_turn_finished, handle_abort, listen_start,
  listen_stop,
}
use xiaozhi_esp32_golang_ser.Session.Core.Handlers.{
  handle_hello, handle_client_text, client_text_of, handle_incoming_mcp, handle_client_audio,
  handle_timeout, handle_error, handle_close,
}
use xiaozhi_esp32_golang_ser.Session.Core.Machine.{dispatch, handle_event}

abbrev pub in_turn : State → Bool
in_turn listening = true
in_turn processing = true
in_turn speaking = true
in_turn _ = false

pub record IsConsistent (s : Session) : Type 0 where
  pub once : s.close_once ≡ true → s.state ≡ closed
  pub shut : s.state ≡ closed → (s.close_once ≡ true) × (s.ctx_done ≡ true) × (s.history ≡ [])
  pub turn_open : in_turn s.state ≡ true → s.turn_cancel ≡ some s.generation
  pub turn_over : in_turn s.state ≡ false → s.turn_cancel ≡ none
  pub quiet :
      s.state ≢ listening
      → (s.asr_stream ≡ none)
        × (s.asr_queue ≡ none)
        × (s.listening_timer ≡ none)
        × (s.asr_result_timer ≡ none)
  pub greeted : s.state ≢ connected → s.hello_timer ≡ none
  pub fits : s.generation < 2 ^ 64

hello-IsConsistent :
    (w : World) (raw : Option Text) (s : Session)
    → IsConsistent s
    → IsConsistent (handle_hello w raw s)
unfolding handle_hello close_with_reason
hello-IsConsistent w raw s v = ground arith

text-IsConsistent :
    (w : World) (kind : MessageKind) (msg : ClientMessage) (s : Session)
    → IsConsistent s
    → IsConsistent (client_text_of w kind msg s)
unfolding client_text_of close_with_reason listen_start listen_stop handle_abort handle_incoming_mcp
text-IsConsistent w Message.MessageKind.hello msg s v = ground arith
text-IsConsistent w Message.MessageKind.mcp msg s v = ground arith
text-IsConsistent w _ msg s v = ground arith

audio-IsConsistent :
    (w : World) (packet : List ℕ) (s : Session)
    → IsConsistent s
    → IsConsistent (handle_client_audio w packet s)
unfolding handle_client_audio close_with_reason
audio-IsConsistent w packet s v = ground arith

asr-IsConsistent :
    (gen : ℕ) (text : Text) (s : Session)
    → IsConsistent s
    → IsConsistent (handle_asr_final gen text s)
unfolding handle_asr_final
asr-IsConsistent gen text s v = ground arith

finished-IsConsistent :
    (w : World) (gen : ℕ) (user_text assistant_text : Text) (s : Session)
    → IsConsistent s
    → IsConsistent (handle_turn_finished w gen user_text assistant_text s)
unfolding handle_turn_finished close_with_reason
finished-IsConsistent w gen user_text assistant_text s v = ground arith

timeout-IsConsistent :
    (w : World) (gen : ℕ) (reason : TimeoutReason) (s : Session)
    → IsConsistent s
    → IsConsistent (handle_timeout w gen reason s)
unfolding handle_timeout close_with_reason
timeout-IsConsistent w gen reason s v = ground arith

error-IsConsistent :
    (w : World) (gen : ℕ) (text : Option Text) (fatal : Bool) (code : Option CloseCode)
    (s : Session)
    → IsConsistent s
    → IsConsistent (handle_error w gen text fatal code s)
unfolding handle_error close_with_reason
error-IsConsistent w gen text fatal code s v = ground arith

dispatch-IsConsistent :
    (w : World) (ev : Event) (s : Session) → IsConsistent s → IsConsistent (dispatch w ev s)
unfolding dispatch
dispatch-IsConsistent w (client_hello raw) s v = hello-IsConsistent w raw s v
dispatch-IsConsistent w (client_text none) s v = unfold handle_client_text in v
dispatch-IsConsistent w (client_text (some msg)) s v =
    unfold handle_client_text in text-IsConsistent w msg.kind msg s v
dispatch-IsConsistent w (client_audio packet) s v = audio-IsConsistent w packet s v
dispatch-IsConsistent w (asr_final gen text) s v = asr-IsConsistent gen text s v
dispatch-IsConsistent w (tts_started gen) s v = unfold handle_tts_started in ground arith
dispatch-IsConsistent w (turn_finished gen user_text assistant_text) s v =
    finished-IsConsistent w gen user_text assistant_text s v
dispatch-IsConsistent w (aborts reason) s v = unfold handle_abort in ground arith
dispatch-IsConsistent w (timeout gen reason) s v = timeout-IsConsistent w gen reason s v
dispatch-IsConsistent w (error gen text fatal code) s v =
    error-IsConsistent w gen text fatal code s v
dispatch-IsConsistent w (close_request code reason) s v =
    unfold handle_close close_with_reason in ground arith

-- Every event keeps a session consistent. Once closed it is closed for good, with its context done and no
-- history; a turn is open exactly while the session listens, processes or speaks, and then what can be
-- cancelled is the context of the current generation; the ASR stream, its queue and both timers of a turn
-- exist only while it listens, and the hello timer only before the handshake; the generation fits 64 bits.
pub handle_event-IsConsistent :
    (w : World) (ev : Event) (s : Session) → IsConsistent s → IsConsistent (handle_event w ev s)
unfolding handle_event
handle_event-IsConsistent w ev s v = ground (arith, dispatch-IsConsistent w ev s)
