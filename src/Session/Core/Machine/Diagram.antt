-- ===== src/Session/Core/Machine/Diagram.antt =====
-- The state diagram of the session, and the generation counter.
use xiaozhi_esp32_golang_ser.Prelude.{
  ℕ, ◌+◌, ◌≡◌, ◌⊎◌, Bool, true, false, Option, none, some, List, arith,
}
use xiaozhi_esp32_golang_ser.Session.Message
use xiaozhi_esp32_golang_ser.Session.Message.{Text, ClientMessage, MessageKind}
use xiaozhi_esp32_golang_ser.Session.Core.{
  State, connected, ready, listening, processing, speaking, closed, u64, Session, World, Event,
  TimeoutReason, CloseCode, client_hello, client_text, client_audio, asr_final, tts_started,
  turn_finished, aborts, timeout, error, close_request,
}
use xiaozhi_esp32_golang_ser.Session.Core.Close.{close_with_reason}
use xiaozhi_esp32_golang_ser.Session.Core.Turns.{
  listen_start, listen_stop, handle_asr_final, handle_tts_started, handle_turn_finished,
  handle_abort,
}
use xiaozhi_esp32_golang_ser.Session.Core.Handlers.{
  handle_hello, handle_client_text, handle_client_audio, handle_timeout, handle_error, handle_close,
  client_text_of, handle_incoming_mcp,
}
use xiaozhi_esp32_golang_ser.Session.Core.Machine.{dispatch, handle_event}

-- The edges: the handshake, a turn's way through its states, and closing from anywhere.
pub data Move : State → State → Type 0 where
  stay : {a : State} → Move a a
  greet : Move connected ready
  listen : Move ready listening
  hear : Move listening processing
  speak : Move processing speaking
  drop_listening : Move listening ready
  drop_processing : Move processing ready
  finish : Move speaking ready
  close : {a : State} → Move a closed

-- The diagram as a test.
allowed : State → State → Bool
allowed connected connected = true
allowed connected ready = true
allowed ready ready = true
allowed ready listening = true
allowed listening listening = true
allowed listening processing = true
allowed listening ready = true
allowed processing processing = true
allowed processing speaking = true
allowed processing ready = true
allowed speaking speaking = true
allowed speaking ready = true
allowed _ closed = true
allowed _ _ = false

allowed-Move : (a b : State) → allowed a b ≡ true → Move a b
unfolding allowed
allowed-Move connected connected h = stay
allowed-Move connected ready h = greet
allowed-Move ready ready h = stay
allowed-Move ready listening h = listen
allowed-Move listening listening h = stay
allowed-Move listening processing h = hear
allowed-Move listening ready h = drop_listening
allowed-Move processing processing h = stay
allowed-Move processing speaking h = speak
allowed-Move processing ready h = drop_processing
allowed-Move speaking speaking h = stay
allowed-Move speaking ready h = finish
allowed-Move _ closed h = close
allowed-Move _ _ h = cc

-- What a handler does to the state and the generation.
record IsMove (s t : Session) : Type 0 where
  edge : allowed s.state t.state ≡ true
  steady : (t.generation ≡ s.generation) ⊎ (t.generation ≡ u64 (s.generation + 1))

hello-IsMove : (w : World) (raw : Option (List ℕ)) (s : Session) → IsMove s (handle_hello w raw s)
unfolding handle_hello close_with_reason allowed
hello-IsMove w raw s = ground arith

audio-IsMove :
    (w : World) (packet : List ℕ) (s : Session) → IsMove s (handle_client_audio w packet s)
unfolding handle_client_audio close_with_reason allowed
audio-IsMove w packet s = ground arith

text-IsMove :
    (w : World) (kind : MessageKind) (msg : ClientMessage) (s : Session)
    → IsMove s (client_text_of w kind msg s)
unfolding client_text_of close_with_reason listen_start listen_stop handle_abort handle_incoming_mcp
    allowed
text-IsMove w Message.MessageKind.hello msg s = ground arith
text-IsMove w _ msg s = ground arith

finished-IsMove :
    (w : World) (gen : ℕ) (user_text assistant_text : Text) (s : Session)
    → IsMove s (handle_turn_finished w gen user_text assistant_text s)
unfolding handle_turn_finished close_with_reason allowed
finished-IsMove w gen user_text assistant_text s = ground arith

error-IsMove :
    (w : World) (gen : ℕ) (text : Option Text) (fatal : Bool) (code : Option CloseCode)
    (s : Session)
    → IsMove s (handle_error w gen text fatal code s)
unfolding handle_error close_with_reason allowed
error-IsMove w gen text fatal code s = ground arith

timeout-IsMove :
    (w : World) (gen : ℕ) (reason : TimeoutReason) (s : Session)
    → IsMove s (handle_timeout w gen reason s)
unfolding handle_timeout close_with_reason allowed
timeout-IsMove w gen reason s = ground arith

dispatch-IsMove : (w : World) (ev : Event) (s : Session) → IsMove s (dispatch w ev s)
unfolding dispatch
dispatch-IsMove w (client_hello raw) s = hello-IsMove w raw s
dispatch-IsMove w (client_text none) s = unfold handle_client_text allowed in ground arith
dispatch-IsMove w (client_text (some msg)) s =
    unfold handle_client_text in text-IsMove w msg.kind msg s
dispatch-IsMove w (client_audio packet) s = audio-IsMove w packet s
dispatch-IsMove w (asr_final gen text) s = unfold handle_asr_final allowed in ground arith
dispatch-IsMove w (tts_started gen) s = unfold handle_tts_started allowed in ground arith
dispatch-IsMove w (turn_finished gen user_text assistant_text) s =
    finished-IsMove w gen user_text assistant_text s
dispatch-IsMove w (aborts reason) s = unfold handle_abort allowed in ground arith
dispatch-IsMove w (timeout gen reason) s = timeout-IsMove w gen reason s
dispatch-IsMove w (error gen text fatal code) s = error-IsMove w gen text fatal code s
dispatch-IsMove w (close_request code reason) s =
    unfold handle_close close_with_reason allowed in ground arith

handle_event-IsMove : (w : World) (ev : Event) (s : Session) → IsMove s (handle_event w ev s)
unfolding handle_event allowed
handle_event-IsMove w ev s = ground (arith, dispatch-IsMove w ev s)

-- Every event, whatever the outside answers, leaves the session in its state or takes it along one edge
-- of the diagram, and leaves the generation or counts it up by one.
pub handle_event-Move :
    (w : World) (ev : Event) (s : Session)
    → Move s.state (handle_event w ev s).state
      × (((handle_event w ev s).generation ≡ s.generation)
          ⊎ ((handle_event w ev s).generation ≡ u64 (s.generation + 1)))
handle_event-Move w ev s = let m = handle_event-IsMove w ev s in (allowed-Move _ _ m.edge, m.steady)
