-- ===== src/Session/Core/Machine.antt =====
-- `handleEvent` and `supervisorLoop` of session.go: events are handled one at a time, in order, until the
-- session is closed.
pub mod Invariant
pub mod Diagram
pub mod Stale
use xiaozhi_esp32_golang_ser.Prelude.{
  ℕ, Bool, true, false, Option, none, some, List, [], ◌∷◌, if◌then◌else◌,
}
use xiaozhi_esp32_golang_ser.Audio.Decoder.{new_decoder}
use xiaozhi_esp32_golang_ser.Session.Writer.{Writer}
use xiaozhi_esp32_golang_ser.Session.Message.{auto}
use xiaozhi_esp32_golang_ser.Session.History.{or_default}
use xiaozhi_esp32_golang_ser.Session.Core.{
  State, connected, closed, Session, World, Config, Frame, Event, client_hello, client_text,
  client_audio, asr_final, tts_started, turn_finished, aborts, timeout, error, close_request,
  normal_closure, session_finished,
}
use xiaozhi_esp32_golang_ser.Session.Core.Effects.{is_closed, start_hello_timer}
use xiaozhi_esp32_golang_ser.Session.Core.Close.{close_with_reason}
use xiaozhi_esp32_golang_ser.Session.Core.Turns.{
  handle_asr_final, handle_tts_started, handle_turn_finished, handle_abort,
}
use xiaozhi_esp32_golang_ser.Session.Core.Handlers.{
  handle_hello, handle_client_text, handle_client_audio, handle_timeout, handle_error, handle_close,
}

-- `NewSessionWithWriter`. `opus_made` is what `opus.NewDecoder` returned.
unfoldable pub new_session :
    Config → Bool → Bool → Option (Unit {0}) → Option (Writer Frame) → Session
new_session config has_asr_client has_conn opus_made writer = record {
  config = config;
  has_asr_client = has_asr_client;
  has_conn = has_conn;
  decoder = new_decoder opus_made (or_default config.max_opus_packet_bytes 1024);
  writer = writer;
  ctx_done = false;
  close_once = false;
  state = connected;
  mode = auto;
  generation = 0;
  session_id = [];
  manual_stop_received = false;
  history = [];
  turn_ctx = none;
  turn_cancel = none;
  hello_timer = none;
  listening_timer = none;
  asr_result_timer = none;
  asr_stream = none;
  asr_queue = none;
  tts_stream = none;
  pacer = none;
  pending_mcp = [];
  effects = [];
}

-- The `switch` on the kind of the event.
unfoldable pub dispatch : World → Event → Session → Session
dispatch w (client_hello raw) s = handle_hello w raw s
dispatch w (client_text msg) s = handle_client_text w msg s
dispatch w (client_audio packet) s = handle_client_audio w packet s
dispatch w (asr_final gen text) s = handle_asr_final gen text s
dispatch w (tts_started gen) s = handle_tts_started gen s
dispatch w (turn_finished gen user_text assistant_text) s =
    handle_turn_finished w gen user_text assistant_text s
dispatch w (aborts reason) s = handle_abort s
dispatch w (timeout gen reason) s = handle_timeout w gen reason s
dispatch w (error gen text fatal code) s = handle_error w gen text fatal code s
dispatch w (close_request code reason) s = handle_close w code reason s

unfoldable pub handle_event : World → Event → Session → Session
unfolding is_closed
handle_event w ev s = if is_closed s.state then s else dispatch w ev s

-- The loop over the events that arrive, each with what the outside answers while it is handled. After
-- the session is closed the rest is not read.
unfoldable pub supervisor_loop : Session → List (World × Event) → Session
unfolding is_closed
supervisor_loop s [] = s
supervisor_loop s ((w, ev) ∷ evs) =
    let next = handle_event w ev s in
    let rest = supervisor_loop next evs in if is_closed next.state then next else rest

-- `Run`: however the loop ends, by a close or by the end of the session's context, the session is closed.
unfoldable pub run_session : World → Session → List (World × Event) → Session
run_session w s evs =
    close_with_reason w normal_closure session_finished (supervisor_loop (start_hello_timer s) evs)
