-- ===== src/Session/Core/Close.antt =====
-- `closeWithReason` of session.go.
use xiaozhi_esp32_golang_ser.Prelude.{true, Option, none, some, [], ◌∷◌, ◌++◌, if◌then◌else◌}
use xiaozhi_esp32_golang_ser.Session.Writer
use xiaozhi_esp32_golang_ser.Session.Writer.{Writer}
use xiaozhi_esp32_golang_ser.Session.Core.{
  closed, Session, World, CloseCode, CloseReason, closes_conn, Frame,
}
use xiaozhi_esp32_golang_ser.Session.Core.Effects.{stop_asr, stop_tts, stop_pacer, cancel_turn}

-- The state is closed, the history forgotten and every timer stopped, under the mutex.
unfoldable pub forget : Session → Session
forget s = record s {
  state = closed;
  history = [];
  hello_timer = none;
  listening_timer = none;
  asr_result_timer = none;
}

closed_writer : World → Option (Writer Frame) → Option (Writer Frame)
closed_writer w none = none
closed_writer w (some wr) = some (Writer.close_and_wait w.flushed wr)

-- The writer is closed and waited for, then the connection, then the session's context, which is that of
-- every turn, is cancelled.
unfoldable pub shut_down : World → CloseCode → CloseReason → Session → Session
unfolding closed_writer
shut_down w code reason s = record s {
  writer = closed_writer w s.writer;
  effects = s.effects ++ (if s.has_conn then closes_conn code reason ∷ [] else []);
  ctx_done = true;
  pending_mcp = [];
}

unfoldable pub close_with_reason : World → CloseCode → CloseReason → Session → Session
unfolding stop_asr stop_tts stop_pacer cancel_turn forget shut_down
close_with_reason w code reason s =
    if s.close_once
    then s
    else shut_down w code reason
        (cancel_turn (forget (stop_pacer (stop_tts (stop_asr (record s { close_once = true }))))))
