-- ===== src/Session/Core/Effects.antt =====
-- Timers, streams and the write queue: the small operations of session.go that the handlers share.
use xiaozhi_esp32_golang_ser.Prelude.{
  ℕ, Bool, true, false, Option, none, some, List, [], ◌∷◌, ◌++◌, if◌then◌else◌,
}
use xiaozhi_esp32_golang_ser.Audio.AsrQueue
use xiaozhi_esp32_golang_ser.Audio.AsrQueue.{AsrAudioQueue}
use xiaozhi_esp32_golang_ser.Session.Writer
use xiaozhi_esp32_golang_ser.Session.Writer.{Writer, WriteError}
use xiaozhi_esp32_golang_ser.Session.Message.{ServerMessage}
use xiaozhi_esp32_golang_ser.Session.Core.{
  State, closed, Session, Effect, Frame, text_frame, cancels_turn, closes_asr_stream,
  finishes_asr_stream, closes_tts_stream, stops_pacer,
}

unfoldable pub emit : Effect → Session → Session
emit e s = record s { effects = s.effects ++ e ∷ [] }

-- An effect on a handle, if there is one.
abbrev pub on : (ℕ → Effect) → Option ℕ → List Effect
on f none = []
on f (some h) = f h ∷ []

unfoldable pub emit_on : (ℕ → Effect) → Option ℕ → Session → Session
emit_on f h s = record s { effects = s.effects ++ on f h }

unfoldable pub is_closed : State → Bool
is_closed closed = true
is_closed _ = false

unfoldable pub start_hello_timer : Session → Session
unfolding is_closed
start_hello_timer s = if is_closed s.state then s else record s { hello_timer = some 0 }

unfoldable pub stop_hello_timer : Session → Session
stop_hello_timer s = record s { hello_timer = none }

unfoldable pub start_listening_timer : ℕ → Session → Session
unfolding is_closed
start_listening_timer gen s =
    if is_closed s.state then s else record s { listening_timer = some gen }

unfoldable pub stop_listening_timer : Session → Session
stop_listening_timer s = record s { listening_timer = none }

unfoldable pub start_asr_result_timer : ℕ → Session → Session
unfolding is_closed
start_asr_result_timer gen s =
    if is_closed s.state then s else record s { asr_result_timer = some gen }

unfoldable pub stop_asr_result_timer : Session → Session
stop_asr_result_timer s = record s { asr_result_timer = none }

-- The queue is closed with its worker, and is then out of the session's reach; so is the stream.
unfoldable pub stop_asr : Session → Session
unfolding emit_on
stop_asr s =
    emit_on closes_asr_stream s.asr_stream (record s { asr_queue = none; asr_stream = none })

unfoldable pub stop_tts : Session → Session
unfolding emit_on
stop_tts s = emit_on closes_tts_stream s.tts_stream (record s { tts_stream = none })

unfoldable pub stop_pacer : Session → Session
unfolding emit_on
stop_pacer s = emit_on stops_pacer s.pacer (record s { pacer = none })

unfoldable pub cancel_turn : Session → Session
unfolding emit_on
cancel_turn s = emit_on cancels_turn s.turn_cancel (record s { turn_cancel = none })

finished_queue : Option AsrAudioQueue → Option AsrAudioQueue
finished_queue none = none
finished_queue (some q) = some (AsrQueue.finish q)

-- The stream is told itself only where there is no queue.
lone_stream : Option AsrAudioQueue → Option ℕ → Option ℕ
lone_stream none stream = stream
lone_stream (some q) stream = none

unfoldable pub finish_asr : Session → Session
unfolding finished_queue lone_stream emit_on
finish_asr s =
    emit_on finishes_asr_stream (lone_stream s.asr_queue s.asr_stream)
      (record s { asr_queue = finished_queue s.asr_queue })

sent_writer : ServerMessage → Bool → Option (Writer Frame) → Option (Writer Frame)
sent_writer m ctx_done none = none
sent_writer m ctx_done (some w) = some (Writer.enqueue w ctx_done (text_frame m)).0

send_error : ServerMessage → Bool → Option (Writer Frame) → Option WriteError
send_error m ctx_done none = none
send_error m ctx_done (some w) = (Writer.enqueue w ctx_done (text_frame m)).1

-- The message goes into the write queue, or is refused; without a writer it is dropped silently.
unfoldable pub send_text_message : ServerMessage → Session → Session × Option WriteError
unfolding sent_writer send_error
send_text_message m s =
    (record s { writer = sent_writer m s.ctx_done s.writer }, send_error m s.ctx_done s.writer)

tried_writer : Option ServerMessage → Bool → Option (Writer Frame) → Option (Writer Frame)
unfolding sent_writer
tried_writer none ctx_done w = w
tried_writer (some m) ctx_done w = sent_writer m ctx_done w

-- A message that may not have been encoded, with the refusal ignored.
unfoldable pub try_send : Option ServerMessage → Session → Session
unfolding tried_writer
try_send m s = record s { writer = tried_writer m s.ctx_done s.writer }

drained_writer : Option (Writer Frame) → Option (Writer Frame)
drained_writer none = none
drained_writer (some w) = some (Writer.drain_pending w)

unfoldable pub drain_writer : Session → Session
unfolding drained_writer
drain_writer s = record s { writer = drained_writer s.writer }
