-- ===== src/Ai/TtsStream.antt =====
-- `TTSStream` of internal/ai/bailian/tts.go: the loop that reads the connection, the requests, the two
-- timers, and the reader of the audio. The channel `pcmCh` is the list `pcm`, oldest first. The loop waits
-- at its `select` with the chunk `pending`. A call that holds `writeMu` while it writes has its request in
-- `writing`. A timer is whether it runs. `received`, `delivered`, `sent` (newest first) and `ended` are history variables: the chunks
-- read, those given to the caller, the requests the connection took, and whether `task-finished` came.
pub mod Calls
pub mod Requests
pub mod Delivery
pub mod Ending
pub mod Failing
mod Tests
use xiaozhi_esp32_golang_ser.Prelude.{
  ℕ, Bool, true, false, not, ◌||◌, ◌&&◌, Option, none, some, List, [], ◌∷◌, ◌++◌, length, ltb, ◌==◌,
  if◌then◌else◌,
}
use xiaozhi_esp32_golang_ser.Session.Message.{Text}
use xiaozhi_esp32_golang_ser.Ai.Task.{
  task_finished, task_failed, Header, event_of, TaskError, canceled, first_audio_timeout,
  sentence_timeout, stream_closed, input_finished, read_failed, write_failed, rejection, keep_first,
  is_set,
}

abbrev pub Chunk : Type 0
Chunk = List ℕ

pub data Request : Type 0 where
  continue_task : Text → Request
  finish_task cancel_task : Request

-- A text frame whose JSON is invalid is `text none`.
pub data Frame : Type 0 where
  lost : ℕ → Frame
  binary : Chunk → Frame
  text : Option Header → Frame

pub record TtsStream : Type 0 where
  pub capacity : ℕ
  pub first_audio_limit : ℕ
  pub sentence_limit : ℕ
  pub ctx_err : Option TaskError
  pub conn_closed : Bool
  pub first_audio_timer : Bool
  pub sentence_timer : Bool
  pub first_audio_sent : Bool
  pub first_audio_received : Bool
  pub first_audio_timed_out : Bool
  pub sentence_timed_out : Bool
  pub closed : Bool
  pub finished : Bool
  pub err : Option TaskError
  pub pcm : List Chunk
  pub pcm_closed : Bool
  pub pending : Option Chunk
  pub writing : Option Request
  pub received : List Chunk
  pub delivered : List Chunk
  pub sent : List Request
  pub ended : Bool

unfoldable pub new_tts_stream : ℕ → ℕ → ℕ → TtsStream
new_tts_stream capacity first_audio sentence = record {
  capacity = capacity;
  first_audio_limit = first_audio;
  sentence_limit = sentence;
  ctx_err = none;
  conn_closed = false;
  first_audio_timer = false;
  sentence_timer = false;
  first_audio_sent = false;
  first_audio_received = false;
  first_audio_timed_out = false;
  sentence_timed_out = false;
  closed = false;
  finished = false;
  err = none;
  pcm = [];
  pcm_closed = false;
  pending = none;
  writing = none;
  received = [];
  delivered = [];
  sent = [];
  ended = false;
}

-- The stream's context ends with its cancellation or with that of its parent, whichever is first.
unfoldable pub end_ctx : TaskError → TtsStream → TtsStream
unfolding keep_first
end_ctx e s = record s { ctx_err = keep_first s.ctx_err e }

-- The error that is kept for `e`.
unfoldable pub cause : TtsStream → TaskError → TaskError
cause s e =
    if s.first_audio_timed_out
    then first_audio_timeout
    else if s.sentence_timed_out
    then sentence_timeout
    else if s.closed
    then canceled
    else elim s.ctx_err [ some c ↦ c | none ↦ e ]

unfoldable pub record_error : TaskError → TtsStream → TtsStream
unfolding cause keep_first
record_error e s = record s { err = keep_first s.err (cause s e) }

unfoldable pub timeout_or_fallback_err : TtsStream → TaskError → TaskError
timeout_or_fallback_err s fallback =
    if s.first_audio_timed_out
    then first_audio_timeout
    else if s.sentence_timed_out
    then sentence_timeout
    else fallback

unfoldable pub close_conn : TtsStream → TtsStream
close_conn s = record s { conn_closed = true }

-- The timer's function, which a timer that was stopped too late runs as well.
unfoldable pub handle_first_audio_timeout : TtsStream → TtsStream
unfolding record_error end_ctx close_conn
handle_first_audio_timeout s =
    if s.first_audio_received
    then s
    else close_conn (
        end_ctx canceled (
          record_error first_audio_timeout (record s {
            first_audio_received = true;
            first_audio_timed_out = true;
            first_audio_timer = false;
          })))

unfoldable pub handle_sentence_timeout : TtsStream → TtsStream
unfolding record_error end_ctx close_conn is_set
handle_sentence_timeout s =
    if s.closed || is_set s.ctx_err
    then s
    else close_conn (
        end_ctx canceled (
          record_error sentence_timeout
            (record s { sentence_timed_out = true; sentence_timer = false })))

unfoldable pub reset_sentence_timer : TtsStream → TtsStream
unfolding is_set
reset_sentence_timer s =
    if s.sentence_limit == 0
    then s
    else if s.closed || is_set s.ctx_err
    then s
    else record s { sentence_timer = true }

unfoldable pub stop_timers : TtsStream → TtsStream
stop_timers s = record s { first_audio_timer = false; sentence_timer = false }

-- What the loop defers.
unfoldable pub leave : TtsStream → TtsStream
unfolding stop_timers close_conn
leave s = close_conn (record (stop_timers s) { pcm_closed = true })

-- A chunk of audio has come; the loop goes to its `select`.
unfoldable pub take_audio : Chunk → TtsStream → TtsStream
unfolding reset_sentence_timer
take_audio chunk s = reset_sentence_timer (record s {
  first_audio_timer = s.first_audio_timer && s.first_audio_received;
  first_audio_received = true;
  pending = some chunk;
  received = s.received ++ chunk ∷ [];
})

unfoldable pub take_event : Header → TtsStream → TtsStream
unfolding leave stop_timers record_error event_of rejection
take_event h s = elim (event_of h) [
  | task_finished ↦ leave (record (stop_timers s) { ended = true })
  | task_failed ↦ leave (record_error (rejection h) (stop_timers s))
  | e ↦ s
]

unfoldable pub take_frame : Frame → TtsStream → TtsStream
unfolding take_event take_audio leave record_error timeout_or_fallback_err
take_frame (lost e) s = leave (record_error (timeout_or_fallback_err s (read_failed e)) s)
take_frame (binary []) s = s
take_frame (binary (b ∷ bs)) s = take_audio (b ∷ bs) s
take_frame (text none) s = s
take_frame (text (some h)) s = take_event h s

-- One round of `readLoop` up to its `select`; the loop that has left or waits there reads nothing.
unfoldable pub read_frame : Frame → TtsStream → TtsStream
unfolding take_frame is_set
read_frame frame s = if s.pcm_closed || is_set s.pending then s else take_frame frame s

-- The `select`: the chunk goes into the channel where there is room.
unfoldable pub push_pending : TtsStream → TtsStream
push_pending s = elim s.pending [
  | none ↦ s
  | some chunk ↦
      if not s.pcm_closed && ltb (length s.pcm) s.capacity
      then record s { pcm = s.pcm ++ chunk ∷ []; pending = none }
      else s
]

-- The `select`: the context is done, so the chunk is lost.
unfoldable pub give_up_pending : TtsStream → TtsStream
unfolding leave is_set
give_up_pending s =
    if not s.pcm_closed && (is_set s.pending && is_set s.ctx_err) then leave s else s

-- What a call refuses under the lock; finishing a finished input is no error.
unfoldable pub refusal : TtsStream → Option TaskError
refusal s =
    if s.closed then some stream_closed else if s.finished then some input_finished else s.err

-- `Close`; `closeOnce` makes a second call do nothing, which `closed` tells.
unfoldable pub close : TtsStream → TtsStream
unfolding stop_timers end_ctx close_conn
close s =
    if s.closed then s else close_conn (end_ctx canceled (record (stop_timers s) { closed = true }))
