-- ===== src/Ai/AsrStream.antt =====
-- `ASRStream` of internal/ai/bailian/asr.go: the loop that reads the connection, and
-- `Close`. The channels `vadReady` and `taskFinishedCh`, which are only ever closed, are
-- whether they are. A call that holds `writeMu` while it writes has its request in `writing`. `left`, that
-- the loop has left, and `sent`, the requests that the connection took, newest first, are history variables.
pub mod Calls
pub mod Runs
pub mod Words
mod Tests
use xiaozhi_esp32_golang_ser.Prelude.{
  ℕ, Bool, true, false, not, ◌||◌, Option, none, some, List, [], ◌∷◌, if◌then◌else◌,
}
use xiaozhi_esp32_golang_ser.Session.Message.{Text}
use xiaozhi_esp32_golang_ser.Ai.Task.{
  task_finished, task_failed, result_generated, Header, event_of, TaskError, canceled,
  stream_closed, input_finished, read_failed, write_failed, rejection, keep_first, is_set,
}

pub data Request : Type 0 where
  audio : List ℕ → Request
  finish_task : Request

pub record Sentence : Type 0 where
  pub sentence_end : Bool
  pub words : Text

pub record Response : Type 0 where
  pub header : Header
  pub output : Text
  pub sentence : Option Sentence

-- A frame that is not text is `binary`; a text frame whose JSON is invalid is `text none`.
pub data Frame : Type 0 where
  lost : ℕ → Frame
  binary : Frame
  text : Option Response → Frame

pub record AsrStream : Type 0 where
  pub ctx_err : Option TaskError
  pub conn_closed : Bool
  pub closed : Bool
  pub finished : Bool
  pub finish_called : Bool
  pub partial_text : Text
  pub final_text : Text
  pub err : Option TaskError
  pub vad_ready : Bool
  pub task_finished_closed : Bool
  pub writing : Option Request
  pub left : Bool
  pub sent : List Request

unfoldable pub new_asr_stream : AsrStream
new_asr_stream = record {
  ctx_err = none;
  conn_closed = false;
  closed = false;
  finished = false;
  finish_called = false;
  partial_text = [];
  final_text = [];
  err = none;
  vad_ready = false;
  task_finished_closed = false;
  writing = none;
  left = false;
  sent = [];
}

unfoldable pub mark_vad_ready : AsrStream → AsrStream
mark_vad_ready s = record s { vad_ready = true }

unfoldable pub mark_finished : AsrStream → AsrStream
mark_finished s = record s { vad_ready = true; task_finished_closed = true }

unfoldable pub record_error : TaskError → AsrStream → AsrStream
unfolding mark_finished keep_first is_set
record_error e s =
    mark_finished
      (record s { err = keep_first s.err (if s.closed || is_set s.ctx_err then canceled else e) })

unfoldable pub or_else : Text → Text → Text
or_else [] other = other
or_else (c ∷ cs) other = c ∷ cs

unfoldable pub update_partial_text : Text → AsrStream → AsrStream
unfolding or_else
update_partial_text words s = record s { partial_text = or_else words s.partial_text }

unfoldable pub update_final_text : Text → AsrStream → AsrStream
unfolding or_else
update_final_text words s = record s { final_text = or_else words s.final_text }

-- The end of a sentence: its text, where it has one, is the final one, and with a final text the caller
-- need not wait for more.
unfoldable pub end_sentence : Text → AsrStream → AsrStream
unfolding update_final_text mark_vad_ready
end_sentence (c ∷ cs) s = mark_vad_ready (update_final_text (c ∷ cs) s)
end_sentence [] s = elim s.final_text [ [] ↦ s | c ∷ cs ↦ mark_vad_ready s ]

unfoldable pub take_result : Response → AsrStream → AsrStream
unfolding end_sentence update_partial_text or_else
take_result r s = elim r.sentence [
  | none ↦ update_partial_text r.output s
  | some sentence ↦
      if sentence.sentence_end
      then end_sentence (or_else r.output sentence.words) s
      else update_partial_text (or_else r.output sentence.words) s
]

unfoldable pub sentence_words : Option Sentence → Text
sentence_words none = []
sentence_words (some sentence) = sentence.words

-- The text of the end of the task, or the final text so far, or the partial one.
unfoldable pub settle_text : Response → AsrStream → AsrStream
unfolding update_final_text or_else sentence_words
settle_text r s = elim (or_else r.output (sentence_words r.sentence)) [
  | c ∷ cs ↦ update_final_text (c ∷ cs) s
  | [] ↦ record s { final_text = or_else s.final_text s.partial_text }
]

-- What the loop defers.
unfoldable pub leave : AsrStream → AsrStream
unfolding mark_finished
leave s = record (mark_finished s) { conn_closed = true; left = true }

unfoldable pub take_response : Response → AsrStream → AsrStream
unfolding take_result settle_text leave mark_finished record_error event_of rejection
take_response r s = elim (event_of r.header) [
  | result_generated ↦ take_result r s
  | task_finished ↦ leave (mark_finished (settle_text r s))
  | task_failed ↦ leave (record_error (rejection r.header) s)
  | e ↦ s
]

unfoldable pub take_frame : Frame → AsrStream → AsrStream
unfolding take_response leave record_error
take_frame (lost e) s = leave (record_error (read_failed e) s)
take_frame binary s = s
take_frame (text none) s = s
take_frame (text (some r)) s = take_response r s

-- One round of `readLoop`.
unfoldable pub read_frame : Frame → AsrStream → AsrStream
unfolding take_frame
read_frame frame s = if s.left then s else take_frame frame s

-- `Close`, as one step; `closeOnce` makes a second call do nothing, which `closed` tells.
unfoldable pub close : AsrStream → AsrStream
unfolding mark_finished keep_first
close s =
    if s.closed
    then s
    else mark_finished
        (record s { closed = true; ctx_err = keep_first s.ctx_err canceled; conn_closed = true })
