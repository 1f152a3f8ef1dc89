-- ===== src/Ai/TtsStream/Requests.antt =====
-- The requests that a TTS stream sends: the end of the input is the last, and is sent once.
use xiaozhi_esp32_golang_ser.Prelude.{
  ℕ, ◌≡◌, Bool, true, false, ◌||◌, Option, none, some, List, [], ◌∷◌, arith,
}
use xiaozhi_esp32_golang_ser.Ai.Task.{TaskError, is_set, keep_first}
use xiaozhi_esp32_golang_ser.Ai.TtsStream.{
  Request, continue_task, finish_task, cancel_task, Frame, TtsStream, new_tts_stream, end_ctx,
  record_error, close_conn, handle_first_audio_timeout, handle_sentence_timeout,
  reset_sentence_timer, stop_timers, leave, take_audio, take_event, take_frame, read_frame,
  push_pending, give_up_pending, close, refusal,
}
use xiaozhi_esp32_golang_ser.Ai.TtsStream.Calls.{
  lock_sentence, lock_finish, lock_cancel, start_write, written, complete, start_first_audio_timer,
  next_pcm, take_chunk, Pick, Event, step, run,
}

-- Sentences only.
unfoldable pub is_open : List Request → Bool
is_open [] = true
is_open (continue_task words ∷ rest) = is_open rest
is_open (finish_task ∷ rest) = false
is_open (cancel_task ∷ rest) = false

-- Newest first: sentences, and at most one request that ends the task, the last.
unfoldable pub is_orderly : List Request → Bool
unfolding is_open
is_orderly [] = true
is_orderly (r ∷ rest) = is_open rest

-- A write is under way or none of `finished` and `closed` holds only as long as the task was not ended.
pub record IsOrderly (s : TtsStream) : Type 0 where
  pub orderly : is_orderly s.sent ≡ true
  pub while_writing : is_set s.writing ≡ true → is_open s.sent ≡ true
  pub while_open : s.closed || s.finished ≡ false → is_open s.sent ≡ true
  pub finishing : s.writing ≡ some finish_task → s.finished ≡ true

-- A step that sends nothing, and takes nothing back.
record Keeps (s t : TtsStream) : Type 0 where
  same_sent : t.sent ≡ s.sent
  same_writing : t.writing ≡ s.writing
  finished_stays : s.finished ≡ true → t.finished ≡ true
  closed_stays : s.closed ≡ true → t.closed ≡ true

Keeps-IsOrderly : (s t : TtsStream) → Keeps s t → IsOrderly s → IsOrderly t
Keeps-IsOrderly s t k v = ground arith

open_orderly : (rs : List Request) → is_open rs ≡ true → is_orderly rs ≡ true
unfolding is_open is_orderly
open_orderly rs h = ground arith

close-Keeps : (s : TtsStream) → Keeps s (close s)
unfolding close stop_timers end_ctx close_conn keep_first
close-Keeps s = ground arith

record_error-Keeps : (s : TtsStream) (e : TaskError) → Keeps s (record_error e s)
unfolding record_error
record_error-Keeps s e = ground arith

read_frame-Keeps : (s : TtsStream) (frame : Frame) → Keeps s (read_frame frame s)
unfolding read_frame take_frame take_event take_audio reset_sentence_timer leave stop_timers
    close_conn record_error
read_frame-Keeps s frame = ground arith

timeouts-Keeps :
    (s : TtsStream) → Keeps s (handle_first_audio_timeout s) × Keeps s (handle_sentence_timeout s)
unfolding handle_first_audio_timeout handle_sentence_timeout record_error end_ctx close_conn
    keep_first
timeouts-Keeps s = ground arith

select-Keeps : (s : TtsStream) → Keeps s (push_pending s) × Keeps s (give_up_pending s)
unfolding push_pending give_up_pending leave stop_timers close_conn
select-Keeps s = ground arith

next_pcm-Keeps :
    (s : TtsStream) (caller : Option TaskError) (pick : Pick) → Keeps s (next_pcm caller pick s).0
unfolding next_pcm take_chunk
next_pcm-Keeps s caller pick = ground arith

lock_sentence-IsOrderly :
    (s : TtsStream) (words : List ℕ) → IsOrderly s → IsOrderly (lock_sentence words s).0
unfolding lock_sentence start_write refusal is_set
lock_sentence-IsOrderly s words v = ground arith

lock_finish-IsOrderly : (s : TtsStream) → IsOrderly s → IsOrderly (lock_finish s).0
unfolding lock_finish start_write is_set
lock_finish-IsOrderly s v = ground arith

lock_cancel-IsOrderly : (s : TtsStream) → IsOrderly s → IsOrderly (lock_cancel s).0
unfolding lock_cancel start_write close stop_timers end_ctx close_conn keep_first is_set
lock_cancel-IsOrderly s v = ground arith

written-IsOrderly :
    (s : TtsStream) (r : Request) (result : Option ℕ)
    → s.writing ≡ some r
    → IsOrderly s
    → IsOrderly (written r result (record s { writing = none })).0
unfolding written reset_sentence_timer start_first_audio_timer close stop_timers end_ctx close_conn
    record_error keep_first is_set is_open is_orderly
written-IsOrderly s r result e v = ground (arith, open_orderly s.sent)

complete-IsOrderly :
    (s : TtsStream) (result : Option ℕ) → IsOrderly s → IsOrderly (complete result s).0
unfolding complete
complete-IsOrderly s result v = grind (arith, written-IsOrderly)

step-IsOrderly : (s : TtsStream) (e : Event) → IsOrderly s → IsOrderly (step s e)
unfolding step
step-IsOrderly s (Event.reads frame) v = Keeps-IsOrderly s _ (read_frame-Keeps s frame) v
step-IsOrderly s Event.pushes v = Keeps-IsOrderly s _ (select-Keeps s).0 v
step-IsOrderly s Event.gives_up v = Keeps-IsOrderly s _ (select-Keeps s).1 v
step-IsOrderly s Event.first_audio_fires v = Keeps-IsOrderly s _ (timeouts-Keeps s).0 v
step-IsOrderly s Event.sentence_fires v = Keeps-IsOrderly s _ (timeouts-Keeps s).1 v
step-IsOrderly s (Event.locks_sentence words) v = lock_sentence-IsOrderly s words v
step-IsOrderly s Event.locks_finish v = lock_finish-IsOrderly s v
step-IsOrderly s Event.locks_cancel v = lock_cancel-IsOrderly s v
step-IsOrderly s Event.closes v = Keeps-IsOrderly s _ (close-Keeps s) v
step-IsOrderly s (Event.writes result) v = complete-IsOrderly s result v
step-IsOrderly s (Event.takes caller pick) v = Keeps-IsOrderly s _ (next_pcm-Keeps s caller pick) v
step-IsOrderly s (Event.parent_ends e) v = unfold end_ctx in ground arith

run-IsOrderly : (s : TtsStream) (es : List Event) → IsOrderly s → IsOrderly (run s es)
unfolding run
run-IsOrderly s [] v = v
run-IsOrderly s (e ∷ es) v = run-IsOrderly (step s e) es (step-IsOrderly s e v)

-- In every interleaving of the calls and the other goroutines, the requests that the connection took are
-- sentences, and behind them at most one that ends the task, `finish-task` or `cancel-task`: no sentence
-- follows it, and it is not repeated.
pub run-new_tts_stream-is_orderly :
    (capacity first_audio sentence : ℕ) (es : List Event)
    → is_orderly (run (new_tts_stream capacity first_audio sentence) es).sent ≡ true
run-new_tts_stream-is_orderly capacity first_audio sentence es = (run-IsOrderly _ es start).orderly
  where
    start : IsOrderly (new_tts_stream capacity first_audio sentence)
    start = unfold new_tts_stream is_orderly is_open in ground arith
