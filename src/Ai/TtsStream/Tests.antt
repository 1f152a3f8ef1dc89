-- ===== src/Ai/TtsStream/Tests.antt =====
-- Examples of the theorems on the TTS stream.
use xiaozhi_esp32_golang_ser.Prelude.{suc, ◌≡◌, refl, true, none, some, List, [], ◌∷◌, ◌++◌, length}
use xiaozhi_esp32_golang_ser.Ai.Task.{task_finished, blank, Header, is_set}
use xiaozhi_esp32_golang_ser.Ai.TtsStream.{
  binary, text, TtsStream, read_frame, push_pending, new_tts_stream, handle_first_audio_timeout,
}
use xiaozhi_esp32_golang_ser.Ai.TtsStream.Calls.{
  next_pcm, eof, step, lock_sentence, complete, lock_finish, sees_pcm, Event, run,
}
use xiaozhi_esp32_golang_ser.Ai.TtsStream.Requests.{is_orderly, run-new_tts_stream-is_orderly}
use xiaozhi_esp32_golang_ser.Ai.TtsStream.Delivery.{IsDelivery, run-new_tts_stream-IsDelivery}
use xiaozhi_esp32_golang_ser.Ai.TtsStream.Ending.{
  IsComplete, next_pcm-eof-IsComplete, collect, collect-run,
}
use xiaozhi_esp32_golang_ser.Ai.TtsStream.Failing.{IsTimedOut, late_first_audio-IsTimedOut}

abbrev finished_header : Header
finished_header = record {
  action = blank;
  event = task_finished;
  error_code = [];
  error_message = [];
}

-- Two chunks, the first given to the caller while the second comes, a sentence, and the end.
abbrev task : List Event
task =
    Event.locks_sentence (72 ∷ [])
    ∷ Event.writes none
    ∷ Event.reads (binary (1 ∷ 2 ∷ []))
    ∷ Event.pushes
    ∷ Event.reads (binary [])
    ∷ Event.reads (binary (3 ∷ []))
    ∷ Event.takes none sees_pcm
    ∷ Event.locks_finish
    ∷ Event.pushes
    ∷ Event.writes none
    ∷ Event.locks_sentence (73 ∷ [])
    ∷ Event.reads (text (some finished_header))
    ∷ []

abbrev after_task : TtsStream
after_task = run (new_tts_stream 1 5 20) task

abbrev read_up : List Event
read_up = task ++ Event.takes none sees_pcm ∷ []

run-new_tts_stream-IsDelivery_example : IsDelivery (run (new_tts_stream 1 5 20) task)
run-new_tts_stream-IsDelivery_example = run-new_tts_stream-IsDelivery 1 5 20 task

run-new_tts_stream-is_orderly_example : is_orderly (run (new_tts_stream 1 5 20) task).sent ≡ true
run-new_tts_stream-is_orderly_example = run-new_tts_stream-is_orderly 1 5 20 task

next_pcm-eof-IsComplete_example : IsComplete (run (new_tts_stream 1 5 20) read_up)
unfolding next_pcm run step read_frame lock_sentence complete push_pending lock_finish
    new_tts_stream is_set collect
next_pcm-eof-IsComplete_example = next_pcm-eof-IsComplete 1 5 20 read_up none sees_pcm refl

collect-run_example :
    (collect (suc (length after_task.pcm)) after_task ≡ (after_task.pcm, eof))
    × (after_task.delivered ++ after_task.pcm ≡ after_task.received)
unfolding next_pcm run step read_frame lock_sentence complete push_pending lock_finish
    new_tts_stream is_set collect
collect-run_example = collect-run 1 5 20 task after_task refl refl (refl, refl) refl

late_first_audio-IsTimedOut_example :
    IsTimedOut (run (handle_first_audio_timeout (new_tts_stream 1 5 20)) task)
unfolding new_tts_stream
late_first_audio-IsTimedOut_example = late_first_audio-IsTimedOut (new_tts_stream 1 5 20) task refl
