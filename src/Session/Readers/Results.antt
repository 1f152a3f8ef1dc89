-- ===== src/Session/Readers/Results.antt =====
-- The reader of a recognition and the stream of the speech service together: what the supervisor gets.
use xiaozhi_esp32_golang_ser.Prelude.{
  ℕ, ◌≡◌, ◌⊎◌, ap, arith, Bool, true, Option, none, some, List, [], ◌∷◌, All,
}
use xiaozhi_esp32_golang_ser.Audio.AsrQueue.{QueueError}
use xiaozhi_esp32_golang_ser.Session.Message.{Text}
use xiaozhi_esp32_golang_ser.Session.Core.{Event}
use xiaozhi_esp32_golang_ser.Session.Readers.{report_result, read_asr_result_manual, queue_done}
use xiaozhi_esp32_golang_ser.Ai.Task.{TaskError, task_finished, event_of}
use xiaozhi_esp32_golang_ser.Ai.AsrStream.{
  AsrStream, Response, text, new_asr_stream, or_else, read_frame,
}
use xiaozhi_esp32_golang_ser.Ai.AsrStream.Calls.{
  result, settled, Pick, sees_ready, sees_finished, sees_caller, sees_stream, Event as StreamEvent,
  run,
}
use xiaozhi_esp32_golang_ser.Ai.AsrStream.Words.{
  words_of, final_words, partial_words, latest, frames, is_quiet, result_lem,
}

-- A context of the turn that is done: nothing is posted where the `select` sees it.
cancelled_posts :
    (error_text : TaskError → Text) (s : AsrStream) (gen : ℕ) (caller : Option TaskError)
    (pick : Pick)
    → (pick ≡ sees_caller) ⊎ (pick ≡ sees_stream)
    → report_result error_text true gen (result true caller pick s) ≡ []
unfolding report_result result settled
cancelled_posts error_text s gen caller pick here = ground arith

-- A manual turn, from the stream's opening to the event for the supervisor: where results are read while the
-- audio and `Finish` are written, no write fails, nobody closes the stream, the service ends the task, and the
-- queue was drained. Where the reader's `select` sees the end of the task, it posts one event, the final text
-- of the turn's generation: the text of the message that ended the task, or the last text that ended a
-- sentence, or the last partial text. Where it sees a context that is done instead, and finds the turn's
-- done, it posts nothing.
pub read_asr_result_manual-result :
    (error_text : TaskError → Text) (queue_text : QueueError → Text) (es : List StreamEvent)
    (r : Response) (ctx_done : Bool) (gen : ℕ) (caller : Option TaskError) (pick : Pick)
    → All (λ e. is_quiet e ≡ true) es
    → event_of r.header ≡ task_finished
    → let posted =
        read_asr_result_manual error_text queue_text
          (some (queue_done none))
          ctx_done
          gen
          (result true caller pick (read_frame (text (some r)) (run new_asr_stream es))) in
      ((pick ≡ sees_ready) ⊎ (pick ≡ sees_finished)
        → posted
          ≡ Event.asr_final gen (
              or_else
                (words_of r)
                (or_else (latest final_words (frames es)) (latest partial_words (frames es))))
            ∷ [])
      × ((pick ≡ sees_caller) ⊎ (pick ≡ sees_stream) → ctx_done ≡ true → posted ≡ [])
unfolding read_asr_result_manual
read_asr_result_manual-result error_text queue_text es r ctx_done gen caller pick h g = (
  λ here.
      unfold report_result in
      ap (report_result error_text ctx_done gen) (result_lem es r caller pick h g here),
  λ here done. rw done (cancelled_posts error_text _ gen caller pick here),
)
