-- ===== src/Ai/AsrStream/Runs.antt =====
-- The ASR stream in every interleaving of its calls and its loop: when a caller of `Result` waits, and what it gets.
use xiaozhi_esp32_golang_ser.Prelude.{
  ℕ, ◌≡◌, subst, Bool, true, false, ◌||◌, Option, none, some, List, [], ◌∷◌, arith,
}
use xiaozhi_esp32_golang_ser.Session.Message.{Text}
use xiaozhi_esp32_golang_ser.Ai.Task.{TaskError, is_set, keep_first}
use xiaozhi_esp32_golang_ser.Ai.AsrStream.{
  audio, finish_task, Frame, Response, AsrStream, new_asr_stream, mark_vad_ready, mark_finished,
  record_error, or_else, update_partial_text, update_final_text, end_sentence, take_result,
  settle_text, leave, take_response, take_frame, read_frame, close,
}
use xiaozhi_esp32_golang_ser.Ai.AsrStream.Calls.{
  lock_pcm, lock_finish, complete, go_on, pcm_refusal, write_pcm, finish, gives, result, settled,
  sees_ready, sees_finished, sees_caller, sees_stream, answer_waits, answers, Event, step, run,
}

unfoldable pub is_blank : Text → Bool
is_blank [] = true
is_blank (c ∷ cs) = false

-- Both channels are closed once the stream has an error, is closed or has lost its loop; before that, the
-- first one is closed for a final text only, and the second one not.
pub record IsSound (s : AsrStream) : Type 0 where
  pub settles : s.closed || (s.left || is_set s.err) ≡ s.task_finished_closed
  pub both : s.task_finished_closed ≡ true → s.vad_ready ≡ true
  pub has_text : s.vad_ready ≡ true → s.task_finished_closed ≡ false → is_blank s.final_text ≡ false
  pub never_finished : s.finished ≡ false

close-IsSound : (s : AsrStream) → IsSound s → IsSound (close s)
unfolding close mark_finished
close-IsSound s v = ground arith

take_result-IsSound : (s : AsrStream) (r : Response) → IsSound s → IsSound (take_result r s)
unfolding take_result end_sentence update_partial_text update_final_text mark_vad_ready or_else
    is_blank
take_result-IsSound s r v = ground arith

left-IsSound : (s : AsrStream) → s.finished ≡ false → IsSound (leave s)
unfolding leave mark_finished
left-IsSound s e = ground arith

read_frame-IsSound : (s : AsrStream) (frame : Frame) → IsSound s → IsSound (read_frame frame s)
unfolding read_frame take_frame take_response record_error settle_text mark_finished
    update_final_text
read_frame-IsSound s frame v = grind (arith, left-IsSound, take_result-IsSound)

lock_pcm-IsSound : (s : AsrStream) (pcm : List ℕ) → IsSound s → IsSound (lock_pcm pcm s).0
unfolding lock_pcm
lock_pcm-IsSound s pcm v = ground arith

lock_finish-IsSound : (s : AsrStream) → IsSound s → IsSound (lock_finish s).0
unfolding lock_finish
lock_finish-IsSound s v = ground arith

record_error-IsSound : (s : AsrStream) (e : TaskError) → IsSound s → IsSound (record_error e s)
unfolding record_error mark_finished keep_first is_set
record_error-IsSound s e v = ground arith

complete-IsSound : (s : AsrStream) (answer : Option ℕ) → IsSound s → IsSound (complete answer s).0
unfolding complete record_error mark_finished keep_first is_set
complete-IsSound s answer v = ground arith

step-IsSound : (s : AsrStream) (e : Event) → IsSound s → IsSound (step s e)
unfolding step
step-IsSound s (Event.reads frame) v = read_frame-IsSound s frame v
step-IsSound s (Event.locks_pcm pcm) v = lock_pcm-IsSound s pcm v
step-IsSound s Event.locks_finish v = lock_finish-IsSound s v
step-IsSound s Event.closes v = close-IsSound s v
step-IsSound s (Event.writes answer) v = complete-IsSound s answer v
step-IsSound s (Event.parent_ends e) v = ground arith

run-IsSound : (s : AsrStream) (es : List Event) → IsSound s → IsSound (run s es)
unfolding run
run-IsSound s [] v = v
run-IsSound s (e ∷ es) v = run-IsSound (step s e) es (step-IsSound s e v)

new-IsSound : IsSound new_asr_stream
unfolding new_asr_stream is_set
new-IsSound = ground arith

-- What a caller of `Result` sees of a stream, `called` telling whether it saw `Finish` called.
pub record IsAnswered (s : AsrStream) (called : Bool) (caller : Option TaskError) : Type 0 where
  pub settled_answers :
      s.closed || (s.left || is_set s.err) ≡ true
      → result called caller sees_ready s ≡ settled s none
        × (result called caller sees_finished s ≡ settled s none)
  pub waits_for_end :
      s.closed || (s.left || is_set s.err) ≡ false
      → result true caller sees_ready s ≡ answer_waits
        × (result called caller sees_finished s ≡ answer_waits)
  pub caller_ends :
      (e : TaskError) → caller ≡ some e → result called caller sees_caller s ≡ answers [] (some e)
  pub stream_ends :
      (e : TaskError)
      → s.ctx_err ≡ some e
      → (s.err ≡ none → result called caller sees_stream s ≡ answers s.final_text (some e))
        × ((old : TaskError)
            → s.err ≡ some old
            → result called caller sees_stream s ≡ answers [] (some old))
  pub going_on :
      (caller ≡ none → result called caller sees_caller s ≡ answer_waits)
      × (s.ctx_err ≡ none → result called caller sees_stream s ≡ answer_waits)
  pub answers_text :
      (words : Text)
      → s.closed || (s.left || is_set s.err) ≡ false
      → result called caller sees_ready s ≡ answers words none
      → (words ≡ s.final_text) × (is_blank words ≡ false)

accepts_audio :
    (s : AsrStream) (b : ℕ) (pcm : List ℕ)
    → s.finished ≡ false
    → s.closed || (is_set s.err || is_set s.writing) ≡ false
    → ((write_pcm (b ∷ pcm) none (finish none s).0).1 ≡ gives none)
      × ((write_pcm (b ∷ pcm) none (finish none s).0).0.sent
          ≡ audio (b ∷ pcm) ∷ finish_task ∷ s.sent)
unfolding write_pcm finish pcm_refusal lock_pcm lock_finish go_on complete is_set
accepts_audio s b pcm f g = ground arith

-- After `Finish` has been sent, audio is still sent behind it: no run sets `finished`, so that `WritePCM`
-- never gives the error for a finished stream. It holds of every open stream of a run on which no call
-- writes.
pub write_pcm-finish :
    (es : List Event) (s : AsrStream) (b : ℕ) (pcm : List ℕ)
    → run new_asr_stream es ≡ s
    → s.closed || (is_set s.err || is_set s.writing) ≡ false
    → ((write_pcm (b ∷ pcm) none (finish none s).0).1 ≡ gives none)
      × ((write_pcm (b ∷ pcm) none (finish none s).0).0.sent
          ≡ audio (b ∷ pcm) ∷ finish_task ∷ s.sent)
write_pcm-finish es s b pcm e h =
    accepts_audio s b pcm
      (subst IsSound e (run-IsSound new_asr_stream es new-IsSound)).never_finished h
