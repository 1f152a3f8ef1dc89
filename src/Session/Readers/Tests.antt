-- ===== src/Session/Readers/Tests.antt =====
-- Examples of the theorems on the readers.
use xiaozhi_esp32_golang_ser.Prelude.{◌≡◌, ◌⊎◌, refl, Bool, true, false, none, some, List, [], ◌∷◌}
use xiaozhi_esp32_golang_ser.Session.Message.Parse.{syntax_error}
use xiaozhi_esp32_golang_ser.Session.Core.{Event, connected, listening}
use xiaozhi_esp32_golang_ser.Session.Readers.{
  binary, text, Round, read_loop, read_asr_result_manual, queue_done,
}
use xiaozhi_esp32_golang_ser.Session.Readers.Loop.{IsWellPosted, read_loop-IsWellPosted}
use xiaozhi_esp32_golang_ser.Session.Readers.Results.{read_asr_result_manual-result}
use xiaozhi_esp32_golang_ser.Ai.Task.{blank, task_finished, result_generated, Header, EventName}
use xiaozhi_esp32_golang_ser.Ai.AsrStream.{Response, Frame, new_asr_stream, or_else, read_frame}
use xiaozhi_esp32_golang_ser.Ai.AsrStream.Calls.{
  result, Pick, sees_ready, sees_finished, sees_caller, sees_stream, Event as StreamEvent, run,
}
use xiaozhi_esp32_golang_ser.Ai.AsrStream.Words.{
  words_of, final_words, partial_words, latest, frames, is_quiet, goes_on,
}

abbrev header_of : EventName → Header
header_of e = record { action = blank; event = e; error_code = []; error_message = [] }

abbrev heard : Response
heard = record {
  header = header_of result_generated;
  output = [];
  sentence = some (record { sentence_end = true; words = 104 ∷ 105 ∷ [] });
}

abbrev ending : Response
ending = record { header = header_of task_finished; output = []; sentence = none }

abbrev talk : List StreamEvent
talk =
    StreamEvent.locks_finish
    ∷ StreamEvent.writes none
    ∷ StreamEvent.reads (Frame.text (some heard))
    ∷ []

abbrev posted : Pick → Bool → List Event
posted pick ctx_done =
    read_asr_result_manual (λ e. []) (λ e. []) (some (queue_done none)) ctx_done 3
      (result true none pick (read_frame (Frame.text (some ending)) (run new_asr_stream talk)))

read_asr_result_manual-result_example :
    ((sees_finished ≡ sees_ready) ⊎ (sees_finished ≡ sees_finished)
      → posted sees_finished true
        ≡ Event.asr_final 3 (
            or_else
              (words_of ending)
              (or_else (latest final_words (frames talk)) (latest partial_words (frames talk))))
          ∷ [])
    × ((sees_finished ≡ sees_caller) ⊎ (sees_finished ≡ sees_stream)
        → true ≡ true
        → posted sees_finished true ≡ [])
unfolding is_quiet goes_on
read_asr_result_manual-result_example =
    read_asr_result_manual-result (λ e. []) (λ e. []) talk ending true 3 none sees_finished
      (refl, (refl, (refl, tt))) refl

abbrev rounds : List Round
rounds =
    record { ctx_done = false; message = some (text (1 ∷ [])); seen = connected; drops = false }
    ∷ record { ctx_done = false; message = some (binary (2 ∷ [])); seen = listening; drops = false }
    ∷ record { ctx_done = false; message = some (text (3 ∷ [])); seen = listening; drops = false }
    ∷ []

read_loop-IsWellPosted_example :
    IsWellPosted
      (λ b. syntax_error)
      (λ e. [])
      rounds
      false
      (read_loop (λ b. syntax_error) (λ e. []) rounds false)
read_loop-IsWellPosted_example = read_loop-IsWellPosted (λ b. syntax_error) (λ e. []) rounds false
