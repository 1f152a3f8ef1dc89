-- ===== src/Ai/AsrStream/Tests.antt =====
-- Examples of the theorems on the ASR stream.
use xiaozhi_esp32_golang_ser.Prelude.{true, false, none, some, List, [], ◌∷◌}
use xiaozhi_esp32_golang_ser.Ai.Task.{EventName, result_generated, task_finished, blank, Header}
use xiaozhi_esp32_golang_ser.Ai.AsrStream.{binary, text, Response, AsrStream, new_asr_stream}
use xiaozhi_esp32_golang_ser.Ai.AsrStream.Calls.{Event, run}

abbrev header_of : EventName → Header
header_of e = record { action = blank; event = e; error_code = []; error_message = [] }

abbrev partial_result : Response
partial_result = record {
  header = header_of result_generated;
  output = [];
  sentence = some (record { sentence_end = false; words = 104 ∷ [] });
}

abbrev final_result : Response
final_result = record {
  header = header_of result_generated;
  output = [];
  sentence = some (record { sentence_end = true; words = 104 ∷ 105 ∷ [] });
}

abbrev ending : Response
ending = record { header = header_of task_finished; output = []; sentence = none }

-- Audio is written while results come.
abbrev talk : List Event
talk =
    Event.locks_pcm (1 ∷ 2 ∷ [])
    ∷ Event.reads (text (some partial_result))
    ∷ Event.writes none
    ∷ Event.reads binary
    ∷ Event.reads (text (some final_result))
    ∷ []

abbrev after_talk : AsrStream
after_talk = run new_asr_stream talk
