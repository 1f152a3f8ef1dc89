-- ===== src/Ai/LlmStream/Tests.antt =====
-- The theorem on the stream at concrete chunks.
use xiaozhi_esp32_golang_ser.Prelude.{◌≡◌, false, List, [], ◌∷◌, ◌++◌}
use xiaozhi_esp32_golang_ser.Session.Message.Parse.{codes}
use xiaozhi_esp32_golang_ser.Ai.LlmStream.{
  Fragment, Chunk, no_choice, delta, StreamEnd, tool_calls, new_llm_stream,
}
use xiaozhi_esp32_golang_ser.Ai.LlmStream.Grouping.{firsts, calls_of}
use xiaozhi_esp32_golang_ser.Ai.LlmStream.Laws.{
  fragments_of, text_of, recv_times, recv_times-called,
}

abbrev lamp_start : Fragment
lamp_start = record { index = 1; id = codes "a"; name = codes "la"; arguments = [] }

abbrev fan_start : Fragment
fan_start = record { index = 0; id = codes "b"; name = codes "fan"; arguments = [] }

abbrev lamp_rest : Fragment
lamp_rest = record { index = 1; id = []; name = codes "mp"; arguments = codes "{}" }

-- Two calls whose fragments come in turns.
abbrev chunks : List Chunk
chunks =
    no_choice
    ∷ delta (lamp_start ∷ fan_start ∷ []) []
    ∷ delta [] (codes "Well")
    ∷ delta (lamp_rest ∷ []) []
    ∷ []

abbrev ending : StreamEnd
ending = record {
  has_error = false;
  first_token_timed_out = false;
  overall_deadline = false;
  parent_done = false;
}

recv_times-called_example :
    let r = recv_times 2 (new_llm_stream chunks ending) in
    (done : List Chunk) × (chunks ≡ done ++ r.0.chunks)
    × (r.1 ≡ text_of done)
    × (tool_calls r.0 ≡ calls_of (firsts (fragments_of done [])) (fragments_of done []))
recv_times-called_example = recv_times-called 2 chunks ending
