-- ===== src/Session/Orchestration/Tests.antt =====
-- The theorems on the goroutines of an answer at a concrete turn.
use xiaozhi_esp32_golang_ser.Prelude.{
  ℕ, suc, ◌≡◌, refl, true, false, Option, none, some, List, [], ◌∷◌,
}
use xiaozhi_esp32_golang_ser.Session.Message.Parse.{codes}
use xiaozhi_esp32_golang_ser.Session.Splitter.Loop.{visible}
use xiaozhi_esp32_golang_ser.Session.Orchestration.{
  World, ToolCall, chunk, pcm_ok, count_down, is_spent,
}
use xiaozhi_esp32_golang_ser.Session.Mcp.{content}
use xiaozhi_esp32_golang_ser.Session.Pacer.{PacerError}
use xiaozhi_esp32_golang_ser.Session.Orchestration.Pcm.{
  Pcm, pcm_chunk, consume_tts_pcm, drained, read_pcm, end_of_stream, after_flush, encode_chunk,
  hand_over,
}
use xiaozhi_esp32_golang_ser.Audio.Framer
use xiaozhi_esp32_golang_ser.Audio.Framer.{
  new_pcm_framer, cut_frames, feed_buf, pad_frame, flush_buf,
}
use xiaozhi_esp32_golang_ser.Audio.Encoder
use xiaozhi_esp32_golang_ser.Audio.Encoder.{
  new_encoder, new_stream_encoder, packet_of, encode_live, encode_frames, encode_all, feed_live,
  flush_live, encode, samples_of_pcm,
}
use xiaozhi_esp32_golang_ser.Session.Orchestration.Pcm.Content.{
  speech, IsSpeech, consume_tts_pcm-IsSpeech,
}
use xiaozhi_esp32_golang_ser.Audio.Encoder.{default_max_opus_packet_bytes}
use xiaozhi_esp32_golang_ser.Session.Orchestration.Pipeline.{new_task, orchestrate_llm_and_tts}
use xiaozhi_esp32_golang_ser.Session.Orchestration.Outputs.{IsOver}
use xiaozhi_esp32_golang_ser.Session.Orchestration.Order.{orchestrate_llm_and_tts-IsOver}
use xiaozhi_esp32_golang_ser.Session.Orchestration.Spoken.{spoken, answer}
use xiaozhi_esp32_golang_ser.Session.Orchestration.Reply.{orchestrate_llm_and_tts-visible}
use xiaozhi_esp32_golang_ser.Session.Orchestration.Success.{
  IsFriendly, orchestrate_llm_and_tts_succeeds,
}

abbrev lamp_call : ToolCall
lamp_call = record { id = codes "1"; name = codes "lamp"; arguments = [] }

-- The model says a word, switches a lamp, and replies.
abbrev friendly : World
friendly = record {
  has_llm = true;
  has_tts = true;
  session_id = codes "s";
  user_text = codes "Light?";
  messages = [];
  tts_created = none;
  llm_created = none;
  replies = chunk (codes "Wait.") ∷ [];
  tool_calls = lamp_call ∷ [];
  allowed_tools = codes "lamp" ∷ [];
  tool_answer = λ log call. some (content false []);
  tool_error = λ log call. [];
  quoted = λ name. name;
  llm_created_again = none;
  replies_again = chunk (codes "It ") ∷ chunk [] ∷ chunk (codes "is on") ∷ [];
  text_sent = λ log. none;
  sentence_sent = λ log. none;
  tts_finished = none;
  pcm_done = pcm_ok;
}

friendly-IsFriendly : IsFriendly friendly
friendly-IsFriendly = record {
  clients = (refl, refl);
  has_id = λ h. cc;
  opens = (refl, refl, refl);
  texts = ((tt, tt), (tt, (tt, (tt, tt))));
  sends = λ log. (refl, refl);
  ends = (refl, refl);
}

orchestrate_llm_and_tts-IsOver_example :
    IsOver (codes "lamp" ∷ []) (orchestrate_llm_and_tts friendly (new_task none (some 4)))
orchestrate_llm_and_tts-IsOver_example = orchestrate_llm_and_tts-IsOver friendly none (some 4)

orchestrate_llm_and_tts_succeeds_example :
    (orchestrate_llm_and_tts friendly (new_task none none)).1 ≡ true
orchestrate_llm_and_tts_succeeds_example =
    orchestrate_llm_and_tts_succeeds friendly friendly-IsFriendly

orchestrate_llm_and_tts-visible_example :
    let log = (orchestrate_llm_and_tts friendly (new_task none none)).0.log in
    (visible (spoken log) ≡ visible (codes "Wait.It is on"))
    × (answer log ≡ some (codes "Light?", codes "It is on"))
orchestrate_llm_and_tts-visible_example =
    orchestrate_llm_and_tts-visible friendly none none
      (orchestrate_llm_and_tts_succeeds friendly friendly-IsFriendly)

-- It writes one byte for every call.
abbrev opus_one : ℕ → List ℕ → ℕ → ℕ × Option (List ℕ)
opus_one calls samples room = (suc calls, some (calls ∷ []))

abbrev takes_all : List (List ℕ) → List ℕ → Option PacerError
takes_all handed packet = none

abbrev short_speech : List Pcm
short_speech = pcm_chunk (1 ∷ 2 ∷ []) ∷ pcm_chunk [] ∷ []

short_speech_drains :
    (consume_tts_pcm opus_one takes_all (some 0) 0 none none short_speech).1 ≡ drained
unfolding consume_tts_pcm read_pcm end_of_stream after_flush encode_chunk hand_over count_down
    is_spent new_encoder new_stream_encoder Encoder.feed Encoder.flush packet_of encode_live
    encode_frames encode_all feed_live flush_live new_pcm_framer Framer.feed Framer.flush cut_frames
    feed_buf pad_frame flush_buf encode samples_of_pcm
short_speech_drains = refl

consume_tts_pcm-IsSpeech_example :
    IsSpeech opus_one takes_all 0 default_max_opus_packet_bytes
      (speech short_speech)
      (consume_tts_pcm opus_one takes_all (some 0) 0 none none short_speech).0.handed
consume_tts_pcm-IsSpeech_example =
    consume_tts_pcm-IsSpeech opus_one takes_all 0 0 none none short_speech short_speech_drains
