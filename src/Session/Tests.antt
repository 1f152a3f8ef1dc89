-- ===== src/Session/Tests.antt =====
-- The theorems on the parts of a session at concrete inputs.
use xiaozhi_esp32_golang_ser.Prelude.{
  ℕ, ◌<◌, ◌≡◌, ◌≢◌, refl, true, false, none, List, [], ◌∷◌, length, arith, flatten,
}
use xiaozhi_esp32_golang_ser.Session.Limiter
use xiaozhi_esp32_golang_ser.Session.Limiter.{
  SessionLimiter, new_session_limiter, try_acquire, release, fire, fires, acquires, releases, Call,
  IsSound, run-new-IsSound, release_twice, acquire-release,
}
use xiaozhi_esp32_golang_ser.Session.Splitter.{
  SentenceSplitter, new_sentence_splitter, feed, max_sentence_runes,
}
use xiaozhi_esp32_golang_ser.Session.Splitter.Laws.{feed_all, feed_settles, reply-visible}
use xiaozhi_esp32_golang_ser.Session.Splitter.Loop.{IsDone}
use xiaozhi_esp32_golang_ser.Session.Splitter.Loop.{visible}
use xiaozhi_esp32_golang_ser.Session.Writer.{Writer, new_writer}
use xiaozhi_esp32_golang_ser.Session.Writer.Laws
use xiaozhi_esp32_golang_ser.Session.Writer.Laws.{
  Event, sends, writes, closes, IsOrderly, run-new_writer-IsOrderly, enqueue_closed,
}
use xiaozhi_esp32_golang_ser.Session.Message.{ClientMessage, listen_start, auto}
use xiaozhi_esp32_golang_ser.Session.Message.Hello.{ClientHelloMessage}
use xiaozhi_esp32_golang_ser.Session.Message.Parse.{
  Decoded, object, str, ok, parse_client_message_with_limit, field, text_eq,
}
use xiaozhi_esp32_golang_ser.Session.Message.Parse.Clean.{IsClean, parse_client_message-IsClean}

abbrev calls : List Call
calls = acquires ∷ acquires ∷ releases 0 ∷ releases 0 ∷ acquires ∷ []

run-new-IsSound_example : IsSound (Limiter.run (new_session_limiter 1) calls)
run-new-IsSound_example = run-new-IsSound 1 calls

abbrev full : SessionLimiter
full = record { active = 1; max = 1; onces = true ∷ false ∷ [] }

full-IsSound : IsSound full
full-IsSound = record { counted = refl; bounded = omega arith }

abbrev begun : SentenceSplitter
begun = record { buffer = 0x41 ∷ 0x42 ∷ [] }

-- A full stop, then a letter.
abbrev chunk : List ℕ
chunk = 0x3002 ∷ 0x43 ∷ []

chunk_text : chunk ≢ []
chunk_text = ground arith

feed_settles_example :
    let rest = (feed begun chunk).0.buffer in IsDone rest × (length rest < max_sentence_runes)
feed_settles_example = feed_settles begun chunk chunk_text

reply-visible_example :
    visible (flatten (feed_all new_sentence_splitter (chunk ∷ chunk ∷ [])))
    ≡ visible (flatten (chunk ∷ chunk ∷ []))
reply-visible_example = reply-visible (chunk ∷ chunk ∷ [])

abbrev writer_events : List (Event ℕ)
writer_events =
    sends false 1 ∷ sends false 2 ∷ writes false none ∷ sends false 3 ∷ closes ∷ sends false 4 ∷ []

run-new_writer-IsOrderly_example : IsOrderly (Laws.run (new_writer 2) writer_events)
run-new_writer-IsOrderly_example = run-new_writer-IsOrderly 2 writer_events

abbrev closed_writer : Writer ℕ
closed_writer = record {
  queue = [];
  capacity = 2;
  cancelled = false;
  closed = true;
  done = false;
  last_err = none;
  written = [];
  accepted = [];
}

abbrev greeting : ClientHelloMessage
greeting = record {
  message_type = "hello";
  version = 1;
  transport = "websocket";
  mcp = true;
  audio_params = record { format = "opus"; sample_rate = 16000; channels = 1; frame_duration = 60 };
}

-- What `{"type":"listen","state":"start","mode":"auto"}` decodes to.
abbrev listen_json : Decoded
listen_json = object (
    (
      0x74 ∷ 0x79 ∷ 0x70 ∷ 0x65 ∷ [],
      record { value = str (0x6c ∷ 0x69 ∷ 0x73 ∷ 0x74 ∷ 0x65 ∷ 0x6e ∷ []); raw = [] },
    )
    ∷ (
      0x73 ∷ 0x74 ∷ 0x61 ∷ 0x74 ∷ 0x65 ∷ [],
      record { value = str (0x73 ∷ 0x74 ∷ 0x61 ∷ 0x72 ∷ 0x74 ∷ []); raw = [] },
    )
    ∷ (
      0x6d ∷ 0x6f ∷ 0x64 ∷ 0x65 ∷ [],
      record { value = str (0x61 ∷ 0x75 ∷ 0x74 ∷ 0x6f ∷ []); raw = [] },
    )
    ∷ [])

abbrev listening_message : ClientMessage
listening_message = record {
  kind = listen_start;
  session_id = [];
  mode = auto;
  detect_text = [];
  abort_reason = [];
  mcp_payload = [];
  raw_type = [];
}

listen_json_parses :
    parse_client_message_with_limit (λ bytes. listen_json) (1 ∷ []) 100 ≡ ok listening_message
unfolding parse_client_message_with_limit field text_eq
listen_json_parses = refl

parse_client_message-IsClean_example : IsClean listening_message
parse_client_message-IsClean_example =
    parse_client_message-IsClean (λ bytes. listen_json) (1 ∷ []) 100 listen_json_parses
