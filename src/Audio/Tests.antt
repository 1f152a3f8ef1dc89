-- ===== src/Audio/Tests.antt =====
-- The theorems on internal/audio at concrete inputs.
use xiaozhi_esp32_golang_ser.Prelude.{
  ℕ, ◌<◌, ◌≡◌, refl, true, false, Option, none, some, List, [], ◌∷◌, ◌++◌, length, arith, All,
  flatten, replicate,
}
use xiaozhi_esp32_golang_ser.Audio.Errors.{ok}
use xiaozhi_esp32_golang_ser.Audio.Framer
use xiaozhi_esp32_golang_ser.Audio.Framer.{PcmFramer, new_pcm_framer, downlink_bytes_per_frame}
use xiaozhi_esp32_golang_ser.Audio.Framer.Stream.{feed_all, stream_frames}
use xiaozhi_esp32_golang_ser.Audio.Encoder.{Encoder, StreamEncoder, samples_of_pcm}
use xiaozhi_esp32_golang_ser.Audio.Decoder.{
  Decoder, decode, pcm_of_samples, samples_of_pcm-pcm_of_samples, uplink_samples_per_frame,
}
use xiaozhi_esp32_golang_ser.Audio.AsrQueue.{new_asr_audio_queue, fine}
use xiaozhi_esp32_golang_ser.Audio.AsrQueue.Laws.{
  Event, pushes, finishes, works, run, IsOrderly, run-new_queue-IsOrderly,
}

abbrev buffering : PcmFramer
buffering = record { buf = 1 ∷ 2 ∷ [] }

stream_frames_example :
    let done = feed_all new_pcm_framer ((1 ∷ 2 ∷ []) ∷ (3 ∷ []) ∷ []) in
    let frames = done.1 ++ (Framer.flush done.0).1 in
    (pad : ℕ) × (flatten frames ≡ (1 ∷ 2 ∷ 3 ∷ []) ++ replicate pad 0)
    × (pad < downlink_bytes_per_frame)
    × All (λ (f : List ℕ). length f ≡ downlink_bytes_per_frame) frames
unfolding flatten
stream_frames_example = stream_frames ((1 ∷ 2 ∷ []) ∷ (3 ∷ []) ∷ [])

-- A codec without state: a packet is the first sample, a packet of two bytes is silence.
abbrev toy_encode : ℕ → List ℕ → ℕ → ℕ × Option (List ℕ)
toy_encode e [] room = (e, none)
toy_encode e (x ∷ xs) room = (e, some (x ∷ []))

abbrev toy_decode : ℕ → List ℕ → ℕ → ℕ × Option (List ℕ)
toy_decode d (x ∷ y ∷ []) room = (d, some (replicate room 7))
toy_decode d packet room = (d, none)

abbrev live : Encoder ℕ
live = record { enc = some 0; max_packet_bytes = 1024 }

abbrev stream_encoder : StreamEncoder ℕ
stream_encoder = record { encoder = some live; framer = buffering }

samples_of_pcm-pcm_of_samples_example :
    samples_of_pcm (pcm_of_samples (258 ∷ 65535 ∷ [])) ≡ 258 ∷ 65535 ∷ []
samples_of_pcm-pcm_of_samples_example =
    samples_of_pcm-pcm_of_samples (258 ∷ 65535 ∷ []) (ground arith)

abbrev decoder : Decoder ℕ
decoder = record { dec = 0; max_packet_bytes = 1024 }

toy_decode_lem :
    (decode toy_decode decoder (1 ∷ 2 ∷ [])).1
    ≡ ok (pcm_of_samples (replicate uplink_samples_per_frame 7))
unfolding decode
toy_decode_lem = refl

abbrev queue_events : List Event
queue_events =
    pushes (1 ∷ []) ∷ works false fine ∷ pushes (2 ∷ []) ∷ finishes ∷ works false fine ∷ []

run-new_queue-IsOrderly_example : IsOrderly (run (new_asr_audio_queue true 2) queue_events)
run-new_queue-IsOrderly_example = run-new_queue-IsOrderly 2 queue_events
