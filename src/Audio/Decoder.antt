-- ===== src/Audio/Decoder.antt =====
-- `Decoder` of internal/audio/decoder.go. libopus is a parameter: `opus_decode d packet room` gives the
-- decoder's next state and the samples that it wrote into a buffer of `room` samples, or `none` for an
-- error. An int16 sample is its bit pattern, a number below 65536.
use xiaozhi_esp32_golang_ser.Prelude.{
  ℕ, ◌*◌, ◌/◌, ◌%◌, ◌<◌, ◌≤◌, ◌≡◌, refl, Option, none, some, List, [], ◌∷◌, length, ltb, ◌==◌,
  if◌then◌else◌, arith, All, ap,
}
use xiaozhi_esp32_golang_ser.Audio.Errors.{
  Result, ok, err, empty_packet, packet_too_large, decode_failed, invalid_sample_count,
}
use xiaozhi_esp32_golang_ser.Audio.Encoder.{samples_of_pcm, default_max_opus_packet_bytes}

abbrev pub uplink_samples_per_frame : ℕ
uplink_samples_per_frame = 16000 * 60 / 1000

abbrev pub uplink_bytes_per_frame : ℕ
uplink_bytes_per_frame = uplink_samples_per_frame * 2

pub record Decoder (D : Type 0) : Type 0 where
  pub dec : D
  pub max_packet_bytes : ℕ

-- `opus.NewDecoder` may fail; `made` is what it returned.
unfoldable pub new_decoder : {D : Type 0} → Option D → ℕ → Option (Decoder D)
new_decoder none max_packet_bytes = none
new_decoder (some d) max_packet_bytes = some (record {
  dec = d;
  max_packet_bytes =
      if max_packet_bytes == 0 then default_max_opus_packet_bytes else max_packet_bytes;
})

-- The loop that writes each sample as two bytes, low byte first.
unfoldable pub pcm_of_samples : List ℕ → List ℕ
pcm_of_samples [] = []
pcm_of_samples (x ∷ xs) = (x % 256) ∷ (x / 256 % 256) ∷ pcm_of_samples xs

module _ {D : Type 0} (opus_decode : D → List ℕ → ℕ → D × Option (List ℕ)) where
  finish_decode : Decoder D → D × Option (List ℕ) → Decoder D × Result (List ℕ)
  finish_decode d (next, none) = (record d { dec = next }, err decode_failed)
  finish_decode d (next, some samples) = (
    record d { dec = next },
    if length samples == uplink_samples_per_frame
        then ok (pcm_of_samples samples)
        else err invalid_sample_count,
  )

  unfoldable pub decode : Decoder D → List ℕ → Decoder D × Result (List ℕ)
  unfolding finish_decode
  decode d opus_data =
      if length opus_data == 0
      then (d, err empty_packet)
      else if ltb d.max_packet_bytes (length opus_data)
      then (d, err packet_too_large)
      else finish_decode d (opus_decode d.dec opus_data uplink_samples_per_frame)

length-pcm_of_samples : (xs : List ℕ) → length (pcm_of_samples xs) ≡ length xs * 2
unfolding pcm_of_samples
length-pcm_of_samples [] = omega arith
length-pcm_of_samples (x ∷ xs) = omega (arith, length-pcm_of_samples xs)

pcm_of_samples_bytes : (xs : List ℕ) → All (λ b. b < 256) (pcm_of_samples xs)
unfolding pcm_of_samples
pcm_of_samples_bytes [] = tt
pcm_of_samples_bytes (x ∷ xs) = (omega arith, (omega arith, pcm_of_samples_bytes xs))

-- The bytes that the decoder writes for 16-bit samples are read back by the encoder's loop as the same
-- samples.
pub samples_of_pcm-pcm_of_samples :
    (xs : List ℕ) → All (λ x. x < 65536) xs → samples_of_pcm (pcm_of_samples xs) ≡ xs
unfolding samples_of_pcm pcm_of_samples
samples_of_pcm-pcm_of_samples [] h = refl
samples_of_pcm-pcm_of_samples (x ∷ xs) h = ground (arith, samples_of_pcm-pcm_of_samples xs h.1)

module _ {D : Type 0} (opus_decode : D → List ℕ → ℕ → D × Option (List ℕ)) where
  -- What is known of a result that `Decode` returns.
  abbrev pub FromSamples : Option (List ℕ) → List ℕ → Type 0
  FromSamples r pcm =
      (samples : List ℕ) × (r ≡ some samples)
      × (length samples ≡ uplink_samples_per_frame)
      × (pcm ≡ pcm_of_samples samples)

  finish_decode_ok :
      (d : Decoder D) (r : D × Option (List ℕ)) (pcm : List ℕ)
      → (finish_decode opus_decode d r).1 ≡ ok pcm
      → FromSamples r.1 pcm
  unfolding finish_decode
  finish_decode_ok d (next, none) pcm h = cc
  finish_decode_ok d (next, some samples) pcm h = (samples, refl, ground arith, ground arith)

  -- If `Decode` succeeds then the packet was neither empty nor over the limit, Opus gave exactly 960
  -- samples for it, and the result is their 1920 bytes.
  pub decode_ok :
      (d : Decoder D) (opus_data pcm : List ℕ)
      → (decode opus_decode d opus_data).1 ≡ ok pcm
      → (0 < length opus_data)
        × (length opus_data ≤ d.max_packet_bytes)
        × FromSamples (opus_decode d.dec opus_data uplink_samples_per_frame).1 pcm
        × (length pcm ≡ uplink_bytes_per_frame)
        × All (λ b. b < 256) pcm
  unfolding decode
  decode_ok d opus_data pcm h =
      let (some_room, fits, done) = accepted in
      let (samples, from, count, same) =
        finish_decode_ok d (opus_decode d.dec opus_data uplink_samples_per_frame) pcm done in
      (
        some_room,
        fits,
        (samples, from, count, same),
        omega (arith, ap length same, length-pcm_of_samples samples),
        rw same (pcm_of_samples_bytes samples),
      )
    where
      accepted :
          (0 < length opus_data)
          × (length opus_data ≤ d.max_packet_bytes)
          × ((finish_decode opus_decode d (opus_decode d.dec opus_data uplink_samples_per_frame)).1
              ≡ ok pcm)
      accepted = (ground arith, ground arith, ground arith)
