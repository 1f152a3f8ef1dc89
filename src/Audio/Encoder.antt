-- ===== src/Audio/Encoder.antt =====
-- `Encoder` and `StreamEncoder` of internal/audio/encoder.go. libopus is a parameter: `opus_encode e
-- samples room` gives the encoder's next state and the bytes that it wrote into a buffer of `room`
-- bytes, or `none` for an error. An int16 sample is its bit pattern, a number below 65536.
pub mod Laws
use xiaozhi_esp32_golang_ser.Prelude.{
  ℕ, zero, suc, ◌+◌, ◌*◌, Option, none, some, List, [], ◌∷◌, length, ◌==◌, if◌then◌else◌, leb,
}
use xiaozhi_esp32_golang_ser.Audio.Errors.{
  AudioError, Result, ok, err, map_ok, encoder_closed, invalid_pcm_bytes, invalid_sample_count,
  encode_failed, encoder_is_nil,
}
use xiaozhi_esp32_golang_ser.Audio.Framer
use xiaozhi_esp32_golang_ser.Audio.Framer.{
  PcmFramer, downlink_bytes_per_frame, downlink_samples_per_frame,
}

abbrev pub default_max_opus_packet_bytes : ℕ
default_max_opus_packet_bytes = 1024

-- `enc` is nil after `Close`.
pub record Encoder (E : Type 0) : Type 0 where
  pub enc : Option E
  pub max_packet_bytes : ℕ

-- `opus.NewEncoder` may fail; `made` is what it returned. A limit that is not positive, 0 here, is
-- replaced by the default.
unfoldable pub new_encoder : {E : Type 0} → Option E → ℕ → Option (Encoder E)
new_encoder none max_packet_bytes = none
new_encoder (some e) max_packet_bytes = some (record {
  enc = some e;
  max_packet_bytes =
      if max_packet_bytes == 0 then default_max_opus_packet_bytes else max_packet_bytes;
})

-- The loop that reads the frame two bytes at a time, low byte first.
unfoldable pub samples_of_pcm : List ℕ → List ℕ
samples_of_pcm [] = []
samples_of_pcm (lo ∷ []) = []
samples_of_pcm (lo ∷ hi ∷ rest) = (lo + 256 * hi) ∷ samples_of_pcm rest

module _ {E : Type 0} (opus_encode : E → List ℕ → ℕ → E × Option (List ℕ)) where
  unfoldable pub packet_of : Encoder E → E × Option (List ℕ) → Encoder E × Result (List ℕ)
  packet_of e (next, none) = (record e { enc = some next }, err encode_failed)
  packet_of e (next, some packet) = (record e { enc = some next }, ok packet)

  unfoldable pub encode_live : Encoder E → Option E → List ℕ → Encoder E × Result (List ℕ)
  unfolding packet_of
  encode_live e none pcm_frame = (e, err encoder_closed)
  encode_live e (some enc) pcm_frame =
      if length pcm_frame == downlink_bytes_per_frame
      then packet_of e (opus_encode enc (samples_of_pcm pcm_frame) e.max_packet_bytes)
      else (e, err invalid_pcm_bytes)

  unfoldable pub encode : Encoder E → List ℕ → Encoder E × Result (List ℕ)
  unfolding encode_live
  encode e pcm_frame = encode_live e e.enc pcm_frame

  encode_samples_live : Encoder E → Option E → List ℕ → Encoder E × Result (List ℕ)
  unfolding packet_of
  encode_samples_live e none samples = (e, err encoder_closed)
  encode_samples_live e (some enc) samples =
      if length samples == downlink_samples_per_frame
      then packet_of e (opus_encode enc samples e.max_packet_bytes)
      else (e, err invalid_sample_count)

  unfoldable pub encode_samples : Encoder E → List ℕ → Encoder E × Result (List ℕ)
  unfolding encode_samples_live
  encode_samples e samples = encode_samples_live e e.enc samples

  -- The loop over the frames of one call; it stops at the first error and drops the packets before it.
  unfoldable pub encode_frames : Encoder E → List (List ℕ) → Encoder E × Result (List (List ℕ))
  encode_frames e [] = (e, ok [])
  encode_frames e (frame ∷ frames) =
      let one = encode e frame in
      let more = encode_frames one.0 frames in
      elim one.1 [
        | err x ↦ (one.0, err x)
        | ok packet ↦ (more.0, map_ok (λ packets. packet ∷ packets) more.1)
      ]

unfoldable pub close : {E : Type 0} → Encoder E → Encoder E
close e = record e { enc = none }

pub record StreamEncoder (E : Type 0) : Type 0 where
  pub encoder : Option (Encoder E)
  pub framer : PcmFramer

unfoldable pub new_stream_encoder : {E : Type 0} → Option (Encoder E) → StreamEncoder E
new_stream_encoder encoder = record { encoder = encoder; framer = Framer.new_pcm_framer }

module _ {E : Type 0} (opus_encode : E → List ℕ → ℕ → E × Option (List ℕ)) where
  -- What `Feed` and `Flush` do with the framer's answer.
  unfoldable pub encode_all :
      Encoder E → PcmFramer × List (List ℕ) → StreamEncoder E × Result (List (List ℕ))
  encode_all e (framer, frames) =
      let done = encode_frames opus_encode e frames in
      (record { encoder = some done.0; framer = framer }, done.1)

  unfoldable pub feed_live :
      StreamEncoder E → Option (Encoder E) → List ℕ → StreamEncoder E × Result (List (List ℕ))
  feed_live s none chunk = (s, err encoder_is_nil)
  feed_live s (some e) chunk = encode_all e (Framer.feed s.framer chunk)

  unfoldable pub feed : StreamEncoder E → List ℕ → StreamEncoder E × Result (List (List ℕ))
  unfolding feed_live encode_all
  feed s chunk = feed_live s s.encoder chunk

  unfoldable pub flush_live :
      StreamEncoder E → Option (Encoder E) → StreamEncoder E × Result (List (List ℕ))
  flush_live s none = (s, err encoder_is_nil)
  flush_live s (some e) = encode_all e (Framer.flush s.framer)

  unfoldable pub flush : StreamEncoder E → StreamEncoder E × Result (List (List ℕ))
  unfolding flush_live encode_all
  flush s = flush_live s s.encoder

unfoldable pub reset : {E : Type 0} → StreamEncoder E → StreamEncoder E
reset s = record s { framer = Framer.reset s.framer }

unfoldable pub close_stream : {E : Type 0} → StreamEncoder E → StreamEncoder E
unfolding close
close_stream s = record s { encoder = elim s.encoder [ none ↦ none | some e ↦ some (close e) ] }
