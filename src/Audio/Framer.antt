-- ===== src/Audio/Framer.antt =====
-- `PCMFramer` of internal/audio/encoder.go: cuts a byte stream into frames of 2880 bytes. A byte is a
-- number; `f.buf` is the list of its bytes (the capacity of the slice is not observable).
pub mod Cut
pub mod Laws
pub mod Stream
use xiaozhi_esp32_golang_ser.Prelude.{
  ℕ, zero, suc, ◌+◌, ◌-◌, ◌*◌, ◌/◌, Bool, true, false, List, [], ◌∷◌, ◌++◌, length, take, drop,
  replicate, leb, if◌then◌else◌,
}

abbrev pub downlink_sample_rate : ℕ
downlink_sample_rate = 24000

abbrev pub downlink_frame_duration_ms : ℕ
downlink_frame_duration_ms = 60

abbrev pub downlink_samples_per_frame : ℕ
downlink_samples_per_frame = downlink_sample_rate * downlink_frame_duration_ms / 1000

abbrev pub downlink_bytes_per_frame : ℕ
downlink_bytes_per_frame = downlink_samples_per_frame * 2

pub record PcmFramer : Type 0 where
  pub buf : List ℕ

unfoldable pub new_pcm_framer : PcmFramer
new_pcm_framer = record { buf = [] }

-- The loop of `Feed`: `for len(f.buf) >= size`, on fuel. The first part is `frames`, the second the
-- buffer that is left.
unfoldable pub cut_frames : ℕ → ℕ → List ℕ → List (List ℕ) × List ℕ
cut_frames zero size buf = ([], buf)
cut_frames (suc fuel) size buf =
    let more : List (List ℕ) × List ℕ =
      (let rest = cut_frames fuel size (drop size buf) in (take size buf ∷ rest.0, rest.1)) in
    if leb size (length buf) then more else ([], buf)

-- The rounds are bounded by the bytes buffered.
unfoldable pub feed_buf : List ℕ → List (List ℕ) × List ℕ
feed_buf buf = cut_frames (suc (length buf)) downlink_bytes_per_frame buf

unfoldable pub feed : PcmFramer → List ℕ → PcmFramer × List (List ℕ)
feed f [] = (f, [])
feed f (b ∷ chunk) = let done = feed_buf (f.buf ++ (b ∷ chunk)) in (record { buf = done.1 }, done.0)

-- A frame of zeros over which the rest is copied.
unfoldable pub pad_frame : List ℕ → List ℕ
pad_frame buf = buf ++ replicate (downlink_bytes_per_frame - length buf) 0

unfoldable pub flush_buf : List ℕ → PcmFramer × List (List ℕ)
flush_buf [] = (record { buf = [] }, [])
flush_buf (b ∷ buf) = (record { buf = [] }, pad_frame (b ∷ buf) ∷ [])

unfoldable pub flush : PcmFramer → PcmFramer × List (List ℕ)
unfolding flush_buf
flush f = flush_buf f.buf

unfoldable pub reset : PcmFramer → PcmFramer
reset f = record { buf = [] }

unfoldable pub buffered_bytes : PcmFramer → ℕ
buffered_bytes f = length f.buf
