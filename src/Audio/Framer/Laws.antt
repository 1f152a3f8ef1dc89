-- ===== src/Audio/Framer/Laws.antt =====
-- What one call of `Feed` and of `Flush` promises.
use xiaozhi_esp32_golang_ser.Prelude.{
  ℕ, ◌-◌, ◌<◌, ◌≡◌, refl, sym, List, [], ◌∷◌, ◌++◌, length, replicate, append_assoc, append-nil,
  arith, length-append, length-replicate, flatten, All, min,
}
use xiaozhi_esp32_golang_ser.Audio.Framer.{
  PcmFramer, new_pcm_framer, downlink_bytes_per_frame, feed_buf, feed, pad_frame, flush_buf, flush,
}
use xiaozhi_esp32_golang_ser.Audio.Framer.Cut.{IsCut, cut_frames-IsCut, IsCut-unique, IsCut-append}

-- Between two calls less than a frame is buffered.
abbrev pub IsReady : PcmFramer → Type 0
IsReady f = length f.buf < downlink_bytes_per_frame

pub new_pcm_framer-IsReady : IsReady new_pcm_framer
unfolding new_pcm_framer
new_pcm_framer-IsReady = omega arith

feed_buf-IsCut :
    (buf : List ℕ) → IsCut downlink_bytes_per_frame buf (feed_buf buf).0 (feed_buf buf).1
unfolding feed_buf
feed_buf-IsCut buf = cut_frames-IsCut _ _ buf (omega arith) (omega arith)

-- From a ready framer, `Feed` cuts the buffered bytes and the chunk, in order, into frames of exactly
-- 2880 bytes and a shorter rest, which it keeps; no byte is lost, added or moved.
pub feed-IsCut :
    (f : PcmFramer) (chunk : List ℕ)
    → IsReady f
    → IsCut downlink_bytes_per_frame (f.buf ++ chunk) (feed f chunk).1 (feed f chunk).0.buf
unfolding feed flatten
feed-IsCut f [] ready = record { spells = sym (append-nil f.buf); whole = tt; short = ready }
feed-IsCut f (b ∷ chunk) ready = feed_buf-IsCut (f.buf ++ (b ∷ chunk))

-- A chunk may be split anywhere: two calls on its parts leave the same buffer, and give together the
-- same frames, as one call on the whole.
pub feed-append :
    (f : PcmFramer) (a b : List ℕ)
    → IsReady f
    → let first = feed f a in
      let second = feed first.0 b in
      ((feed f (a ++ b)).1 ≡ first.1 ++ second.1) × ((feed f (a ++ b)).0.buf ≡ second.0.buf)
feed-append f a b ready =
    let one = feed-IsCut f a ready in
    let two = feed-IsCut (feed f a).0 b one.short in
    IsCut-unique downlink_bytes_per_frame (f.buf ++ (a ++ b)) _ _ _ _ (feed-IsCut f (a ++ b) ready)
      (rw (← append_assoc f.buf a b)
        (IsCut-append downlink_bytes_per_frame (f.buf ++ a) b _ _ _ _ one two))

pad_frame_whole :
    (buf : List ℕ)
    → length buf < downlink_bytes_per_frame
    → length (buf ++ replicate (downlink_bytes_per_frame - length buf) 0) ≡ downlink_bytes_per_frame
pad_frame_whole buf h = omega (
  arith,
  length-append buf (replicate (downlink_bytes_per_frame - length buf) 0),
  length-replicate {0} {A = ℕ} (downlink_bytes_per_frame - length buf) 0,
)

pub flush_buf_pads :
    (buf : List ℕ)
    → length buf < downlink_bytes_per_frame
    → (pad : ℕ) × (flatten (flush_buf buf).1 ≡ buf ++ replicate pad 0)
      × (pad < downlink_bytes_per_frame)
      × All (λ (f : List ℕ). length f ≡ downlink_bytes_per_frame) (flush_buf buf).1
unfolding flush_buf flatten
flush_buf_pads [] h = (0, refl, omega arith, tt)
flush_buf_pads (b ∷ buf) h = (
  downlink_bytes_per_frame - length (b ∷ buf),
  unfold pad_frame in append-nil _,
  omega arith,
  (unfold pad_frame in pad_frame_whole (b ∷ buf) h, tt),
)

pub flush_buf_whole :
    (buf : List ℕ)
    → length buf < downlink_bytes_per_frame
    → (length (flush_buf buf).1 ≡ min 1 (length buf))
      × All (λ (f : List ℕ). length f ≡ downlink_bytes_per_frame) (flush_buf buf).1
      × ((flush_buf buf).0.buf ≡ [])
unfolding flush_buf pad_frame
flush_buf_whole [] h = (omega arith, tt, refl)
flush_buf_whole (b ∷ buf) h = (omega arith, (pad_frame_whole (b ∷ buf) h, tt), refl)

-- From a ready framer `Flush` empties the buffer and gives one frame if anything was buffered, else none;
-- a frame has exactly 2880 bytes.
pub flush_whole :
    (f : PcmFramer)
    → IsReady f
    → (length (flush f).1 ≡ min 1 (length f.buf))
      × All (λ (f : List ℕ). length f ≡ downlink_bytes_per_frame) (flush f).1
      × ((flush f).0.buf ≡ [])
unfolding flush
flush_whole f ready = flush_buf_whole f.buf ready
