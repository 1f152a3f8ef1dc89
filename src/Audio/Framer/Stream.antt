-- ===== src/Audio/Framer/Stream.antt =====
-- The framer over a whole stream of chunks, the way `consumeTTSPCM` drives it: `Feed` for each chunk,
-- then `Flush`.
use xiaozhi_esp32_golang_ser.Prelude.{
  ℕ, ◌<◌, ◌≡◌, sym, ap, ◌∙◌, List, [], ◌∷◌, ◌++◌, length, replicate, append_assoc, append-nil,
  flatten, All, flatten-append, All-append,
}
use xiaozhi_esp32_golang_ser.Audio.Framer.{
  PcmFramer, new_pcm_framer, downlink_bytes_per_frame, feed, flush,
}
use xiaozhi_esp32_golang_ser.Audio.Framer.Cut.{IsCut, IsCut-unique, IsCut-append}
use xiaozhi_esp32_golang_ser.Audio.Framer.Laws.{
  IsReady, new_pcm_framer-IsReady, feed-IsCut, flush_buf_pads,
}

-- All the frames that a list of chunks gives, and the framer after them.
unfoldable pub feed_all : PcmFramer → List (List ℕ) → PcmFramer × List (List ℕ)
feed_all f [] = (f, [])
feed_all f (c ∷ cs) =
    let one = feed f c in let more = feed_all one.0 cs in (more.0, one.1 ++ more.1)

feed_all-IsCut :
    (f : PcmFramer) (cs : List (List ℕ))
    → IsReady f
    → IsCut downlink_bytes_per_frame (f.buf ++ flatten cs) (feed_all f cs).1 (feed_all f cs).0.buf
unfolding feed_all flatten
feed_all-IsCut f [] ready = record { spells = sym (append-nil f.buf); whole = tt; short = ready }
feed_all-IsCut f (c ∷ cs) ready =
    let one = feed-IsCut f c ready in
    rw (← append_assoc f.buf c (flatten cs)) (
      IsCut-append downlink_bytes_per_frame (f.buf ++ c) (flatten cs) _ _ _ _ one
        (feed_all-IsCut (feed f c).0 cs one.short))

-- Only the bytes of the stream matter, not how they arrive: two ways to chunk one stream give the same
-- frames and leave the same rest.
pub feed_all_rechunk :
    (cs ds : List (List ℕ))
    → flatten cs ≡ flatten ds
    → ((feed_all new_pcm_framer cs).1 ≡ (feed_all new_pcm_framer ds).1)
      × ((feed_all new_pcm_framer cs).0.buf ≡ (feed_all new_pcm_framer ds).0.buf)
feed_all_rechunk cs ds e =
    IsCut-unique downlink_bytes_per_frame (new_pcm_framer.buf ++ flatten cs) _ _ _ _
      (feed_all-IsCut new_pcm_framer cs new_pcm_framer-IsReady)
      (rw e (feed_all-IsCut new_pcm_framer ds new_pcm_framer-IsReady))

-- A stream fed to a new framer and flushed comes out as the bytes of the stream followed by zeros that
-- number less than a frame, in frames of exactly 2880 bytes.
pub stream_frames :
    (cs : List (List ℕ))
    → let done = feed_all new_pcm_framer cs in
      let frames = done.1 ++ (flush done.0).1 in
      (pad : ℕ) × (flatten frames ≡ flatten cs ++ replicate pad 0)
      × (pad < downlink_bytes_per_frame)
      × All (λ (f : List ℕ). length f ≡ downlink_bytes_per_frame) frames
unfolding flush new_pcm_framer
stream_frames cs =
    let fed = feed_all-IsCut new_pcm_framer cs new_pcm_framer-IsReady in
    let (pad, spells, short, whole) = flush_buf_pads (feed_all new_pcm_framer cs).0.buf fed.short in
    (
      pad,
      flatten-append (feed_all new_pcm_framer cs).1 _
          ∙ ap (◌++◌ _) spells
          ∙ sym (
              append_assoc (flatten (feed_all new_pcm_framer cs).1)
                (feed_all new_pcm_framer cs).0.buf (replicate pad 0))
          ∙ ap (λ s. s ++ replicate pad 0) fed.spells,
      short,
      All-append _ (feed_all new_pcm_framer cs).1 _ fed.whole whole,
    )
