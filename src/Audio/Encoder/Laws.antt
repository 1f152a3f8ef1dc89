-- ===== src/Audio/Encoder/Laws.antt =====
-- The stream encoder hands libopus whole frames only.
use xiaozhi_esp32_golang_ser.Prelude.{
  ℕ, suc, ◌+◌, ◌*◌, flatten, length-append, ◌≡◌, refl, ap, subst, ◌⊎◌, inl, inr, Option, none, some,
  List, [], ◌∷◌, length, arith, All, min,
}
use xiaozhi_esp32_golang_ser.Audio.Errors.{Result, ok, err, map_ok, encode_failed}
use xiaozhi_esp32_golang_ser.Audio.Framer
use xiaozhi_esp32_golang_ser.Audio.Framer.{downlink_bytes_per_frame}
use xiaozhi_esp32_golang_ser.Audio.Framer.Laws.{IsReady, feed-IsCut, flush_whole}
use xiaozhi_esp32_golang_ser.Audio.Encoder.{
  Encoder, StreamEncoder, encode, encode_frames, feed, flush, packet_of, encode_live, feed_live,
  flush_live, encode_all,
}

abbrev IsWhole : List ℕ → Type 0
IsWhole frame = length frame ≡ downlink_bytes_per_frame

-- What a call on whole frames may return: Opus's own error, or one packet for each frame.
abbrev pub PacketsFor : ℕ → Result (List (List ℕ)) → Type 0
PacketsFor n (ok packets) = length packets ≡ n
PacketsFor n (err e) = e ≡ encode_failed

PacketsFor-cons :
    (n : ℕ) (packet : List ℕ) (r : Result (List (List ℕ)))
    → PacketsFor n r
    → PacketsFor (suc n) (map_ok (λ packets. packet ∷ packets) r)
PacketsFor-cons n packet (ok packets) h = omega arith
PacketsFor-cons n packet (err e) h = h

module _ {E : Type 0} (opus_encode : E → List ℕ → ℕ → E × Option (List ℕ)) where
  -- What a call does to a live encoder: it stays live, and only Opus may refuse.
  abbrev Answers : Encoder E × Result (List ℕ) → Type 0
  Answers r =
      ((y : E) × (r.0.enc ≡ some y))
      × ((r.1 ≡ err encode_failed) ⊎ ((packet : List ℕ) × (r.1 ≡ ok packet)))

  packet_of-Answers :
      (e : Encoder E) (r : E × Option (List ℕ)) → Answers (packet_of opus_encode e r)
  unfolding packet_of
  packet_of-Answers e (next, none) = ((next, refl), inl refl)
  packet_of-Answers e (next, some packet) = ((next, refl), inr (packet, refl))

  encode_whole :
      (e : Encoder E) (x : E) (frame : List ℕ)
      → e.enc ≡ some x
      → IsWhole frame
      → Answers (encode opus_encode e frame)
  unfolding encode
  encode_whole e x frame live whole =
      rw (live, encode_live) (rw (whole, encode_live) (packet_of-Answers e _))

  encode_frames-PacketsFor :
      (e : Encoder E) (x : E) (frames : List (List ℕ))
      → e.enc ≡ some x
      → All IsWhole frames
      → PacketsFor (length frames) (encode_frames opus_encode e frames).1
  unfolding encode_frames
  encode_frames-PacketsFor e x [] live whole = refl
  encode_frames-PacketsFor e x (frame ∷ frames) live whole =
      let ((y, alive), answer) = encode_whole e x frame live whole.0 in
      elim answer [
        | inl failed ↦ rw (failed, encode_frames) refl
        | inr (packet, sent) ↦
            rw (sent, encode_frames)
              (PacketsFor-cons _ packet _
                (encode_frames-PacketsFor (encode opus_encode e frame).0 y frames alive whole.1))
      ]

  encode_frames-live :
      (e : Encoder E) (x : E) (frames : List (List ℕ))
      → e.enc ≡ some x
      → All IsWhole frames
      → (y : E) × ((encode_frames opus_encode e frames).0.enc ≡ some y)
  unfolding encode_frames
  encode_frames-live e x [] live whole = (x, live)
  encode_frames-live e x (frame ∷ frames) live whole =
      let ((y, alive), answer) = encode_whole e x frame live whole.0 in
      elim answer [
        | inl failed ↦ rw (failed, encode_frames) (y, alive)
        | inr (packet, sent) ↦
            rw (sent, encode_frames)
              (encode_frames-live (encode opus_encode e frame).0 y frames alive whole.1)
      ]

  -- From a stream encoder whose encoder is live and whose framer holds less than a frame, `Feed` gives
  -- one packet for each frame that the framer cuts, or fails with Opus's own error; it never reports a
  -- closed encoder or a frame of the wrong size. Less than a frame stays buffered in both cases.
  pub feed-PacketsFor :
      (s : StreamEncoder E) (e : Encoder E) (x : E) (chunk : List ℕ)
      → s.encoder ≡ some e
      → e.enc ≡ some x
      → IsReady s.framer
      → PacketsFor (length (Framer.feed s.framer chunk).1) (feed opus_encode s chunk).1
        × IsReady (feed opus_encode s chunk).0.framer
  unfolding feed
  feed-PacketsFor s e x chunk here live ready =
      let cut = feed-IsCut s.framer chunk ready in
      rw (here, feed_live) (encode_frames-PacketsFor e x _ live cut.whole, cut.short)

  -- Under the same conditions `Flush` gives at most one packet, none exactly when nothing is buffered,
  -- or fails with Opus's own error; afterwards nothing is buffered.
  pub flush-PacketsFor :
      (s : StreamEncoder E) (e : Encoder E) (x : E)
      → s.encoder ≡ some e
      → e.enc ≡ some x
      → IsReady s.framer
      → PacketsFor (min 1 (length s.framer.buf)) (flush opus_encode s).1
        × ((flush opus_encode s).0.framer.buf ≡ [])
  unfolding flush
  flush-PacketsFor s e x here live ready =
      let (count, whole, empty) = flush_whole s.framer ready in
      rw (here, flush_live) (rw (← count) (encode_frames-PacketsFor e x _ live whole), empty)

  -- Its encoder is live, and its framer holds less than a frame.
  pub record IsLive (s : StreamEncoder E) : Type 0 where
    pub encoder : (e : Encoder E) × (s.encoder ≡ some e) × ((x : E) × (e.enc ≡ some x))
    pub ready : IsReady s.framer

  pub feed-IsLive :
      (s : StreamEncoder E) (chunk : List ℕ) → IsLive s → IsLive (feed opus_encode s chunk).0
  unfolding feed encode_all
  feed-IsLive s chunk v =
      let (e, here, (x, live)) = v.encoder in
      let cut = feed-IsCut s.framer chunk v.ready in
      rw (here, feed_live)
        (record { encoder = (_, refl, encode_frames-live e x _ live cut.whole); ready = cut.short })

  length-flatten :
      (frames : List (List ℕ))
      → All IsWhole frames
      → length (flatten frames) ≡ downlink_bytes_per_frame * length frames
  unfolding flatten
  length-flatten [] h = omega arith
  length-flatten (f ∷ fs) h =
      omega (arith, length-append f (flatten fs), length-flatten fs h.1, h.0)

  -- The bytes that come in are those of the packets' frames, but for what stays buffered.
  pub feed_bytes :
      (s : StreamEncoder E) (chunk : List ℕ) (packets : List (List ℕ))
      → IsLive s
      → (feed opus_encode s chunk).1 ≡ ok packets
      → downlink_bytes_per_frame * length packets + length (feed opus_encode s chunk).0.framer.buf
        ≡ length s.framer.buf + length chunk
  unfolding feed encode_all
  feed_bytes s chunk packets v sent =
      let (e, here, (x, live)) = v.encoder in
      let cut = feed-IsCut s.framer chunk v.ready in
      let counted = feed-PacketsFor s e x chunk here live v.ready in
      let frames = (Framer.feed s.framer chunk).1 in
      let same : length packets ≡ length frames =
        subst (PacketsFor (length frames)) sent counted.0 in
      let kept : (feed opus_encode s chunk).0.framer.buf ≡ (Framer.feed s.framer chunk).0.buf =
        rw (here, feed_live) refl in
      let spelt = ap length cut.spells in
      rw kept (
        omega (
          arith,
          same,
          spelt,
          length-flatten frames cut.whole,
          length-append s.framer.buf chunk,
          length-append (flatten frames) (Framer.feed s.framer chunk).0.buf,
        ))
