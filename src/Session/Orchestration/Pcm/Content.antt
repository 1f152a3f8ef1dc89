-- ===== src/Session/Orchestration/Pcm/Content.antt =====
-- What the packets of a turn's speech hold: the frames of the whole stream, encoded one after the other.
use xiaozhi_esp32_golang_ser.Prelude.{
  ℕ, ◌<◌, ◌≡◌, refl, sym, ap, ◌∙◌, ◌||◌, true, Option, none, some, List, [], ◌∷◌, ◌++◌, length,
  replicate, false, flatten, All, append_assoc, append-nil, flatten-append, All-append, arith,
  Bool-cases, Option-cases, inl, inr, subst, if◌then◌else◌, ◌==◌,
}
use xiaozhi_esp32_golang_ser.Audio.Errors.{Result, ok}
use xiaozhi_esp32_golang_ser.Audio.Framer
use xiaozhi_esp32_golang_ser.Audio.Framer.{downlink_bytes_per_frame, new_pcm_framer}
use xiaozhi_esp32_golang_ser.Audio.Framer.Laws.{
  IsReady, new_pcm_framer-IsReady, feed-IsCut, flush_buf_pads, flush_buf_whole,
}
use xiaozhi_esp32_golang_ser.Audio.Encoder
use xiaozhi_esp32_golang_ser.Audio.Encoder.{
  Encoder, StreamEncoder, samples_of_pcm, encode, encode_live, encode_frames, packet_of, feed_live,
  flush_live, encode_all, new_encoder, new_stream_encoder, default_max_opus_packet_bytes,
}
use xiaozhi_esp32_golang_ser.Session.Pacer.{PacerError}
use xiaozhi_esp32_golang_ser.Session.Orchestration.Pcm.{
  Pcm, pcm_chunk, pcm_error, drained, Consumer, is_over, turn_over, seen_turn, seen, hand_over,
  break_off, fail_read, after_flush, end_of_stream, encode_chunk, read_pcm, consume_tts_pcm,
}
use xiaozhi_esp32_golang_ser.Session.Orchestration.Pcm.Laws.{
  Result-cases, encode_chunk_undrained, failed_read,
}

-- The speech that the stream gives.
abbrev pub speech : List Pcm → List ℕ
speech [] = []
speech (pcm_error f ∷ rest) = []
speech (pcm_chunk pcm ∷ rest) = pcm ++ speech rest

module _ {E : Type 0} (opus_encode : E → List ℕ → ℕ → E × Option (List ℕ)) where
  -- libopus makes the packets of the frames, one after the other, from one state to another.
  pub data Codes (limit : ℕ) : E → List (List ℕ) → List (List ℕ) → E → Type 0 where
    codes_none : {x : E} → Codes limit x [] [] x
    codes_one :
        {x y z : E} {frame packet : List ℕ} {frames packets : List (List ℕ)}
        → opus_encode x (samples_of_pcm frame) limit ≡ (y, some packet)
        → Codes limit y frames packets z
        → Codes limit x (frame ∷ frames) (packet ∷ packets) z

  Codes-append :
      (limit : ℕ) (frames : List (List ℕ)) (x y z : E) (packets more others : List (List ℕ))
      → Codes limit x frames packets y
      → Codes limit y more others z
      → Codes limit x (frames ++ more) (packets ++ others) z
  Codes-append limit [] x y z packets more others codes_none w = w
  Codes-append limit (f ∷ frames) x y z _ more others (codes_one {y = u} {packets = ps} e v) w =
      codes_one e (Codes-append limit frames u y z ps more others v w)

  -- A live encoder after the packets.
  record IsCoded (e : Encoder E) (x : E) (frames packets : List (List ℕ)) (e' : Encoder E)
      : Type 0 where
    after : E
    live : e'.enc ≡ some after
    same_limit : e'.max_packet_bytes ≡ e.max_packet_bytes
    coded : Codes e.max_packet_bytes x frames packets after

  encode_one :
      (e : Encoder E) (x : E) (frame packet : List ℕ)
      → e.enc ≡ some x
      → (encode opus_encode e frame).1 ≡ ok packet
      → (y : E) × ((encode opus_encode e frame).0 ≡ record e { enc = some y })
        × (opus_encode x (samples_of_pcm frame) e.max_packet_bytes ≡ (y, some packet))
  unfolding encode encode_live packet_of
  encode_one e x frame packet live sent =
      let coded = opus_encode x (samples_of_pcm frame) e.max_packet_bytes in
      elim (Option-cases coded.1) [
        | inl bad ↦ absurd (ground arith)
        | inr (p, good) ↦
            let same : p ≡ packet = ground arith in
            (coded.0, ground arith, ap (λ o. (coded.0, o)) (good ∙ ap some same))
      ]

  encode_frames-IsCoded :
      (e : Encoder E) (x : E) (frames packets : List (List ℕ))
      → e.enc ≡ some x
      → (encode_frames opus_encode e frames).1 ≡ ok packets
      → IsCoded e x frames packets (encode_frames opus_encode e frames).0
  unfolding encode_frames
  encode_frames-IsCoded e x [] packets live sent =
      let same : [] ≡ packets = ground arith in
      subst (λ ps. IsCoded e x [] ps e) same
        (record { after = x; live = live; same_limit = refl; coded = codes_none })
  encode_frames-IsCoded e x (frame ∷ frames) packets live sent =
      elim (Result-cases (encode opus_encode e frame).1) [
        | inl (packet, one) ↦
            let (y, there, coded) = encode_one e x frame packet live one in
            let e1 : Encoder E = (encode opus_encode e frame).0 in
            let limit : e1.max_packet_bytes ≡ e.max_packet_bytes =
              ap (λ z. z.max_packet_bytes) there in
            elim (Result-cases (encode_frames opus_encode e1 frames).1) [
              | inl (ps, rest) ↦
                  let ih = encode_frames-IsCoded e1 y frames ps (ap (λ z. z.enc) there) rest in
                  let same : packet ∷ ps ≡ packets = ground arith in
                  rw (one, encode_frames)
                    (subst
                      (λ l. IsCoded e x (frame ∷ frames) l (encode_frames opus_encode e1 frames).0)
                      same
                      (record {
                        after = ih.after;
                        live = ih.live;
                        same_limit = ih.same_limit ∙ limit;
                        coded =
                            codes_one coded
                              (subst (λ l. Codes l y frames ps ih.after) limit ih.coded);
                      }))
              | inr (bad, rest) ↦ absurd (ground arith)
            ]
        | inr (bad, one) ↦ absurd (ground arith)
      ]

  -- What the consumer has done with the speech so far: its whole frames are encoded and handed over, the rest
  -- waits in the framer.
  record Tells (x : E) (limit : ℕ) (told : List ℕ) (stream : StreamEncoder E)
      (handed : List (List ℕ)) : Type 0 where
    frames : List (List ℕ)
    spelt : flatten frames ++ stream.framer.buf ≡ told
    whole : All (λ (f : List ℕ). length f ≡ downlink_bytes_per_frame) frames
    short : IsReady stream.framer
    encoder : Encoder E
    there : stream.encoder ≡ some encoder
    same_limit : encoder.max_packet_bytes ≡ limit
    now : E
    live : encoder.enc ≡ some now
    coded : Codes limit x frames handed now

  abbrev IsTold : E → ℕ → List ℕ → Consumer E → Type 0
  IsTold x limit told c = Tells x limit told c.stream c.handed

  -- More frames, encoded and handed over.
  more-IsTold :
      (x : E) (limit : ℕ) (told more : List ℕ) (c c' : Consumer E) (e' : Encoder E)
      (frames packets : List (List ℕ))
      → (v : IsTold x limit told c) → IsCoded v.encoder v.now frames packets e'
      → flatten frames ++ c'.stream.framer.buf ≡ c.stream.framer.buf ++ more
      → All (λ (f : List ℕ). length f ≡ downlink_bytes_per_frame) frames
      → IsReady c'.stream.framer
      → c'.stream.encoder ≡ some e'
      → c'.handed ≡ c.handed ++ packets
      → IsTold x limit (told ++ more) c'
  more-IsTold x limit told more c c' e' frames packets v w spelt whole short there handed = record {
    frames = v.frames ++ frames;
    spelt =
        ap (λ l. l ++ c'.stream.framer.buf) (flatten-append v.frames frames)
        ∙ append_assoc (flatten v.frames) (flatten frames) c'.stream.framer.buf
        ∙ ap (λ l. flatten v.frames ++ l) spelt
        ∙ sym (append_assoc (flatten v.frames) c.stream.framer.buf more)
        ∙ ap (λ l. l ++ more) v.spelt;
    whole = All-append _ v.frames frames v.whole whole;
    short = short;
    encoder = e';
    there = there;
    same_limit = w.same_limit ∙ v.same_limit;
    now = w.after;
    live = w.live;
    coded =
        subst (λ l. Codes limit x (v.frames ++ frames) l w.after) (sym handed)
          (Codes-append limit v.frames x v.now w.after c.handed frames packets v.coded
            (subst (λ l. Codes l v.now frames packets w.after) v.same_limit w.coded));
  }

  module _ (enqueued : List (List ℕ) → List ℕ → Option PacerError) where
    hand_over_appends :
        (packets : List (List ℕ)) (c : Consumer E)
        → (hand_over opus_encode enqueued packets c).1 ≡ true
        → ((hand_over opus_encode enqueued packets c).0.handed ≡ c.handed ++ packets)
          × ((hand_over opus_encode enqueued packets c).0.stream ≡ c.stream)
    unfolding hand_over
    hand_over_appends [] c h = (sym (append-nil c.handed), refl)
    hand_over_appends (p ∷ ps) c h =
        let c' : Consumer E = record (seen_turn (seen_turn c)) { handed = c.handed ++ p ∷ [] } in
        elim (Bool-cases (turn_over c)) [
          | inl e ↦ absurd (ground arith)
          | inr e ↦ elim (Option-cases (enqueued c.handed p)) [
            | inl n ↦
                let (more, same) = hand_over_appends ps c' (ground arith) in
                (ground (arith, more, append_assoc c.handed (p ∷ []) ps), ground (arith, same))
            | inr (x, n) ↦ absurd (ground arith)
          ]
        ]

    -- What a call of the encoder gave is handed over.
    handed-IsTold :
        (x : E) (limit : ℕ) (told more : List ℕ) (c : Consumer E)
        (cut : Framer.PcmFramer × List (List ℕ)) (packets : List (List ℕ))
        → (v : IsTold x limit told c)
        → let done = encode_all opus_encode v.encoder cut in
          let c' : Consumer E = record c { stream = done.0 } in
          done.1 ≡ ok packets
          → flatten cut.1 ++ cut.0.buf ≡ c.stream.framer.buf ++ more
          → All (λ (f : List ℕ). length f ≡ downlink_bytes_per_frame) cut.1
          → IsReady cut.0
          → (hand_over opus_encode enqueued packets c').1 ≡ true
          → IsTold x limit (told ++ more) (hand_over opus_encode enqueued packets c').0
    unfolding encode_all
    handed-IsTold x limit told more c cut packets v sent spelt whole short taken =
        let done = encode_all opus_encode v.encoder cut in
        let c' : Consumer E = record c { stream = done.0 } in
        let (handed, same) = hand_over_appends packets c' taken in
        let coded = encode_frames-IsCoded v.encoder v.now cut.1 packets v.live sent in
        more-IsTold x limit told more c (hand_over opus_encode enqueued packets c').0 _ cut.1
          packets v coded (ap (λ s. flatten cut.1 ++ s.framer.buf) same ∙ spelt) whole
          (subst (λ s. IsReady s.framer) (sym same) short) (ap (λ s. s.encoder) same) handed

    -- The same, for a call that is `encode_all` of what the framer gave.
    call-IsTold :
        (x : E) (limit : ℕ) (told more : List ℕ) (c : Consumer E)
        (cut : Framer.PcmFramer × List (List ℕ)) (packets : List (List ℕ))
        (call : StreamEncoder E × Result (List (List ℕ)))
        → (v : IsTold x limit told c)
        → let c' : Consumer E = record c { stream = call.0 } in
          call ≡ encode_all opus_encode v.encoder cut
          → call.1 ≡ ok packets
          → flatten cut.1 ++ cut.0.buf ≡ c.stream.framer.buf ++ more
          → All (λ (f : List ℕ). length f ≡ downlink_bytes_per_frame) cut.1
          → IsReady cut.0
          → (hand_over opus_encode enqueued packets c').1 ≡ true
          → IsTold x limit (told ++ more) (hand_over opus_encode enqueued packets c').0
    call-IsTold x limit told more c cut packets call v same sent spelt whole short taken =
        let after : StreamEncoder E × Result (List (List ℕ)) → Consumer E =
          λ z. record c { stream = z.0 } in
        subst
          (λ z. IsTold x limit (told ++ more) (hand_over opus_encode enqueued packets (after z)).0)
          (sym same)
          (handed-IsTold x limit told more c cut packets v (ap (λ z. z.1) (sym same) ∙ sent) spelt
            whole short
            (subst (λ z. (hand_over opus_encode enqueued packets (after z)).1 ≡ true) same taken))

    encode_chunk-IsTold :
        (x : E) (limit : ℕ) (told pcm : List ℕ) (c : Consumer E)
        → IsTold x limit told c
        → (encode_chunk opus_encode enqueued pcm c).1 ≡ none
        → IsTold x limit (told ++ pcm) (encode_chunk opus_encode enqueued pcm c).0
    unfolding encode_chunk
    encode_chunk-IsTold x limit told [] c v h =
        subst (λ l. IsTold x limit l c) (sym (append-nil told)) v
    encode_chunk-IsTold x limit told (b ∷ pcm) c v h =
        let fed = Encoder.feed opus_encode c.stream (b ∷ pcm) in
        let cut = Framer.feed c.stream.framer (b ∷ pcm) in
        let spelt = feed-IsCut c.stream.framer (b ∷ pcm) v.short in
        elim (Result-cases fed.1) [
          | inl (packets, sent) ↦
              let c' : Consumer E = record c { stream = fed.0 } in
              elim (Bool-cases (hand_over opus_encode enqueued packets c').1) [
                | inl k ↦
                    rw (sent, encode_chunk)
                      (call-IsTold x limit told (b ∷ pcm) c cut packets fed v
                        (unfold Encoder.feed in rw (v.there, feed_live) refl) sent spelt.spells
                        spelt.whole spelt.short k)
                | inr k ↦ absurd (ground arith)
              ]
          | inr (bad, failed) ↦ absurd (unfold break_off in ground arith)
        ]

    -- The packets of a whole stream: its bytes, filled up with less than a frame of zeros, cut into frames, and
    -- the frames encoded one after the other by an encoder in state `x`.
    pub record IsSpeech (x : E) (limit : ℕ) (bytes : List ℕ) (packets : List (List ℕ))
        : Type 0 where
      pub frames : List (List ℕ)
      pub pad : ℕ
      pub spelt : flatten frames ≡ bytes ++ replicate pad 0
      pub padded : pad < downlink_bytes_per_frame
      pub whole : All (λ (f : List ℕ). length f ≡ downlink_bytes_per_frame) frames
      pub last : E
      pub coded : Codes limit x frames packets last

    flushed_frames :
        (f : Framer.PcmFramer)
        → IsReady f
        → (pad : ℕ) × (flatten (Framer.flush f).1 ++ (Framer.flush f).0.buf
            ≡ f.buf ++ replicate pad 0)
          × (pad < downlink_bytes_per_frame)
          × All (λ (g : List ℕ). length g ≡ downlink_bytes_per_frame) (Framer.flush f).1
          × ((Framer.flush f).0.buf ≡ [])
    unfolding Framer.flush
    flushed_frames f ready =
        let (pad, spells, less, whole) = flush_buf_pads f.buf ready in
        let (count, sized, empty) = flush_buf_whole f.buf ready in
        (pad, rw empty (append-nil _ ∙ spells), less, whole, empty)

    Tells-IsSpeech :
        (x : E) (limit pad : ℕ) (told : List ℕ) (c : Consumer E)
        → IsTold x limit (told ++ replicate pad 0) c
        → pad < downlink_bytes_per_frame
        → c.stream.framer.buf ≡ []
        → IsSpeech x limit told c.handed
    Tells-IsSpeech x limit pad told c v less empty = record {
      frames = v.frames;
      pad = pad;
      spelt =
          sym (append-nil (flatten v.frames))
          ∙ ap (λ l. flatten v.frames ++ l) (sym empty)
          ∙ v.spelt;
      padded = less;
      whole = v.whole;
      last = v.now;
      coded = v.coded;
    }

    end_of_stream-IsSpeech :
        (x : E) (limit : ℕ) (told : List ℕ) (c : Consumer E)
        → IsTold x limit told c
        → is_over c ≡ false
        → (end_of_stream opus_encode enqueued c).1 ≡ drained
        → IsSpeech x limit told (end_of_stream opus_encode enqueued c).0.handed
    unfolding end_of_stream after_flush
    end_of_stream-IsSpeech x limit told c v going h =
        let flushed = Encoder.flush opus_encode c.stream in
        let cut = Framer.flush c.stream.framer in
        let (pad, spelt, less, whole, empty) = flushed_frames c.stream.framer v.short in
        let same : flushed ≡ encode_all opus_encode v.encoder cut =
          unfold Encoder.flush in rw (v.there, flush_live) refl in
        let short : IsReady cut.0 = rw empty (omega arith) in
        elim (Result-cases flushed.1) [
          | inl (packets, sent) ↦
              let c' : Consumer E = record (seen c) { stream = flushed.0 } in
              elim (Bool-cases (hand_over opus_encode enqueued packets c').1) [
                | inl k ↦
                    let told' =
                      call-IsTold x limit told (replicate pad 0) (seen c) cut packets flushed v same
                        sent spelt whole short k in
                    let in_frame : flushed.0.framer.buf ≡ cut.0.buf =
                      unfold encode_all in ap (λ z. z.0.framer.buf) same in
                    let left_none =
                      ap (λ s. s.framer.buf) (hand_over_appends packets c' k).1
                      ∙ in_frame
                      ∙ empty in
                    let spoken =
                      Tells-IsSpeech x limit pad told (hand_over opus_encode enqueued packets c').0
                        told' less left_none in
                    rw going (rw (sent, after_flush) (rw k spoken))
                | inr k ↦ absurd (ground arith)
              ]
          | inr (bad, failed) ↦ absurd (unfold break_off in ground arith)
        ]

    read_pcm-IsSpeech :
        (x : E) (limit : ℕ) (rest : List Pcm) (told : List ℕ) (c : Consumer E)
        → IsTold x limit told c
        → (read_pcm opus_encode enqueued rest c).1 ≡ drained
        → IsSpeech x limit (told ++ speech rest) (read_pcm opus_encode enqueued rest c).0.handed
    unfolding read_pcm fail_read
    read_pcm-IsSpeech x limit [] told c v h = elim (Bool-cases (is_over c)) [
      | inl e ↦ absurd (ground arith)
      | inr e ↦
          let ended : (end_of_stream opus_encode enqueued (seen c)).1 ≡ drained = ground arith in
          rw (e, append-nil told)
            (elim (Bool-cases (is_over (seen c))) [
              | inl f ↦ absurd (unfold end_of_stream in ground arith)
              | inr f ↦ end_of_stream-IsSpeech x limit told (seen c) v f ended
            ])
    ]
    read_pcm-IsSpeech x limit (pcm_error f ∷ rest) told c v h =
        absurd (failed_read opus_encode enqueued f c h)
    read_pcm-IsSpeech x limit (pcm_chunk pcm ∷ rest) told c v h =
        elim (Bool-cases (is_over c || is_over (seen c))) [
          | inl e ↦ absurd (ground arith)
          | inr e ↦
              let c' : Consumer E = seen (seen c) in
              let step = encode_chunk opus_encode enqueued pcm c' in
              elim (Option-cases step.1) [
                | inl k ↦
                    let next = encode_chunk-IsTold x limit told pcm c' v k in
                    let ended : (read_pcm opus_encode enqueued rest step.0).1 ≡ drained =
                      ground arith in
                    let same : (read_pcm opus_encode enqueued rest step.0).0.handed
                        ≡ (read_pcm opus_encode enqueued (pcm_chunk pcm ∷ rest) c).0.handed =
                      ground arith in
                    subst (IsSpeech x limit (told ++ (pcm ++ speech rest))) same (
                      subst
                        (λ l.
                          IsSpeech x limit l (read_pcm opus_encode enqueued rest step.0).0.handed)
                        (append_assoc told pcm (speech rest))
                        (read_pcm-IsSpeech x limit rest (told ++ pcm) step.0 next ended))
                | inr (ending, k) ↦
                    absurd (ground (arith, encode_chunk_undrained opus_encode enqueued pcm c'))
              ]
        ]

    -- If the stream was drained, the packets handed over are those of its speech: the bytes, filled up with less
    -- than a frame of zeros, in frames of 60 ms, encoded one after the other by an encoder that was made for
    -- the turn.
    pub consume_tts_pcm-IsSpeech :
        (x : E) (max_opus_packet_bytes : ℕ) (ctx_left turn_left : Option ℕ) (rest : List Pcm)
        → let consumed =
            consume_tts_pcm opus_encode enqueued
              (some x)
              max_opus_packet_bytes
              ctx_left
              turn_left
              rest in
          consumed.1 ≡ drained
          → IsSpeech x
              (if max_opus_packet_bytes == 0
                then default_max_opus_packet_bytes
                else max_opus_packet_bytes)
              (speech rest)
              consumed.0.handed
    unfolding consume_tts_pcm new_encoder new_stream_encoder new_pcm_framer flatten
    consume_tts_pcm-IsSpeech x max_opus_packet_bytes ctx_left turn_left rest h =
        let begun : Consumer E = record {
          ctx_left = ctx_left;
          turn_left = turn_left;
          stream = new_stream_encoder (new_encoder (some x) max_opus_packet_bytes);
          handed = [];
          reported = [];
        } in
        read_pcm-IsSpeech x _ rest [] begun
          (record {
            frames = [];
            spelt = refl;
            whole = tt;
            short = new_pcm_framer-IsReady;
            encoder = _;
            there = refl;
            same_limit = refl;
            now = x;
            live = refl;
            coded = codes_none;
          })
          h
