-- ===== src/Session/Orchestration/Pcm/Laws.antt =====
-- Every frame of a turn's speech becomes one packet.
use xiaozhi_esp32_golang_ser.Prelude.{
  ℕ, ◌+◌, ◌*◌, ◌≤◌, ◌<◌, ◌≡◌, ◌≢◌, if◌then◌else◌, ◌||◌, ◌⊎◌, refl, true, Option, none, some, List,
  [], ◌∷◌, ◌++◌, length, min, length-append, arith, Bool-cases, Option-cases, inl, inr, subst,
}
use xiaozhi_esp32_golang_ser.Audio.Errors.{AudioError, Result, ok, err}
use xiaozhi_esp32_golang_ser.Audio.Framer.{downlink_bytes_per_frame, new_pcm_framer}
use xiaozhi_esp32_golang_ser.Audio.Framer.Laws.{new_pcm_framer-IsReady}
use xiaozhi_esp32_golang_ser.Audio.Encoder
use xiaozhi_esp32_golang_ser.Audio.Encoder.{new_encoder, new_stream_encoder}
use xiaozhi_esp32_golang_ser.Audio.Encoder.Laws.{
  PacketsFor, IsLive, feed-IsLive, feed_bytes, flush-PacketsFor,
}
use xiaozhi_esp32_golang_ser.Session.Pacer.{PacerError}
use xiaozhi_esp32_golang_ser.Session.Orchestration.{Failure, canceled}
use xiaozhi_esp32_golang_ser.Session.Orchestration.Pcm.{
  Pcm, pcm_chunk, pcm_error, drained, left, Consumer, is_over, turn_over, seen_turn, seen,
  hand_over, break_off, fail_read, after_flush, end_of_stream, encode_chunk, read_pcm,
  consume_tts_pcm,
}

-- The bytes of speech that the stream gives.
abbrev pub pcm_bytes : List Pcm → ℕ
pcm_bytes [] = 0
pcm_bytes (pcm_error f ∷ rest) = 0
pcm_bytes (pcm_chunk pcm ∷ rest) = length pcm + pcm_bytes rest

pub Result-cases :
    {A : Type 0} (r : Result A) → ((a : A) × (r ≡ ok a)) ⊎ ((e : AudioError) × (r ≡ err e))
Result-cases (ok a) = inl (a, refl)
Result-cases (err e) = inr (e, refl)

module _ {E : Type 0} (opus_encode : E → List ℕ → ℕ → E × Option (List ℕ))
    (enqueued : List (List ℕ) → List ℕ → Option PacerError) where
  -- The bytes that the packets handed over stand for, and those that wait for their frame.
  taken : Consumer E → ℕ
  taken c = downlink_bytes_per_frame * length c.handed + length c.stream.framer.buf

  hand_over_counts :
      (packets : List (List ℕ)) (c : Consumer E)
      → (hand_over opus_encode enqueued packets c).1 ≡ true
      → (length (hand_over opus_encode enqueued packets c).0.handed
          ≡ length c.handed + length packets)
        × ((hand_over opus_encode enqueued packets c).0.stream ≡ c.stream)
  unfolding hand_over
  hand_over_counts [] c h = (omega arith, refl)
  hand_over_counts (p ∷ ps) c h =
      let c' : Consumer E = record (seen_turn (seen_turn c)) { handed = c.handed ++ p ∷ [] } in
      elim (Bool-cases (turn_over c)) [
        | inl e ↦ ground arith
        | inr e ↦ elim (Option-cases (enqueued c.handed p)) [
          | inl n ↦ ground (arith, hand_over_counts ps c', length-append c.handed (p ∷ []))
          | inr (x, n) ↦ ground arith
        ]
      ]

  encode_chunk_counts :
      (pcm : List ℕ) (c : Consumer E)
      → IsLive opus_encode c.stream
      → (encode_chunk opus_encode enqueued pcm c).1 ≡ none
      → IsLive opus_encode (encode_chunk opus_encode enqueued pcm c).0.stream
        × (taken (encode_chunk opus_encode enqueued pcm c).0 ≡ taken c + length pcm)
  unfolding encode_chunk taken
  encode_chunk_counts [] c v h = (v, omega arith)
  encode_chunk_counts (b ∷ pcm) c v h =
      let fed = Encoder.feed opus_encode c.stream (b ∷ pcm) in
      let live = feed-IsLive opus_encode c.stream (b ∷ pcm) v in
      elim (Result-cases fed.1) [
        | inl (packets, e) ↦
            let c' : Consumer E = record c { stream = fed.0 } in
            elim (Bool-cases (hand_over opus_encode enqueued packets c').1) [
              | inl k ↦
                  let (more, same) = hand_over_counts packets c' k in
                  ground
                    (arith, more, same, live, feed_bytes opus_encode c.stream (b ∷ pcm) packets v e)
              | inr k ↦ ground arith
            ]
        | inr (x, e) ↦ ground arith
      ]

  -- The packets that the rest of the stream brings, if it is drained.
  end_of_stream_counts :
      (c : Consumer E)
      → IsLive opus_encode c.stream
      → (end_of_stream opus_encode enqueued c).1 ≡ drained
      → length (end_of_stream opus_encode enqueued c).0.handed
        ≡ length c.handed + min 1 (length c.stream.framer.buf)
  unfolding end_of_stream after_flush break_off
  end_of_stream_counts c v h =
      let flushed = Encoder.flush opus_encode c.stream in
      let (e, here, (x, live)) = v.encoder in
      let counted = flush-PacketsFor opus_encode c.stream e x here live v.ready in
      elim (Result-cases flushed.1) [
        | inl (packets, sent) ↦
            let c' : Consumer E = record (seen c) { stream = flushed.0 } in
            let same : length packets ≡ min 1 (length c.stream.framer.buf) =
              subst (PacketsFor (min 1 (length c.stream.framer.buf))) sent counted.0 in
            elim (Bool-cases (hand_over opus_encode enqueued packets c').1) [
              | inl k ↦ ground (arith, hand_over_counts packets c' k, same)
              | inr k ↦ ground arith
            ]
        | inr (x, failed) ↦ ground arith
      ]

  -- The packets are those of whole frames, the last one filled up.
  abbrev pub Fills : ℕ → List (List ℕ) → Type 0
  Fills bytes packets =
      (bytes ≤ downlink_bytes_per_frame * length packets)
      × (downlink_bytes_per_frame * length packets < bytes + downlink_bytes_per_frame)

  pub failed_read :
      (f : Failure) (c : Consumer E)
      → (if is_over c then (seen c, left) else fail_read f (seen c)).1 ≢ drained
  unfolding fail_read
  failed_read canceled c = λ h. ground arith
  failed_read f c = λ h. ground arith

  pub encode_chunk_undrained :
      (pcm : List ℕ) (c : Consumer E) → (encode_chunk opus_encode enqueued pcm c).1 ≢ some drained
  unfolding encode_chunk break_off
  encode_chunk_undrained [] c = λ h. cc
  encode_chunk_undrained (b ∷ pcm) c =
      elim (Result-cases (Encoder.feed opus_encode c.stream (b ∷ pcm)).1) [
        | inl (packets, e) ↦ λ h. ground arith
        | inr (x, e) ↦ λ h. ground arith
      ]

  filled :
      (n b m : ℕ)
      → m ≡ n + min 1 b
      → b < downlink_bytes_per_frame
      → (downlink_bytes_per_frame * n + b ≤ downlink_bytes_per_frame * m)
        × (downlink_bytes_per_frame * m
            < downlink_bytes_per_frame * n + b + downlink_bytes_per_frame)
  filled n b m h r = (omega arith, omega arith)

  read_pcm-Fills :
      (rest : List Pcm) (c : Consumer E)
      → IsLive opus_encode c.stream
      → (read_pcm opus_encode enqueued rest c).1 ≡ drained
      → Fills (taken c + pcm_bytes rest) (read_pcm opus_encode enqueued rest c).0.handed
  unfolding read_pcm taken fail_read
  read_pcm-Fills [] c v h = elim (Bool-cases (is_over c)) [
    | inl e ↦ ground arith
    | inr e ↦
        let ended : (end_of_stream opus_encode enqueued (seen c)).1 ≡ drained = ground arith in
        let counted = end_of_stream_counts (seen c) v' ended in
        let ready = v.ready in
        ground (
          arith,
          filled (length c.handed) (length c.stream.framer.buf)
              (length (end_of_stream opus_encode enqueued (seen c)).0.handed) counted v.ready,
        )
  ]
    where
      v' : IsLive opus_encode (seen c).stream
      v' = v
  read_pcm-Fills (pcm_error f ∷ rest) c v h = absurd (failed_read f c h)
  read_pcm-Fills (pcm_chunk pcm ∷ rest) c v h = elim (Bool-cases (is_over c || is_over (seen c))) [
    | inl e ↦ ground arith
    | inr e ↦
        let c' : Consumer E = seen (seen c) in
        let step = encode_chunk opus_encode enqueued pcm c' in
        elim (Option-cases step.1) [
          | inl k ↦
              let (live, more) = encode_chunk_counts pcm c' v k in
              ground (arith, more, read_pcm-Fills rest step.0 live)
          | inr (ending, k) ↦ ground (arith, encode_chunk_undrained pcm c')
        ]
  ]

  -- If the stream was drained, its speech was handed over in one packet for each 60 ms of it, the last of
  -- them filled up.
  pub consume_tts_pcm-Fills :
      (made : Option E) (max_opus_packet_bytes : ℕ) (ctx_left turn_left : Option ℕ)
      (rest : List Pcm)
      → (consume_tts_pcm opus_encode enqueued made max_opus_packet_bytes ctx_left turn_left rest).1
        ≡ drained
      → Fills
          (pcm_bytes rest)
          (consume_tts_pcm opus_encode enqueued made max_opus_packet_bytes ctx_left turn_left
            rest).0.handed
  unfolding consume_tts_pcm taken new_encoder new_stream_encoder new_pcm_framer
  consume_tts_pcm-Fills none max_opus_packet_bytes ctx_left turn_left rest h = absurd cc
  consume_tts_pcm-Fills (some e) max_opus_packet_bytes ctx_left turn_left rest h =
      let (least, most) =
        read_pcm-Fills rest _
          (record { encoder = (_, refl, (e, refl)); ready = new_pcm_framer-IsReady }) h in
      (omega (arith, least), omega (arith, most))
