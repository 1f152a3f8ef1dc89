-- ===== src/Session/Orchestration/Pcm.antt =====
-- `consumeTTSPCM` of internal/session/orchestration.go: the goroutine that encodes the speech of a turn
-- and hands its packets to the pacer. What the TTS stream and the pacer answer is its input; the checks of the
-- turn are counted as those of the answering goroutine. The callback on a packet, which only tests set, is
-- left out, but for its look at the generation.
pub mod Laws
pub mod Content
use xiaozhi_esp32_golang_ser.Prelude.{
  ℕ, Bool, true, false, ◌||◌, Option, none, some, List, [], ◌∷◌, ◌++◌, if◌then◌else◌,
}
use xiaozhi_esp32_golang_ser.Audio.Errors.{AudioError, Result, ok, err}
use xiaozhi_esp32_golang_ser.Audio.Encoder
use xiaozhi_esp32_golang_ser.Audio.Encoder.{StreamEncoder, new_encoder, new_stream_encoder}
use xiaozhi_esp32_golang_ser.Session.Pacer.{PacerError}
use xiaozhi_esp32_golang_ser.Session.Orchestration.{
  Failure, canceled, failed, PcmDone, pcm_ok, pcm_failed, count_down, is_spent,
}

-- What `NextPCM` gives; the end of the list is io.EOF.
pub data Pcm : Type 0 where
  pcm_chunk : List ℕ → Pcm
  pcm_error : Failure → Pcm

pub data PcmError : Type 0 where
  no_encoder : PcmError
  from_encoder : AudioError → PcmError
  from_stream : Failure → PcmError

-- It drained the stream, left because the turn is over or the pacer refused, or failed.
pub data Ending : Type 0 where
  drained left broken : Ending

-- What the answering goroutine is told: a consumer that only left reports no error.
unfoldable pub pcm_done_of : Ending → PcmDone
pcm_done_of drained = pcm_ok
pcm_done_of left = pcm_ok
pcm_done_of broken = pcm_failed

pub record Consumer (E : Type 0) : Type 0 where
  pub ctx_left : Option ℕ
  pub turn_left : Option ℕ
  pub stream : StreamEncoder E
  pub handed : List (List ℕ)
  pub reported : List PcmError

module _ {E : Type 0} where
  abbrev pub turn_over : Consumer E → Bool
  turn_over c = is_spent c.turn_left

  abbrev pub is_over : Consumer E → Bool
  is_over c = is_spent c.ctx_left || is_spent c.turn_left

  abbrev pub seen_turn : Consumer E → Consumer E
  seen_turn c = record c { turn_left = count_down c.turn_left }

  abbrev pub seen : Consumer E → Consumer E
  seen c = record c { ctx_left = count_down c.ctx_left; turn_left = count_down c.turn_left }

  unfoldable pub report : PcmError → Consumer E → Consumer E
  report e c = record c { reported = c.reported ++ e ∷ [] }

  -- An error of the encoder, which the turn's end only silences.
  unfoldable pub break_off : PcmError → Consumer E → Consumer E × Ending
  unfolding report
  break_off e c = if is_over c then (seen c, broken) else (report e (seen c), broken)

  -- An error of the stream, which the turn's end excuses.
  unfoldable pub fail_read : Failure → Consumer E → Consumer E × Ending
  unfolding report
  fail_read canceled c = (c, left)
  fail_read f c = if is_over c then (seen c, left) else (report (from_stream f) (seen c), broken)

module _ {E : Type 0} (opus_encode : E → List ℕ → ℕ → E × Option (List ℕ))
    (enqueued : List (List ℕ) → List ℕ → Option PacerError) where
  -- The packets of one call, each after two looks at the generation; whether all were taken.
  unfoldable pub hand_over : List (List ℕ) → Consumer E → Consumer E × Bool
  hand_over [] c = (c, true)
  hand_over (packet ∷ packets) c = elim (turn_over c) [
    | true ↦ (seen_turn c, false)
    | false ↦ elim (enqueued c.handed packet) [
      | some e ↦ (seen_turn (seen_turn c), false)
      | none ↦
          hand_over packets (record (seen_turn (seen_turn c)) { handed = c.handed ++ packet ∷ [] })
    ]
  ]

  unfoldable pub after_flush :
      Consumer E → StreamEncoder E × Result (List (List ℕ)) → Consumer E × Ending
  unfolding hand_over break_off
  after_flush c (stream, err e) = break_off (from_encoder e) (record c { stream = stream })
  after_flush c (stream, ok packets) =
      let handed = hand_over packets (record c { stream = stream }) in
      if handed.1 then (handed.0, drained) else (handed.0, left)

  unfoldable pub end_of_stream : Consumer E → Consumer E × Ending
  unfolding after_flush
  end_of_stream c =
      if is_over c
      then (seen c, left)
      else after_flush (seen c) (Encoder.flush opus_encode c.stream)

  -- A chunk that is not empty: the packets that it completes; `none` to go on.
  unfoldable pub encode_chunk : List ℕ → Consumer E → Consumer E × Option Ending
  unfolding hand_over break_off
  encode_chunk [] c = (c, none)
  encode_chunk (b ∷ pcm) c =
      let fed = Encoder.feed opus_encode c.stream (b ∷ pcm) in
      elim fed.1 [
        | err e ↦
            let broke = break_off (from_encoder e) (record c { stream = fed.0 }) in
            (broke.0, some broke.1)
        | ok packets ↦
            let handed = hand_over packets (record c { stream = fed.0 }) in
            (handed.0, if handed.1 then none else some left)
      ]

  -- The loop, with its looks at the turn before and after each call of `NextPCM`.
  unfoldable pub read_pcm : List Pcm → Consumer E → Consumer E × Ending
  unfolding end_of_stream fail_read encode_chunk
  read_pcm [] c = if is_over c then (seen c, left) else end_of_stream (seen c)
  read_pcm (pcm_error f ∷ rest) c = if is_over c then (seen c, left) else fail_read f (seen c)
  read_pcm (pcm_chunk pcm ∷ rest) c = elim (is_over c || is_over (seen c)) [
    | true ↦ (seen (seen c), left)
    | false ↦ elim ((encode_chunk pcm (seen (seen c))).1) [
      | some ending ↦ ((encode_chunk pcm (seen (seen c))).0, ending)
      | none ↦ read_pcm rest (encode_chunk pcm (seen (seen c))).0
    ]
  ]

  -- The encoder is made for the turn; `made` is what `opus.NewEncoder` returned.
  unfoldable pub consume_tts_pcm :
      Option E → ℕ → Option ℕ → Option ℕ → List Pcm → Consumer E × Ending
  unfolding read_pcm report
  consume_tts_pcm made max_opus_packet_bytes ctx_left turn_left rest =
      let begun : Consumer E = record {
        ctx_left = ctx_left;
        turn_left = turn_left;
        stream = new_stream_encoder (new_encoder made max_opus_packet_bytes);
        handed = [];
        reported = [];
      } in
      elim made [ none ↦ (report no_encoder begun, broken) | some e ↦ read_pcm rest begun ]
